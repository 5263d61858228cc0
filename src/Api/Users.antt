-- ===== src/Api/Users.antt =====
-- `get_or_create_user` of src/octw/api/auth.py: the row that it returns.
use octw.Prelude.{
  Text, false, Option, none, some, List, [], ◌∷◌, ◌≡◌, refl, arith, text_beq_iff, ◌==◌, text_eq,
  has, map, find, find-passes, find-append, All, All-find, ◌<◌, Bool,
}
use octw.Exec.{ok, continue}
use octw.Uuid.Distinct.{pow16}
use octw.Db.{Session, UserRow, IsValid, user_exists, email_of, add_user, users_by_email, one-found}
use octw.Vault.Envelope.{Crypto}
use octw.Api.Auth.{get_or_create_user, row_or_create}

has-find_email :
    (email : Text) (rows : List UserRow)
    → find (λ r. r.email == email) rows ≡ none
    → has email (map email_of rows) ≡ false
unfolding has find
has-find_email email [] h = refl
has-find_email email (r ∷ rows) h =
    ground
      (arith, has-find_email email rows, text_beq_iff email r.email, text_beq_iff r.email email)

abbrev pub by_email : Text → UserRow → Bool
by_email email r = r.email == email

-- The row of an address, which the database has now.
abbrev pub Owned : Text → UserRow → Session → Type 0
Owned email row s =
    (find (by_email email) s.db.users ≡ some row) × ((row.email ≡ email) × (row.user_id < pow16 32))

module _ (c : Crypto) where
  row_or_create-Owned :
      (email : Text) (o : Option UserRow) (s : Session)
      → find (by_email email) s.db.users ≡ o
      → (o ≡ none → has email (map email_of s.db.users) ≡ false)
      → user_exists (c.uuid4 s.draws) s.db ≡ false
      → All (λ r. r.user_id < pow16 32) s.db.users
      → c.uuid4 s.draws < pow16 32
      → let (r, s') = row_or_create c email o s in
        (row : UserRow) × ((r ≡ ok row) × Owned email row s')
  unfolding row_or_create add_user
  row_or_create-Owned email none s f n h small drawn =
      let row : UserRow = record { user_id = c.uuid4 s.draws; email = email; created_at = s.now } in
      let appended = find-append (by_email email) s.db.users row in
      (
        row,
        (
          ground (arith, n refl),
          (ground (arith, n refl, f, appended, text_beq_iff email email), (refl, drawn)),
        ),
      )
  row_or_create-Owned email (some row) s f n h small drawn = (
    row,
    (
      refl,
      (
        f,
        (
          ground (arith, find-passes (by_email email) s.db.users f, text_beq_iff row.email email),
          All-find (λ r. r.user_id < pow16 32) (by_email email) s.db.users small f,
        ),
      ),
    ),
  )

  pub get_or_create_user-Owned :
      (email : Text) (s : Session)
      → IsValid s.db
      → user_exists (c.uuid4 s.draws) s.db ≡ false
      → All (λ r. r.user_id < pow16 32) s.db.users
      → c.uuid4 s.draws < pow16 32
      → let (r, s') = get_or_create_user c email s in
        (row : UserRow) × ((r ≡ ok row) × Owned email row s')
  unfolding get_or_create_user users_by_email
  get_or_create_user-Owned email s v h small drawn =
      rw (one-found email_of email s.db.users v.emails, continue)
        (row_or_create-Owned email (find (by_email email) s.db.users) s refl
          (has-find_email email s.db.users) h small drawn)
