-- ===== src/Vault/Sound.antt =====
-- The vault as a map from a tenant and a name to a text. The vault is sound if every key and every
-- secret in the database opens; each operation then acts on the map as on a dictionary.
use octw.Prelude.{
  nat_beq_iff, ◌+◌, ◌||◌, not, has, map, Text, true, Option, none, some, List, [], ◌∷◌, ◌++◌, ◌≡◌,
  refl, ◌==◌, nat_eq, text_eq, ◌&&◌, arith, is_some, All, All-append, All-weaken, find, All-find,
  find-append, Bool-cases, Option-cases, inl, inr,
}
use octw.Exec.{Result, ok, err, integrity_error}
use octw.Models.Tenant.{Uuid}
use octw.Db.{Db, Session, SecretRow, TenantDekRow, add_dek, tenant_exists, dek_tenant_of}
use octw.Vault.Envelope.{Crypto, CryptoLaws, nonce_size, key_size, or_invalid_tag}
use octw.Vault.Service.{ensure_tenant_dek, create_dek}

module _ (c : Crypto) (kek : Text) where
  abbrev pub unwrap : TenantDekRow → Option Text
  unwrap k = c.decrypt kek k.dek_nonce k.encrypted_dek

  abbrev pub unwrap? : Option TenantDekRow → Option Text
  unwrap? none = none
  unwrap? (some k) = unwrap k

  -- The key of a tenant, if it has one that opens.
  abbrev pub dek_for : Uuid → Db → Option Text
  dek_for t db = unwrap? (find (λ r. r.tenant_id == t) db.deks)

  abbrev pub open_with : Option Text → SecretRow → Option Text
  open_with none r = none
  open_with (some dek) r = c.decrypt dek r.nonce r.ciphertext

  -- The text of a secret, if it opens under its tenant's key.
  abbrev pub reveal : Db → SecretRow → Option Text
  reveal db r = open_with (dek_for r.tenant_id db) r

  abbrev pub reveal? : Db → Option SecretRow → Option Text
  reveal? db none = none
  reveal? db (some r) = reveal db r

  -- The map that the vault stands for.
  abbrev pub view : Uuid → Text → Db → Option Text
  view t n db = reveal? db (find (λ r. r.tenant_id == t && r.name == n) db.secrets)

  pub record IsSound (db : Db) : Type 0 where
    pub deks_open : All (λ k. is_some (unwrap k) ≡ true) db.deks
    pub secrets_open : All (λ r. is_some (reveal db r) ≡ true) db.secrets

  -- The row that a new key is stored in, and the session after the two draws that it takes.
  unfoldable pub fresh_row : Uuid → Session → TenantDekRow
  fresh_row t s = record {
    tenant_id = t;
    encrypted_dek = c.encrypt kek (c.urandom (s.draws + 1) nonce_size) (c.urandom s.draws key_size);
    dek_nonce = c.urandom (s.draws + 1) nonce_size;
    kek_version = 1;
    created_at = s.now;
  }

  abbrev pub drawn : Session → Session
  drawn s = record s { draws = s.draws + 1 + 1 }

  -- `ensure_tenant_dek` on its three branches: a key that is there, a tenant that is not there, and
  -- a new key.
  pub data Ensured (t : Uuid) (s : Session) : Result Text × Session → Type 0 where
    old :
        (k : TenantDekRow)
        → find (λ r. r.tenant_id == t) s.db.deks ≡ some k
        → Ensured t s (or_invalid_tag c (unwrap k), s)
    refused :
        find (λ r. r.tenant_id == t) s.db.deks ≡ none
        → (has t (map dek_tenant_of s.db.deks) || not (tenant_exists t s.db)) ≡ true
        → Ensured t s (err integrity_error, drawn s)
    new :
        find (λ r. r.tenant_id == t) s.db.deks ≡ none
        → tenant_exists t s.db ≡ true
        → Ensured t s (
          ok (c.urandom s.draws key_size),
          record (drawn s) { db = record s.db { deks = s.db.deks ++ fresh_row t s ∷ [] } },
        )

  create-Ensured :
      (t : Uuid) (s : Session)
      → find (λ r. r.tenant_id == t) s.db.deks ≡ none
      → Ensured t s (create_dek c kek t s)
  unfolding create_dek add_dek fresh_row
  create-Ensured t s h =
      elim (Bool-cases (has t (map dek_tenant_of s.db.deks) || not (tenant_exists t s.db))) [
        | inl e ↦ rw (e, create_dek, add_dek) (refused h e)
        | inr e ↦ rw (e, create_dek, add_dek) (new h (ground arith))
      ]

  pub ensure-Ensured : (t : Uuid) (s : Session) → Ensured t s (ensure_tenant_dek c kek t s)
  unfolding ensure_tenant_dek
  ensure-Ensured t s = elim (Option-cases (find (λ r. r.tenant_id == t) s.db.deks)) [
    | inl e ↦ rw (e, ensure_tenant_dek) (create-Ensured t s e)
    | inr (k, e) ↦ rw (e, ensure_tenant_dek) (old k e)
  ]

  dek_for-append :
      (u : Uuid) (ks : List TenantDekRow) (y : TenantDekRow) {k : Text}
      → unwrap? (find (λ r. r.tenant_id == u) ks) ≡ some k
      → unwrap? (find (λ r. r.tenant_id == u) (ks ++ y ∷ [])) ≡ some k
  dek_for-append u ks y {k} h = ground (arith, find-append (λ r. r.tenant_id == u) ks y)

  module _ {t : Uuid} {s : Session} where
    pub Ensured-secrets :
        {r : Result Text × Session} → Ensured t s r → r.1.db.secrets ≡ s.db.secrets
    Ensured-secrets (old k e) = refl
    Ensured-secrets (refused e x) = refl
    Ensured-secrets (new e x) = refl

    pub Ensured-dek_for :
        {r : Result Text × Session} (u : Uuid) {k : Text}
        → Ensured t s r
        → dek_for u s.db ≡ some k
        → dek_for u r.1.db ≡ some k
    Ensured-dek_for u (old _ e) h = h
    Ensured-dek_for u (refused e x) h = h
    Ensured-dek_for u (new e x) h = dek_for-append u s.db.deks (fresh_row t s) h

  open-same :
      (o o' : Option Text) (r : SecretRow)
      → is_some (open_with o r) ≡ true
      → ((k : Text) → o ≡ some k → o' ≡ some k)
      → open_with o' r ≡ open_with o r
  open-same none o' r h f = cc
  open-same (some k) o' r h f = rw (f k refl)

  fresh-opens : CryptoLaws c → (t : Uuid) (s : Session) → is_some (unwrap (fresh_row t s)) ≡ true
  unfolding fresh_row
  fresh-opens laws t s = ground (
    arith,
    laws.decrypt-encrypt kek (c.urandom (s.draws + 1) nonce_size) (c.urandom s.draws key_size),
  )

  module _ (laws : CryptoLaws c) {t : Uuid} {s : Session} where
    pub Ensured-returns :
        {r : Result Text × Session} {dek : Text}
        → Ensured t s r
        → r.0 ≡ ok dek
        → dek_for t r.1.db ≡ some dek
    unfolding fresh_row
    Ensured-returns (old k e) h = ground arith
    Ensured-returns (refused e x) h = cc
    Ensured-returns (new e x) h = ground (
      arith,
      find-append (λ r. r.tenant_id == t) s.db.deks (fresh_row t s),
      nat_beq_iff t t,
      laws.decrypt-encrypt kek (c.urandom (s.draws + 1) nonce_size) (c.urandom s.draws key_size),
    )

    pub Ensured-IsSound :
        {r : Result Text × Session} → Ensured t s r → IsSound s.db → IsSound r.1.db
    Ensured-IsSound (old k e) v = v
    Ensured-IsSound (refused e x) v = v
    Ensured-IsSound (new e x) v = record {
      deks_open = All-append _ s.db.deks (fresh_row t s) v.deks_open (fresh-opens laws t s);
      secrets_open =
          All-weaken s.db.secrets
            (λ r h.
              rw (open-same _ _ r h (λ k d. dek_for-append r.tenant_id s.db.deks (fresh_row t s) d))
                h)
            v.secrets_open;
    }

    pub Ensured-view :
        {r : Result Text × Session} (u : Uuid) (n : Text)
        → Ensured t s r
        → IsSound s.db
        → view u n r.1.db ≡ view u n s.db
    Ensured-view u n (old k e) v = refl
    Ensured-view u n (refused e x) v = refl
    Ensured-view u n (new e x) v =
        elim (Option-cases (find (λ r. r.tenant_id == u && r.name == n) s.db.secrets)) [
          | inl none_found ↦ rw none_found
          | inr (r, found) ↦ rw found (
              open-same _ _ r (All-find _ _ s.db.secrets v.secrets_open found)
                (λ k d. dek_for-append r.tenant_id s.db.deks (fresh_row t s) d))
        ]
