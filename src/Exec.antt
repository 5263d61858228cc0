-- ===== src/Exec.antt =====
-- Python calls that change state and may raise. What was changed before a raise stays changed, so
-- the state comes back beside the exception too.
use octw.Prelude.{arith, ◌≡◌, refl, ◌⊎◌, inl, inr, ℕ, Bool, if◌then◌else◌}

-- The exceptions that the program raises or meets. `http` carries the status code.
pub data Exc : Type 0 where
  http : ℕ → Exc
  value_error runtime_error attribute_error type_error key_error : Exc
  -- the database: a constraint that fails, a query for one row that finds more
  integrity_error multiple_results : Exc
  -- the Docker SDK: `docker.errors.NotFound`, and any other error of the daemon
  not_found api_error : Exc
  -- `cryptography`: the tag of a ciphertext does not fit
  invalid_tag : Exc
  -- the database driver: a value of another type than the column's
  data_error : Exc
  permission_error file_not_found os_error : Exc
  -- httpx: a URL that it refuses, and a request that fails
  invalid_url request_error : Exc
  -- click: the answer to a question is no
  abort : Exc

pub data Result (A : Type 0) : Type 0 where
  ok : A → Result A
  err : Exc → Result A

pub Result-cases : {A : Type 0} (r : Result A) → ((a : A) × (r ≡ ok a)) ⊎ ((e : Exc) × (r ≡ err e))
Result-cases (ok a) = inl (a, refl)
Result-cases (err e) = inr (e, refl)

abbrev pub ⊤ : Type 0
⊤ = Unit

abbrev pub Op : Type 0 → Type 0 → Type 0
Op S A = S → Result A × S

module _ {S A : Type 0} where
  abbrev pub pure : A → Op S A
  pure a s = (ok a, s)

  abbrev pub raise : Exc → Op S A
  raise e s = (err e, s)

  abbrev pub lift : Result A → Op S A
  lift r s = (r, s)

  abbrev pub gets : (S → A) → Op S A
  gets f s = (ok (f s), s)

  -- A call that may raise and changes nothing.
  abbrev pub query : (S → Result A) → Op S A
  query f s = (f s, s)

module _ {S A B : Type 0} where
  abbrev pub continue : (A → Op S B) → Result A → S → Result B × S
  continue f (ok a) s = f a s
  continue f (err e) s = (err e, s)

  infixl 5 ◌>>=◌ ◌>>◌
  abbrev pub ◌>>=◌ : Op S A → (A → Op S B) → Op S B
  ◌>>=◌ m f s = let (r, s') = m s in continue f r s'

  abbrev pub ◌>>◌ : Op S A → Op S B → Op S B
  m >> k = m >>= λ _. k

module _ {S : Type 0} where
  abbrev pub modify : (S → S) → Op S ⊤
  modify f s = (ok tt, f s)

  abbrev pub raise_if : Bool → Exc → Op S ⊤
  raise_if c e s = (if c then err e else ok tt, s)

  -- `if c: m`
  abbrev pub when : Bool → Op S ⊤ → Op S ⊤
  when c m s = if c then m s else (ok tt, s)

module _ {S A : Type 0} where
  -- `try: m`, `except NotFound: k`
  abbrev pub on_not_found : Op S A → Result A → S → Result A × S
  on_not_found k (err not_found) s = k s
  on_not_found k r s = (r, s)

  abbrev pub except_not_found : Op S A → Op S A → Op S A
  except_not_found m k s = let (r, s') = m s in on_not_found k r s'

  -- `except PermissionError`
  abbrev pub on_permission : Op S A → Result A → S → Result A × S
  on_permission k (err permission_error) s = k s
  on_permission k r s = (r, s)

  abbrev pub except_permission : Op S A → Op S A → Op S A
  except_permission m k s = let (r, s') = m s in on_permission k r s'

  -- `except OSError`, of which `PermissionError` and `FileNotFoundError` are kinds
  abbrev pub on_os_error : Op S A → Result A → S → Result A × S
  on_os_error k (err permission_error) s = k s
  on_os_error k (err file_not_found) s = k s
  on_os_error k (err os_error) s = k s
  on_os_error k r s = (r, s)

  abbrev pub except_os_error : Op S A → Op S A → Op S A
  except_os_error m k s = let (r, s') = m s in on_os_error k r s'

  -- `except Exception`
  abbrev pub on_exception : Op S A → Result A → S → Result A × S
  on_exception k (ok a) s = (ok a, s)
  on_exception k (err e) s = k s

  abbrev pub except_exception : Op S A → Op S A → Op S A
  except_exception m k s = let (r, s') = m s in on_exception k r s'

-- What the last call of a chain ensures, the chain ensures if it returns.
pub ensured_by_last :
    {S A B : Type 0} (P : S → Type 0) (m : Op S A) (f : A → Op S B) (s : S) (b : B)
    → ((m >>= f) s).0 ≡ ok b
    → ((a : A) → (m s).0 ≡ ok a → (f a (m s).1).0 ≡ ok b → P (f a (m s).1).1)
    → P ((m >>= f) s).1
ensured_by_last P m f s b h last = elim (Result-cases (m s).0) [
  | inl (a, q) ↦ rw (q, continue) (last a q (rw (q, continue) at h))
  | inr (e, q) ↦ absurd (ground arith)
]
