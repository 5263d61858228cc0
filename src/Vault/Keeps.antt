-- ===== src/Vault/Keeps.antt =====
-- What every operation of src/octw/vault/service.py keeps: each invariant of the database.
use octw.Prelude.{Bool, true, ◌≡◌, Text, Option, none, some, refl, arith}
use octw.Models.Tenant.{Uuid}
use octw.Models.Secret.{SecretType}
use octw.Db.{Db, Session, SecretRow, TenantDekRow, Invariant, SecretInvariant}
use octw.Vault.Envelope.{Crypto}
use octw.Vault.Service.{
  create_dek, unwrap_or_create, ensure_tenant_dek, put_secret, seal_and_put, store_secret,
  get_decrypted_secrets, delete_secret, delete_found_secret, overwrite, new_secret,
}
use octw.Vault.Sound.{fresh_row}

-- The operations of the vault, with this master key, keep the predicate.
pub record VaultInvariant (scope : Uuid → Bool) (c : Crypto) (kek : Text) (P : Db → Type 0)
    : Type 0 where
  pub stores :
      (t : Uuid) (n pt : Text) (ty : SecretType) (ev : Option Text) (s : Session)
      → scope t ≡ true
      → P s.db
      → P (store_secret c kek t n pt ty ev s).1.db
  pub decrypts :
      (t : Uuid) (s : Session) → scope t ≡ true → P s.db → P (get_decrypted_secrets c kek t s).1.db

module _ {scope : Uuid → Bool} {P : Db → Type 0} (rows : SecretInvariant scope P) (c : Crypto)
    (kek : Text) where
  unwrap_or_create-keeps :
      (t : Uuid) (o : Option TenantDekRow) (s : Session)
      → scope t ≡ true
      → P s.db
      → P (unwrap_or_create c kek t o s).1.db
  unfolding unwrap_or_create create_dek fresh_row
  unwrap_or_create-keeps t none s i v = ground (arith, rows.adds_dek (fresh_row c kek t s) s.db i v)
  unwrap_or_create-keeps t (some k) s i v = v

  ensure-keeps :
      (t : Uuid) (s : Session) → scope t ≡ true → P s.db → P (ensure_tenant_dek c kek t s).1.db
  unfolding ensure_tenant_dek
  ensure-keeps t s i v = unwrap_or_create-keeps t _ s i v

  put-keeps :
      (t : Uuid) (n ct nonce : Text) (ty : SecretType) (ev : Option Text) (o : Option SecretRow)
      (s : Session)
      → scope t ≡ true
      → P s.db
      → P (put_secret c kek t n ct nonce ty ev o s).1.db
  unfolding put_secret
  put-keeps t n ct nonce ty ev none s i v =
      rows.adds_secret (new_secret (c.uuid4 s.draws) s.now t n ct nonce ty ev) s.db i v
  put-keeps t n ct nonce ty ev (some r) s i v =
      rows.updates_secret t n (overwrite s.now ct nonce ty ev) s.db (λ x. refl) i v

  seal-keeps :
      (t : Uuid) (n pt : Text) (ty : SecretType) (ev : Option Text) (dek : Text) (s : Session)
      → scope t ≡ true
      → P s.db
      → P (seal_and_put c kek t n pt ty ev dek s).1.db
  unfolding seal_and_put
  seal-keeps t n pt ty ev dek s i v = grind (arith, put-keeps)

  -- Storing a secret keeps every invariant of the database, whatever it ends with.
  store_secret-keeps :
      (t : Uuid) (n pt : Text) (ty : SecretType) (ev : Option Text) (s : Session)
      → scope t ≡ true
      → P s.db
      → P (store_secret c kek t n pt ty ev s).1.db
  unfolding store_secret
  store_secret-keeps t n pt ty ev s i v = grind (arith, ensure-keeps, seal-keeps)

  get_decrypted_secrets-keeps :
      (t : Uuid) (s : Session) → scope t ≡ true → P s.db → P (get_decrypted_secrets c kek t s).1.db
  unfolding get_decrypted_secrets
  get_decrypted_secrets-keeps t s i v = ground (arith, ensure-keeps t s i v)

  -- What the statements keep, the operations keep.
  pub SecretInvariant-VaultInvariant : VaultInvariant scope c kek P
  SecretInvariant-VaultInvariant = record {
    stores = store_secret-keeps;
    decrypts = get_decrypted_secrets-keeps;
  }

module _ {scope : Uuid → Bool} {P : Db → Type 0} (inv : Invariant scope P) where
  delete_found-keeps :
      (t : Uuid) (n : Text) (o : Option SecretRow) (s : Session)
      → scope t ≡ true
      → P s.db
      → P (delete_found_secret t n o s).1.db
  unfolding delete_found_secret
  delete_found-keeps t n none s i v = v
  delete_found-keeps t n (some r) s i v = inv.deletes_secret t n s.db i v

  pub delete_secret-keeps :
      (t : Uuid) (n : Text) (s : Session) → scope t ≡ true → P s.db → P (delete_secret t n s).1.db
  unfolding delete_secret
  delete_secret-keeps t n s i v = grind (arith, delete_found-keeps)
