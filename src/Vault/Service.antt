-- ===== src/Vault/Service.antt =====
-- src/octw/vault/service.py, method by method. The first two parameters are the fields of the
-- `EnvelopeVault` that the service holds.
use octw.Prelude.{
  Text, codes, Bool, true, false, Option, none, some, List, [], ◌∷◌, map, or_text, Dict, insert,
}
use octw.Exec.{Result, ok, err, ⊤, Op, pure, lift, gets, modify, ◌>>=◌, ◌>>◌}
use octw.Models.Tenant.{Uuid, Time}
use octw.Models.Secret.{SecretType, SecretMetadata}
use octw.Db.{
  Session, SecretRow, TenantDekRow, in_db, dek_of, secrets_named, secrets_of, add_dek, add_secret,
  update_secret, delete_secret_row, scalar_one_or_none,
}
use octw.Vault.Envelope.{
  Crypto, generate_dek, encrypt_dek, decrypt_dek, encrypt_value, decrypt_value, uuid4,
}

-- The new values of the columns of a secret that is there.
abbrev pub overwrite : Time → Text → Text → SecretType → Option Text → SecretRow → SecretRow
overwrite now ciphertext nonce secret_type target_env_var row = record row {
  ciphertext = ciphertext;
  nonce = nonce;
  secret_type = secret_type;
  target_env_var = target_env_var;
  updated_at = now;
}

-- `SecretRow(...)`, with the defaults of its columns.
abbrev pub new_secret :
    Uuid → Time → Uuid → Text → Text → Text → SecretType → Option Text → SecretRow
new_secret secret_id now tenant_id name ciphertext nonce secret_type target_env_var = record {
  secret_id = secret_id;
  tenant_id = tenant_id;
  name = name;
  ciphertext = ciphertext;
  nonce = nonce;
  algorithm = codes "AES-256-GCM";
  key_version = 1;
  secret_type = secret_type;
  target_env_var = target_env_var;
  last_rotated_at = none;
  created_at = now;
  updated_at = now;
}

module _ (c : Crypto) (kek : Text) where
  unfoldable pub create_dek : Uuid → Op Session Text
  unfolding generate_dek encrypt_dek
  create_dek tenant_id = do
    dek ← generate_dek c
    wrapped ← encrypt_dek c kek dek
    now ← gets (λ s. s.now)
    in_db (
        add_dek (record {
          tenant_id = tenant_id;
          encrypted_dek = wrapped.0;
          dek_nonce = wrapped.1;
          kek_version = 1;
          created_at = now;
        }))
    pure dek

  unfoldable pub unwrap_or_create : Uuid → Option TenantDekRow → Op Session Text
  unfolding create_dek decrypt_dek
  unwrap_or_create tenant_id none = create_dek tenant_id
  unwrap_or_create tenant_id (some row) = lift (decrypt_dek c kek row.encrypted_dek row.dek_nonce)

  unfoldable pub ensure_tenant_dek : Uuid → Op Session Text
  unfolding unwrap_or_create dek_of
  ensure_tenant_dek tenant_id = do
    row ← gets (λ s. dek_of tenant_id s.db)
    unwrap_or_create tenant_id row

  -- The branches on `existing`.
  unfoldable pub put_secret :
      Uuid → Text → Text → Text → SecretType → Option Text → Option SecretRow → Op Session ⊤
  unfolding update_secret add_secret
  put_secret tenant_id name ciphertext nonce secret_type target_env_var (some existing) =
      modify λ s. record s {
        db =
            update_secret tenant_id name
              (overwrite s.now ciphertext nonce secret_type target_env_var) s.db;
      }
  put_secret tenant_id name ciphertext nonce secret_type target_env_var none = do
    secret_id ← uuid4 c
    now ← gets (λ s. s.now)
    in_db (
        add_secret
          (new_secret secret_id now tenant_id name ciphertext nonce secret_type target_env_var))

  -- `store_secret` from the encryption on. The defaults of `SecretMetadata` are the time of the call.
  unfoldable pub seal_and_put :
      Uuid → Text → Text → SecretType → Option Text → Text → Op Session SecretMetadata
  unfolding encrypt_value secrets_named
  seal_and_put tenant_id name plaintext secret_type target_env_var dek = do
    sealed ← encrypt_value c dek plaintext
    rows ← gets (λ s. secrets_named tenant_id name s.db)
    existing ← lift (scalar_one_or_none rows)
    put_secret tenant_id name sealed.0 sealed.1 secret_type target_env_var existing
    now ← gets (λ s. s.now)
    pure (record {
      name = name;
      tenant_id = tenant_id;
      type = secret_type;
      target_env_var = target_env_var;
      algorithm = codes "AES-256-GCM";
      key_version = 1;
      last_rotated_at = none;
      created_at = now;
      updated_at = now;
    })

  unfoldable pub store_secret :
      Uuid → Text → Text → SecretType → Option Text → Op Session SecretMetadata
  store_secret tenant_id name plaintext secret_type target_env_var = do
    dek ← ensure_tenant_dek tenant_id
    seal_and_put tenant_id name plaintext secret_type target_env_var dek

  -- The loop of `get_decrypted_secrets`.
  unfoldable pub decrypt_rows : Text → List SecretRow → Dict Text → Result (Dict Text)
  unfolding decrypt_value
  decrypt_rows dek [] result = ok result
  decrypt_rows dek (row ∷ rows) result = elim (decrypt_value c dek row.ciphertext row.nonce) [
    | err e ↦ err e
    | ok plaintext ↦
        decrypt_rows dek rows (insert (or_text row.target_env_var row.name) plaintext result)
  ]

  unfoldable pub get_decrypted_secrets : Uuid → Op Session (Dict Text)
  get_decrypted_secrets tenant_id = do
    dek ← ensure_tenant_dek tenant_id
    rows ← gets (λ s. secrets_of tenant_id s.db)
    lift (decrypt_rows dek rows [])

abbrev pub metadata_of : SecretRow → SecretMetadata
metadata_of r = record {
  name = r.name;
  tenant_id = r.tenant_id;
  type = r.secret_type;
  target_env_var = r.target_env_var;
  algorithm = r.algorithm;
  key_version = r.key_version;
  last_rotated_at = r.last_rotated_at;
  created_at = r.created_at;
  updated_at = r.updated_at;
}

unfoldable pub list_secret_metadata : Uuid → Op Session (List SecretMetadata)
unfolding secrets_of
list_secret_metadata tenant_id = gets (λ s. map metadata_of (secrets_of tenant_id s.db))

unfoldable pub delete_found_secret : Uuid → Text → Option SecretRow → Op Session Bool
unfolding delete_secret_row
delete_found_secret tenant_id name none = pure false
delete_found_secret tenant_id name (some row) = do
  modify (λ s. record s { db = delete_secret_row tenant_id name s.db })
  pure true

unfoldable pub delete_secret : Uuid → Text → Op Session Bool
unfolding delete_found_secret
delete_secret tenant_id name = do
  rows ← gets (λ s. secrets_named tenant_id name s.db)
  row ← lift (scalar_one_or_none rows)
  delete_found_secret tenant_id name row
