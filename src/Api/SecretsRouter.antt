-- ===== src/Api/SecretsRouter.antt =====
-- The handlers of src/octw/api/routers/secrets_router.py.
use octw.Prelude.{Text, Option, none, List, not}
use octw.Exec.{
  Result, ok, err, http, data_error, attribute_error, ⊤, Op, pure, raise, raise_if, ◌>>=◌, ◌>>◌,
}
use octw.Json.{Value, truthy_value, text_or}
use octw.Models.Tenant.{Uuid, tenant_admin, tenant_viewer}
use octw.Models.Secret.{SecretType, SecretMetadata, env}
use octw.Vault.Envelope.{Crypto, encrypt_value}
use octw.Vault.Service
use octw.Db.{Session}
use octw.Vault.Service.{ensure_tenant_dek, store_secret, list_secret_metadata}
use octw.World.{World, in_session, commit}
use octw.Api.Guard.{TokenPayload, require_member}

module _ (c : Crypto) (kek : Text) where
  -- `store_secret` for a name and a value of any type: the value is encoded when the key is there, and
  -- the name is asked for in the database after that. The type and the target variable are defaults.
  unfoldable pub store_untyped : Uuid → Result Text → Result Text → Op Session Text
  store_untyped tenant_id name (err e) = do ensure_tenant_dek c kek tenant_id; raise e
  store_untyped tenant_id (err e) (ok value) = do
    dek ← ensure_tenant_dek c kek tenant_id
    encrypt_value c dek value
    raise e
  store_untyped tenant_id (ok name) (ok value) = do
    store_secret c kek tenant_id name value env none
    pure name

module _ {D : Type 0} where
  unfoldable pub list_secrets : Uuid → TokenPayload → Op (World D) (List SecretMetadata)
  list_secrets tenant_id user = do
    in_session (require_member tenant_id user tenant_viewer)
    in_session (list_secret_metadata tenant_id)

  unfoldable pub delete_secret : Uuid → Text → TokenPayload → Op (World D) ⊤
  delete_secret tenant_id name user = do
    in_session (require_member tenant_id user tenant_admin)
    deleted ← in_session (Service.delete_secret tenant_id name)
    raise_if (not deleted) (http 404)
    commit

  module _ (c : Crypto) (kek : Text) where
    unfoldable pub set_secret :
        Uuid → Text → Text → SecretType → Option Text → TokenPayload → Op (World D) SecretMetadata
    set_secret tenant_id name value type target_env_var user = do
      in_session (require_member tenant_id user tenant_admin)
      meta ← in_session (store_secret c kek tenant_id name value type target_env_var)
      commit
      pure meta

    -- `name` and `value` are what the body has under these keys.
    unfoldable pub rotate_secret :
        Uuid → Option Value → Option Value → TokenPayload → Op (World D) Text
    rotate_secret tenant_id name value user = do
      in_session (require_member tenant_id user tenant_admin)
      raise_if (not (truthy_value name)) (http 400)
      raise_if (not (truthy_value value)) (http 400)
      stored ←
          in_session (
            store_untyped c kek tenant_id (text_or data_error name) (text_or attribute_error value))
      commit
      pure stored
