-- ===== src/Api/Requests.antt =====
-- The requests that name a tenant, together: which handler answers each, and what a session is to it.
use octw.Prelude.{ℕ, Text, Option, List}
use octw.Exec.{Op, pure, ◌>>=◌, ◌>>◌}
use octw.Config.{Settings}
use octw.Models.Tenant.{Uuid, Tenant, TenantRuntimeInfo, Role, Member}
use octw.Models.Secret.{SecretType, SecretMetadata}
use octw.Json.{Value}
use octw.Platform.{Platform}
use octw.Vault.Envelope.{Crypto}
use octw.World.{World}
use octw.Api.Guard.{TokenPayload}
use octw.Api.TenantsRouter
use octw.Api.RuntimeRouter
use octw.Api.SecretsRouter

-- The routes under `/tenants/{tenant_id}`, with what they take besides. An untyped body is what it has
-- under the keys that the handler reads.
pub data Request : Type 0 where
  show_tenant delete_tenant list_members : Request
  update_tenant : Option Value → Request
  add_member : Text → Role → Request
  remove_member : Uuid → Request
  get_runtime start_runtime stop_runtime pause_runtime wake_runtime : Request
  get_logs : Option ℕ → ℕ → Request
  list_secrets : Request
  set_secret : Text → Text → SecretType → Option Text → Request
  delete_secret : Text → Request
  rotate_secret : Option Value → Option Value → Request

-- An answer's body.
pub data Answer : Type 0 where
  done : Answer
  tenant : Tenant → Answer
  members : List Member → Answer
  member : Member → Answer
  info : TenantRuntimeInfo → Answer
  text : Text → Answer
  secrets : List SecretMetadata → Answer
  secret : SecretMetadata → Answer

module _ {D A : Type 0} where
  -- A request has a session of its own (`get_session`), which begins at what is committed, and what
  -- it has not committed is lost when it ends.
  abbrev pub in_request : Op (World D) A → Op (World D) A
  in_request m w =
      let (r, w') = m (record w { session = record w.session { db = w.committed } }) in
      (r, record w' { session = record w'.session { db = w'.committed } })

module _ {D : Type 0} (p : Platform D) (c : Crypto) (kek : Text) (settings : Settings) where
  unfoldable pub dispatch : Request → Uuid → TokenPayload → Op (World D) Answer
  dispatch show_tenant t u = do a ← TenantsRouter.show_tenant t u; pure (tenant a)
  dispatch delete_tenant t u = do TenantsRouter.delete_tenant p c kek settings t u; pure done
  dispatch list_members t u = do a ← TenantsRouter.list_members t u; pure (members a)
  dispatch (update_tenant n) t u = do TenantsRouter.update_tenant t n u; pure done
  dispatch (add_member e r) t u = do a ← TenantsRouter.add_member c t e r u; pure (member a)
  dispatch (remove_member v) t u = do TenantsRouter.remove_member c t v u; pure done
  dispatch get_runtime t u = do a ← RuntimeRouter.get_runtime p c kek settings t u; pure (info a)
  dispatch start_runtime t u = do
    a ← RuntimeRouter.start_runtime p c kek settings t u
    pure (text a)
  dispatch stop_runtime t u = do RuntimeRouter.stop_runtime p c kek settings t u; pure done
  dispatch pause_runtime t u = do RuntimeRouter.pause_runtime p c kek settings t u; pure done
  dispatch wake_runtime t u = do a ← RuntimeRouter.wake_runtime p c kek settings t u; pure (text a)
  dispatch (get_logs s n) t u = do
    a ← RuntimeRouter.get_logs p c kek settings t s n u
    pure (text a)
  dispatch list_secrets t u = do a ← SecretsRouter.list_secrets t u; pure (secrets a)
  dispatch (set_secret n v ty e) t u = do
    a ← SecretsRouter.set_secret c kek t n v ty e u
    pure (secret a)
  dispatch (delete_secret n) t u = do SecretsRouter.delete_secret t n u; pure done
  dispatch (rotate_secret n v) t u = do a ← SecretsRouter.rotate_secret c kek t n v u; pure (text a)

  unfoldable pub serve : Request → Uuid → TokenPayload → Op (World D) Answer
  serve req t u = in_request (dispatch req t u)
