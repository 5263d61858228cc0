-- ===== src/Api/RuntimeRouter.antt =====
-- The handlers of src/octw/api/routers/runtime_router.py.
use octw.Prelude.{ℕ, Text, Option}
use octw.Exec.{⊤, Op, pure, ◌>>=◌, ◌>>◌}
use octw.Config.{Settings}
use octw.Models.Tenant.{Uuid, TenantRuntimeInfo, tenant_user, tenant_viewer}
use octw.Platform.{Platform}
use octw.Orchestrator.Containers.{get_container_logs}
use octw.Vault.Envelope.{Crypto}
use octw.World.{World, in_session, in_machine, commit}
use octw.Tenants.Service.{start_tenant, stop_tenant, pause_tenant, wake_tenant, get_runtime_info}
use octw.Api.Guard.{TokenPayload, require_member}

module _ {D : Type 0} (p : Platform D) (c : Crypto) (kek : Text) (settings : Settings) where
  unfoldable pub get_runtime : Uuid → TokenPayload → Op (World D) TenantRuntimeInfo
  get_runtime tenant_id user = do
    in_session (require_member tenant_id user tenant_viewer)
    get_runtime_info p c kek settings tenant_id

  unfoldable pub start_runtime : Uuid → TokenPayload → Op (World D) Text
  start_runtime tenant_id user = do
    in_session (require_member tenant_id user tenant_user)
    container_id ← start_tenant p c kek settings tenant_id
    commit
    pure container_id

  unfoldable pub stop_runtime : Uuid → TokenPayload → Op (World D) ⊤
  stop_runtime tenant_id user = do
    in_session (require_member tenant_id user tenant_user)
    stop_tenant p c kek settings tenant_id
    commit

  unfoldable pub pause_runtime : Uuid → TokenPayload → Op (World D) ⊤
  pause_runtime tenant_id user = do
    in_session (require_member tenant_id user tenant_user)
    pause_tenant p c kek settings tenant_id
    commit

  unfoldable pub wake_runtime : Uuid → TokenPayload → Op (World D) Text
  wake_runtime tenant_id user = do
    in_session (require_member tenant_id user tenant_user)
    container_id ← wake_tenant p c kek settings tenant_id
    commit
    pure container_id

  -- `tail` is at most 5000, which the framework checks.
  unfoldable pub get_logs : Uuid → Option ℕ → ℕ → TokenPayload → Op (World D) Text
  get_logs tenant_id since tail user = do
    in_session (require_member tenant_id user tenant_viewer)
    in_machine (get_container_logs p tenant_id since tail)
