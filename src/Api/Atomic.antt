-- ===== src/Api/Atomic.antt =====
-- Requests to the routes under /tenants/{tenant_id} of src/octw/api/routers against the database, and
-- what the methods of src/octw/orchestrator/tenant_service.py do to what is committed.
use octw.Prelude.{Text, Option, none, some, ◌≡◌, refl, arith}
use octw.Exec.{Exc, err, Op}
use octw.Config.{Settings}
use octw.Models.Tenant.{Uuid, TenantCreate, ContainerState}
use octw.Platform.{Platform}
use octw.Db.{TenantRow}
use octw.Vault.Envelope.{Crypto}
use octw.World.{World}
use octw.Tenants.Service
use octw.Tenants.Service.{
  delete_found, start_tenant, stop_tenant, pause_tenant, touch_activity, wake_from, wake_tenant,
  get_runtime_info,
}
use octw.Api.Guard.{TokenPayload}
use octw.Api.TenantsRouter
use octw.Api.RuntimeRouter
use octw.Api.SecretsRouter
use octw.Api.Requests.{
  Request, show_tenant, delete_tenant, list_members, update_tenant, add_member, remove_member,
  get_runtime, start_runtime, stop_runtime, pause_runtime, wake_runtime, get_logs, list_secrets,
  set_secret, delete_secret, rotate_secret, dispatch, serve,
}

-- A call of a service leaves what is committed alone.
abbrev pub Uncommitted : {D A : Type 0} → Op (World D) A → Type 0
Uncommitted {D} m = (w : World D) → (m w).1.committed ≡ w.committed

module _ {D : Type 0} (p : Platform D) (c : Crypto) (kek : Text) (settings : Settings) where
  pub create_tenant-Uncommitted :
      (req : TenantCreate) (u : Option Uuid)
      → Uncommitted (Service.create_tenant p c kek settings req u)
  unfolding Service.create_tenant
  create_tenant-Uncommitted req u w = ground arith

  pub start_tenant-Uncommitted : (t : Uuid) → Uncommitted (start_tenant p c kek settings t)
  unfolding start_tenant
  start_tenant-Uncommitted t w = ground arith

  pub stop_tenant-Uncommitted : (t : Uuid) → Uncommitted (stop_tenant p c kek settings t)
  unfolding stop_tenant
  stop_tenant-Uncommitted t w = ground arith

  pub pause_tenant-Uncommitted : (t : Uuid) → Uncommitted (pause_tenant p c kek settings t)
  unfolding pause_tenant
  pause_tenant-Uncommitted t w = ground arith

  delete_found-Uncommitted :
      (t : Uuid) (u : Option Uuid) (o : Option TenantRow)
      → Uncommitted (delete_found p c kek settings t u o)
  unfolding delete_found
  delete_found-Uncommitted t u none w = refl
  delete_found-Uncommitted t u (some r) w = ground arith

  wake_from-Uncommitted :
      (t : Uuid) (s : ContainerState) → Uncommitted (wake_from p c kek settings t s)
  unfolding wake_from touch_activity
  wake_from-Uncommitted t ContainerState.running w = ground arith
  wake_from-Uncommitted t ContainerState.paused w = ground arith
  wake_from-Uncommitted t _ w = ground (arith, start_tenant-Uncommitted t w)

  pub delete_tenant-Uncommitted :
      (t : Uuid) (u : Option Uuid) → Uncommitted (Service.delete_tenant p c kek settings t u)
  unfolding Service.delete_tenant
  delete_tenant-Uncommitted t u w = delete_found-Uncommitted t u _ w

  pub wake_tenant-Uncommitted : (t : Uuid) → Uncommitted (wake_tenant p c kek settings t)
  unfolding wake_tenant
  wake_tenant-Uncommitted t w = grind (arith, wake_from-Uncommitted)

  pub get_runtime_info-Uncommitted : (t : Uuid) → Uncommitted (get_runtime_info p c kek settings t)
  unfolding get_runtime_info
  get_runtime_info-Uncommitted t w = ground arith

  dispatch-atomic :
      (req : Request) (t : Uuid) (user : TokenPayload) (w : World D) (e : Exc)
      → (dispatch p c kek settings req t user w).0 ≡ err e
      → (dispatch p c kek settings req t user w).1.committed ≡ w.committed
  unfolding dispatch TenantsRouter.show_tenant TenantsRouter.delete_tenant
      TenantsRouter.list_members TenantsRouter.update_tenant TenantsRouter.apply_updates
      TenantsRouter.add_member TenantsRouter.remove_member RuntimeRouter.get_runtime
      RuntimeRouter.start_runtime RuntimeRouter.stop_runtime RuntimeRouter.pause_runtime
      RuntimeRouter.wake_runtime RuntimeRouter.get_logs SecretsRouter.list_secrets
      SecretsRouter.set_secret SecretsRouter.delete_secret SecretsRouter.rotate_secret
  dispatch-atomic show_tenant t user w e h = grind arith
  dispatch-atomic delete_tenant t user w e h = grind (arith, delete_tenant-Uncommitted)
  dispatch-atomic list_members t user w e h = grind arith
  dispatch-atomic (update_tenant none) t user w e h = grind arith
  dispatch-atomic (update_tenant (some n)) t user w e h = grind arith
  dispatch-atomic (add_member m r) t user w e h = grind arith
  dispatch-atomic (remove_member v) t user w e h = grind arith
  dispatch-atomic get_runtime t user w e h = grind (arith, get_runtime_info-Uncommitted)
  dispatch-atomic start_runtime t user w e h = grind (arith, start_tenant-Uncommitted)
  dispatch-atomic stop_runtime t user w e h = grind (arith, stop_tenant-Uncommitted)
  dispatch-atomic pause_runtime t user w e h = grind (arith, pause_tenant-Uncommitted)
  dispatch-atomic wake_runtime t user w e h = grind (arith, wake_tenant-Uncommitted)
  dispatch-atomic (get_logs s n) t user w e h = grind arith
  dispatch-atomic list_secrets t user w e h = grind arith
  dispatch-atomic (set_secret n v ty x) t user w e h = grind arith
  dispatch-atomic (delete_secret n) t user w e h = grind arith
  dispatch-atomic (rotate_secret n v) t user w e h = grind arith

  -- A request to one of the routes under `/tenants/{tenant_id}` that ends in an exception has
  -- committed nothing.
  pub serve-atomic :
      (req : Request) (t : Uuid) (user : TokenPayload) (w : World D) (e : Exc)
      → (serve p c kek settings req t user w).0 ≡ err e
      → (serve p c kek settings req t user w).1.committed ≡ w.committed
  unfolding serve
  serve-atomic req t user w e h = dispatch-atomic req t user _ e h
