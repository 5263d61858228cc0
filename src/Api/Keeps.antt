-- ===== src/Api/Keeps.antt =====
-- Every request of src/octw/api/routers keeps each invariant of the committed database.
use octw.Prelude.{Bool, true, Text, none, some, inl, inr, ◌≡◌, refl, arith}
use octw.Exec.{Result, ok, err, Result-cases}
use octw.Config.{Settings}
use octw.Models.Tenant.{Uuid, Role}
use octw.Platform.{Platform}
use octw.Db.{Db, Session, Invariant}
use octw.Vault.Envelope.{Crypto}
use octw.Vault.Keeps.{VaultInvariant, delete_secret-keeps}
use octw.World.{World}
use octw.Tenants.Keeps.{
  update_row-keeps, add_member-keeps, remove_member-keeps, stop_tenant-keeps, pause_tenant-keeps,
  delete_tenant-keeps, start_tenant-keeps, wake_tenant-keeps,
}
use octw.Api.Guard.{TokenPayload, require_member}
use octw.Api.TenantsRouter
use octw.Api.TenantsRouter.{set_name, column_text}
use octw.Api.RuntimeRouter
use octw.Api.SecretsRouter
use octw.Api.Atomic.{
  delete_tenant-Uncommitted, start_tenant-Uncommitted, stop_tenant-Uncommitted,
  pause_tenant-Uncommitted, wake_tenant-Uncommitted, get_runtime_info-Uncommitted,
}
use octw.Api.Requests.{
  Request, show_tenant, delete_tenant, list_members, update_tenant, add_member, remove_member,
  get_runtime, start_runtime, stop_runtime, pause_runtime, wake_runtime, get_logs, list_secrets,
  set_secret, delete_secret, rotate_secret, dispatch,
}

require_member-state :
    (t : Uuid) (u : TokenPayload) (r : Role) (s : Session) → (require_member t u r s).1 ≡ s
unfolding require_member
require_member-state t u r s = ground arith

module _ {scope : Uuid → Bool} {P : Db → Type 0} (inv : Invariant scope P) {D : Type 0}
    (p : Platform D) (c : Crypto) (kek : Text) (settings : Settings)
    (vault : VaultInvariant scope c kek P) where
  store_untyped-keeps :
      (t : Uuid) (name value : Result Text) (s : Session) (stored : Text)
      → scope t ≡ true
      → P s.db
      → (SecretsRouter.store_untyped c kek t name value s).0 ≡ ok stored
      → P (SecretsRouter.store_untyped c kek t name value s).1.db
  unfolding SecretsRouter.store_untyped
  store_untyped-keeps t name (err e) s stored i v h = absurd (ground arith)
  store_untyped-keeps t (err e) (ok value) s stored i v h = absurd (ground arith)
  store_untyped-keeps t (ok name) (ok value) s stored i v h = grind (arith, vault.stores)

  pub dispatch-keeps :
      (req : Request) (t : Uuid) (user : TokenPayload) (w : World D)
      → scope t ≡ true
      → P w.session.db
      → P w.committed
      → P (dispatch p c kek settings req t user w).1.committed
  unfolding dispatch TenantsRouter.show_tenant TenantsRouter.delete_tenant
      TenantsRouter.list_members TenantsRouter.update_tenant TenantsRouter.apply_updates
      TenantsRouter.add_member TenantsRouter.remove_member RuntimeRouter.get_runtime
      RuntimeRouter.start_runtime RuntimeRouter.stop_runtime RuntimeRouter.pause_runtime
      RuntimeRouter.wake_runtime RuntimeRouter.get_logs SecretsRouter.list_secrets
      SecretsRouter.set_secret SecretsRouter.delete_secret SecretsRouter.rotate_secret
  dispatch-keeps show_tenant t user w i v k = grind arith
  dispatch-keeps delete_tenant t user w i v k = grind (
    arith,
    delete_tenant-Uncommitted,
    delete_tenant-keeps inv p c kek settings,
    require_member-state,
  )
  dispatch-keeps list_members t user w i v k = grind arith
  dispatch-keeps (update_tenant none) t user w i v k = grind arith
  dispatch-keeps (update_tenant (some n)) t user w i v k = elim (Result-cases (column_text n)) [
    | inl (name, q) ↦ grind (
      arith,
      require_member-state,
      update_row-keeps inv t (set_name name) w.session (λ _ _. refl) (λ _ _. refl) i,
    )
    | inr (e, q) ↦ grind arith
  ]
  dispatch-keeps (add_member m r) t user w i v k =
      grind (arith, require_member-state, add_member-keeps inv c)
  dispatch-keeps (remove_member x) t user w i v k =
      grind (arith, require_member-state, remove_member-keeps inv c)
  dispatch-keeps get_runtime t user w i v k = grind (arith, get_runtime_info-Uncommitted)
  dispatch-keeps start_runtime t user w i v k = grind (
    arith,
    start_tenant-Uncommitted,
    start_tenant-keeps inv p c kek settings vault,
    require_member-state,
  )
  dispatch-keeps stop_runtime t user w i v k =
      grind (
        arith,
        stop_tenant-Uncommitted,
        stop_tenant-keeps inv p c kek settings,
        require_member-state,
      )
  dispatch-keeps pause_runtime t user w i v k = grind (
    arith,
    pause_tenant-Uncommitted,
    pause_tenant-keeps inv p c kek settings,
    require_member-state,
  )
  dispatch-keeps wake_runtime t user w i v k = grind (
    arith,
    wake_tenant-Uncommitted,
    wake_tenant-keeps inv p c kek settings vault,
    require_member-state,
  )
  dispatch-keeps (get_logs s n) t user w i v k = grind arith
  dispatch-keeps list_secrets t user w i v k = grind arith
  dispatch-keeps (set_secret n x ty y) t user w i v k =
      grind (arith, require_member-state, vault.stores)
  dispatch-keeps (delete_secret n) t user w i v k =
      grind (arith, require_member-state, delete_secret-keeps inv)
  dispatch-keeps (rotate_secret n x) t user w i v k =
      grind (arith, require_member-state, store_untyped-keeps)
