-- ===== src/Tenants/Machine.antt =====
-- The methods of src/octw/orchestrator/tenant_service.py keep each invariant of the machine that the
-- calls for the tenant's own container keep.
use octw.Prelude.{Text, Bool, true, Option, none, some, inl, inr, Option-cases, ◌≡◌, arith}
use octw.Exec.{Op}
use octw.Config.{Settings}
use octw.Models.Tenant.{Uuid, ContainerState}
use octw.Platform.{Platform}
use octw.Db.{TenantRow}
use octw.Vault.Envelope.{Crypto}
use octw.World.{World}
use octw.Orchestrator.Names.{container_name}
use octw.Orchestrator.Keeps.{
  MachineInvariant, start_container-keeps, stop_container-keeps, pause_container-keeps,
  unpause_container-keeps, cleanup_tenant-keeps,
}
use octw.Tenants.Service.{
  delete_found, delete_tenant, start_tenant, stop_tenant, pause_tenant, touch_activity, wake_from,
  wake_tenant, get_runtime_info, get_tenant,
}
use octw.Tenants.Runs.{get_tenant-id}

module _ {D : Type 0} (p : Platform D) {names : Text → Bool} {Q : D → Type 0}
    (inv : MachineInvariant p names Q) (c : Crypto) (kek : Text) (settings : Settings) where
  abbrev pub Kept : {A : Type 0} → Op (World D) A → Type 0
  Kept m = (w : World D) → Q w.machine → Q (m w).1.machine

  module _ (t : Uuid) (i : names (container_name t) ≡ true) where
    pub start_tenant-keeps_machine : Kept (start_tenant p c kek settings t)
    unfolding start_tenant
    start_tenant-keeps_machine w q = elim (Option-cases (get_tenant t w.session)) [
      | inl missing ↦ ground arith
      | inr (tenant, e) ↦
          let own : names (container_name tenant.tenant_id) ≡ true =
            rw (get_tenant-id t w.session tenant e) i in
          grind (arith, start_container-keeps p inv settings tenant)
    ]

    pub stop_tenant-keeps_machine : Kept (stop_tenant p c kek settings t)
    unfolding stop_tenant
    stop_tenant-keeps_machine w q = grind (arith, stop_container-keeps p inv t i)

    pub pause_tenant-keeps_machine : Kept (pause_tenant p c kek settings t)
    unfolding pause_tenant
    pause_tenant-keeps_machine w q = grind (arith, pause_container-keeps p inv t i)

    delete_found-keeps_machine :
        (u : Option Uuid) (o : Option TenantRow) → Kept (delete_found p c kek settings t u o)
    unfolding delete_found
    delete_found-keeps_machine u none w q = q
    delete_found-keeps_machine u (some r) w q = grind (arith, cleanup_tenant-keeps p inv t i)

    pub delete_tenant-keeps_machine : (u : Option Uuid) → Kept (delete_tenant p c kek settings t u)
    unfolding delete_tenant
    delete_tenant-keeps_machine u w q = delete_found-keeps_machine u _ w q

    wake_from-keeps_machine : (s : ContainerState) → Kept (wake_from p c kek settings t s)
    unfolding wake_from touch_activity
    wake_from-keeps_machine ContainerState.running w q = grind arith
    wake_from-keeps_machine ContainerState.paused w q =
        grind (arith, unpause_container-keeps p inv t i)
    wake_from-keeps_machine _ w q = start_tenant-keeps_machine w q

    pub wake_tenant-keeps_machine : Kept (wake_tenant p c kek settings t)
    unfolding wake_tenant
    wake_tenant-keeps_machine w q = grind (arith, wake_from-keeps_machine)

  pub get_runtime_info-keeps_machine : (t : Uuid) → Kept (get_runtime_info p c kek settings t)
  unfolding get_runtime_info
  get_runtime_info-keeps_machine t w q = grind arith
