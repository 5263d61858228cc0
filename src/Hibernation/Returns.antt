-- ===== src/Hibernation/Returns.antt =====
-- A pass of src/octw/orchestrator/hibernation.py goes through if the daemon raises nothing but
-- `NotFound`: a container that is gone does not stop the scheduler.
use octw.Prelude.{
  ℕ, ◌-◌, Text, Bool, List, [], ◌∷◌, ◌≡◌, refl, arith, ltb, if◌then◌else◌, Bool-cases, inl, inr,
}
use octw.Exec.{Result, ok, err, not_found, Op, continue, Result-cases}
use octw.Config.{Settings}
use octw.Models.Tenant.{Uuid, Time, is_running, is_paused}
use octw.Platform.{Platform, Container}
use octw.Orchestrator.Containers.{stop_container, pause_container}
use octw.Orchestrator.Names.{container_name}
use octw.Db.{TenantRow}
use octw.World.{World}
use octw.Tenants.Rows.{set_stopped, set_paused}
use octw.Hibernation.Scheduler.{
  last_active, sweep, check_running, check_paused, check_rows, check_idle_tenants,
}

-- It has returned, or raised `NotFound`.
abbrev pub Benign : {A : Type 0} → Result A → Type 0
Benign (ok a) = Unit
Benign (err not_found) = Unit
Benign (err e) = ⊥

pub record IsCalm {D : Type 0} (p : Platform D) : Type 0 where
  pub gets : (n : Text) (d : D) → Benign (p.containers_get n d)
  pub stops : (c : Container) (k : ℕ) (d : D) → Benign (p.container_stop c k d).0
  pub removes : (c : Container) (f : Bool) (d : D) → Benign (p.container_remove c f d).0
  pub pauses : (c : Container) (d : D) → Benign (p.container_pause c d).0

module _ {D : Type 0} (p : Platform D) (calm : IsCalm p) where
  stop_container-returns : (t : Uuid) (d : D) → (stop_container p t d).0 ≡ ok tt
  unfolding stop_container
  stop_container-returns t d = grind (arith, calm.gets, calm.stops, calm.removes)

  pause_container-returns : (t : Uuid) (d : D) → (pause_container p t d).0 ≡ ok tt
  unfolding pause_container
  pause_container-returns t d = elim (Result-cases (p.containers_get (container_name t) d)) [
    | inl (c, q) ↦ ground (arith, calm.pauses c d)
    | inr (x, q) ↦ ground (arith, calm.gets (container_name t) d)
  ]

  sweep-returns :
      (selected : TenantRow → Bool) (act : TenantRow → Op D TenantRow)
      → ((r : TenantRow) (d : D) → (r' : TenantRow) × ((act r d).0 ≡ ok r'))
      → (rows : List TenantRow) (d : D)
      → (rows' : List TenantRow) × ((sweep p selected act rows d).0 ≡ ok rows')
  unfolding sweep
  sweep-returns selected act acts [] d = ([], refl)
  sweep-returns selected act acts (r ∷ rows) d = elim (Bool-cases (selected r)) [
    | inl e ↦
        let (r', q) = acts r d in
        let (rest, z) = sweep-returns selected act acts rows (act r d).1 in
        (r' ∷ rest, rw (e, q, continue, z))
    | inr e ↦
        let (rest, z) = sweep-returns selected act acts rows d in (r ∷ rest, rw (e, continue, z))
  ]

  module _ (cfg : Settings) (now : Time) where
    abbrev settle_running : TenantRow → TenantRow
    settle_running r =
        if ltb (last_active r) (now - cfg.idle_stop_seconds)
        then set_stopped now r
        else if ltb (last_active r) (now - cfg.idle_pause_seconds)
        then set_paused now r
        else r

    abbrev settle_paused : TenantRow → TenantRow
    settle_paused r =
        if ltb (last_active r) (now - cfg.idle_stop_seconds) then set_stopped now r else r

    check_running-returns :
        (r : TenantRow) (d : D) → (r' : TenantRow) × ((check_running p cfg now r d).0 ≡ ok r')
    unfolding check_running
    check_running-returns r d = (
      settle_running r,
      ground (arith, stop_container-returns r.tenant_id d, pause_container-returns r.tenant_id d),
    )

    check_paused-returns :
        (r : TenantRow) (d : D) → (r' : TenantRow) × ((check_paused p cfg now r d).0 ≡ ok r')
    unfolding check_paused
    check_paused-returns r d =
        (settle_paused r, ground (arith, stop_container-returns r.tenant_id d))

  -- Where the daemon raises nothing but `NotFound`, every scheduler pass returns.
  pub check_idle_tenants-returns :
      (cfg : Settings) (w : World D) → (check_idle_tenants p cfg w).0 ≡ ok tt
  unfolding check_idle_tenants check_rows
  check_idle_tenants-returns cfg w =
      let act = check_running p cfg w.session.now in
      let (mid, q) =
        sweep-returns (λ r. is_running r.status) act (check_running-returns cfg w.session.now)
          w.committed.tenants w.machine in
      let (rows, z) =
        sweep-returns (λ r. is_paused r.status) (check_paused p cfg w.session.now)
          (check_paused-returns cfg w.session.now) mid
          (sweep p (λ r. is_running r.status) act w.committed.tenants w.machine).1 in
      rw (q, continue, z)
