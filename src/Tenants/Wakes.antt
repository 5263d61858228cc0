-- ===== src/Tenants/Wakes.antt =====
-- src/octw/orchestrator/tenant_service.py: after `wake_tenant` the tenant's container runs, whatever
-- state it was in.
use octw.Prelude.{Text, true, ◌≡◌, arith, inl, inr}
use octw.Exec.{Result, ok, err, continue, Result-cases}
use octw.Config.{Settings}
use octw.Models.Tenant.{Uuid, ContainerState}
use octw.Platform.{Platform, Container}
use octw.Orchestrator.Names.{container_name}
use octw.Orchestrator.Containers.{unpause_container, get_container_state, state_of, status_running}
use octw.Orchestrator.Laws.{DockerLaws}
use octw.Vault.Envelope.{Crypto}
use octw.World.{World}
use octw.Tenants.Rows.{update_row, emit_audit}
use octw.Tenants.Service.{wake_tenant, wake_from, start_tenant, touch_activity}
use octw.Tenants.Runs.{start_tenant-runs}

-- A container is found, and it runs.
abbrev pub Runs : Result Container → Type 0
Runs (ok c) = status_running c.status ≡ true
Runs (err e) = ⊥

module _ {D : Type 0} (p : Platform D) (laws : DockerLaws p) where
  pub running-Runs :
      (t : Uuid) (d : D)
      → get_container_state p t d ≡ ok ContainerState.running
      → Runs (p.containers_get (container_name t) d)
  unfolding get_container_state state_of
  running-Runs t d h = elim (Result-cases (p.containers_get (container_name t) d)) [
    | inl (c, q) ↦ ground arith
    | inr (x, q) ↦ absurd (ground arith)
  ]

  unpause-Runs :
      (t : Uuid) (d : D)
      → get_container_state p t d ≡ ok ContainerState.paused
      → (unpause_container p t d).0 ≡ ok tt
      → Runs (p.containers_get (container_name t) (unpause_container p t d).1)
  unfolding get_container_state state_of unpause_container
  unpause-Runs t d h r = elim (Result-cases (p.containers_get (container_name t) d)) [
    | inl (c, q) ↦ ground (
      arith,
      laws.gets_name {n = container_name t} {d = d} {c = c} q,
      laws.unpauses c d,
      laws.unpause_finds {n = container_name t} {d = d} {c = c} q,
    )
    | inr (x, q) ↦ absurd (ground arith)
  ]

  module _ (c : Crypto) (kek : Text) (settings : Settings) (t : Uuid) (w : World D) where
    started-Runs :
        (id : Text)
        → (start_tenant p c kek settings t w).0 ≡ ok id
        → Runs (p.containers_get (container_name t) (start_tenant p c kek settings t w).1.machine)
    started-Runs id h =
        elim (Result-cases
          (p.containers_get (container_name t) (start_tenant p c kek settings t w).1.machine)) [
            | inl (x, q) ↦ ground (arith, start_tenant-runs p laws c kek settings t w id h)
            | inr (x, q) ↦ absurd (ground (arith, start_tenant-runs p laws c kek settings t w id h))
          ]

    wake_from-Runs :
        (s : ContainerState) (id : Text)
        → get_container_state p t w.machine ≡ ok s
        → (wake_from p c kek settings t s w).0 ≡ ok id
        → Runs (p.containers_get (container_name t) (wake_from p c kek settings t s w).1.machine)
    unfolding wake_from touch_activity update_row emit_audit
    wake_from-Runs ContainerState.running id q h = running-Runs t w.machine q
    wake_from-Runs ContainerState.paused id q h =
        elim (Result-cases (unpause_container p t w.machine).0) [
          | inl (u, r) ↦ rw (r, continue) (unpause-Runs t w.machine q r)
          | inr (x, r) ↦ absurd (ground arith)
        ]
    wake_from-Runs ContainerState.stopped id q h = started-Runs id h
    wake_from-Runs ContainerState.error id q h = started-Runs id h
    wake_from-Runs ContainerState.not_found id q h = started-Runs id h

    -- Under the Docker laws, after `wake_tenant` returns, whatever state the tenant's container
    -- was in, it is there and runs.
    pub wake_tenant-Runs :
        (id : Text)
        → (wake_tenant p c kek settings t w).0 ≡ ok id
        → Runs (p.containers_get (container_name t) (wake_tenant p c kek settings t w).1.machine)
    unfolding wake_tenant
    wake_tenant-Runs id h = elim (Result-cases (get_container_state p t w.machine)) [
      | inl (s, q) ↦ rw (q, continue) (wake_from-Runs s id q (rw (q, continue) at h))
      | inr (x, q) ↦ absurd (ground arith)
    ]
