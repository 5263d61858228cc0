-- ===== src/Orchestrator/Lifecycle.antt =====
-- What the methods of `DockerOrchestrator` promise of a tenant's container when they return.
use octw.Prelude.{false, ◌≡◌, arith, inl, inr, Bool-cases}
use octw.Exec.{Result, ok, err, not_found, Result-cases}
use octw.Models.Tenant.{Uuid}
use octw.Platform.{Platform, Container}
use octw.Orchestrator.Names.{container_name}
use octw.Orchestrator.Laws.{DockerLaws}
use octw.Orchestrator.Containers.{stop_container, pause_container, status_running}

abbrev NotRunning : Result Container → Type 0
NotRunning (ok c) = status_running c.status ≡ false
NotRunning (err e) = e ≡ not_found

module _ {D : Type 0} (p : Platform D) (laws : DockerLaws p) where
  -- Under the Docker laws, after `stop_container` returns the tenant has no container.
  pub stop_container-absent :
      (t : Uuid) (d : D)
      → (stop_container p t d).0 ≡ ok tt
      → p.containers_get (container_name t) (stop_container p t d).1 ≡ err not_found
  unfolding stop_container
  stop_container-absent t d h = elim (Result-cases (p.containers_get (container_name t) d)) [
    | inl (c, q) ↦
        let d1 = (p.container_stop c 30 d).1 in
        ground (
          arith,
          laws.gets_name {n = container_name t} {d = d} {c = c} q,
          laws.stop_misses c 30 d,
          laws.removes c false d1,
          laws.remove_misses c false d1,
        )
    | inr (x, q) ↦ ground arith
  ]

  -- Under the Docker laws, after `pause_container` returns the tenant has no container that runs.
  pause_container-pauses :
      (t : Uuid) (d : D)
      → (pause_container p t d).0 ≡ ok tt
      → NotRunning (p.containers_get (container_name t) (pause_container p t d).1)
  unfolding pause_container
  pause_container-pauses t d h = elim (Result-cases (p.containers_get (container_name t) d)) [
    | inl (c, q) ↦ elim (Bool-cases (status_running c.status)) [
      | inl r ↦ ground (
        arith,
        laws.gets_name {n = container_name t} {d = d} {c = c} q,
        laws.pauses c d,
        laws.pause_misses c d,
      )
      | inr r ↦ ground arith
    ]
    | inr (x, q) ↦ ground arith
  ]
