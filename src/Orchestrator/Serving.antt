-- ===== src/Orchestrator/Serving.antt =====
-- What `start_container` of src/octw/orchestrator/docker_orch.py promises: the container whose id it
-- returns is the tenant's, and it runs.
use octw.Prelude.{Text, true, Option, none, some, Dict, ◌≡◌, refl, arith, inl, inr}
use octw.Exec.{Result, ok, err, Op, ◌>>=◌, continue, Result-cases, pure, except_not_found}
use octw.Config.{Settings}
use octw.Models.Tenant.{Tenant}
use octw.Platform.{
  Platform, Container, ContainerStatus, created, running, paused, restarting, removing, exited,
  dead,
}
use octw.Orchestrator.Names.{container_name}
use octw.Orchestrator.Dirs.{TenantDirs, create_tenant_dirs}
use octw.Orchestrator.Networks.{create_network}
use octw.Orchestrator.Spec.{run_spec}
use octw.Orchestrator.Laws.{DockerLaws}
use octw.Orchestrator.Containers.{get, reuse, run_new, id_or_run, start_container, status_running}

-- A container with this id is found, and it runs.
abbrev pub Serves : Text → Result Container → Type 0
Serves id (ok c) = (c.id ≡ id) × (status_running c.status ≡ true)
Serves id (err e) = ⊥

module _ {D : Type 0} (p : Platform D) (laws : DockerLaws p) where
  reuse-Serves :
      (s : ContainerStatus) (c : Container) (n id : Text) (d : D)
      → p.containers_get n d ≡ ok c
      → c.status ≡ s
      → (reuse p s c d).0 ≡ ok (some id)
      → Serves id (p.containers_get n (reuse p s c d).1)
  unfolding reuse
  reuse-Serves paused c n id d q e h =
      ground (arith, laws.gets_name {n = n} {d = d} {c = c} q, laws.unpauses c d)
  reuse-Serves running c n id d q e h = ground arith
  reuse-Serves exited c n id d q e h = absurd (ground arith)
  reuse-Serves created c n id d q e h = absurd (ground arith)
  reuse-Serves restarting c n id d q e h = absurd (ground arith)
  reuse-Serves removing c n id d q e h = absurd (ground arith)
  reuse-Serves dead c n id d q e h = absurd (ground arith)

  -- The attempt to make do with a container that is there.
  abbrev tried : Text → Op D (Option Text)
  tried n = except_not_found (do existing ← get p n; reuse p existing.status existing) (pure none)

  tried-Serves :
      (n id : Text) (d : D)
      → (tried n d).0 ≡ ok (some id)
      → Serves id (p.containers_get n (tried n d).1)
  tried-Serves n id d h = elim (Result-cases (p.containers_get n d)) [
    | inl (c, q) ↦ ground (arith, reuse-Serves c.status c n id d q refl)
    | inr (x, q) ↦ absurd (ground arith)
  ]

  module _ (settings : Settings) (tenant : Tenant) (env_var : Option Text) (env : Dict Text) where
    run_new-Serves :
        (id : Text) (d : D)
        → (run_new p settings tenant env_var env d).0 ≡ ok id
        → Serves id (
            p.containers_get
              (container_name tenant.tenant_id)
              (run_new p settings tenant env_var env d).1)
    unfolding run_new run_spec
    run_new-Serves id d h =
        let d1 = (create_network p tenant.tenant_id d).1 in
        elim (Result-cases (p.containers_run (run_spec settings tenant env_var env) d1).0) [
          | inl (c, q) ↦
              ground (arith, laws.runs (run_spec settings tenant env_var env) d1 {c = c} q)
          | inr (x, q) ↦ absurd (ground arith)
        ]

    module _ (id : Text) where
      after_reuse :
          (r : Result (Option Text)) (d : D)
          → ((i : Text)
              → r ≡ ok (some i)
              → Serves i (p.containers_get (container_name tenant.tenant_id) d))
          → (continue (id_or_run p settings tenant env_var env) r d).0 ≡ ok id
          → Serves id (
              p.containers_get
                (container_name tenant.tenant_id)
                (continue (id_or_run p settings tenant env_var env) r d).1)
      unfolding id_or_run
      after_reuse (err e) d s h = absurd (ground arith)
      after_reuse (ok none) d s h = run_new-Serves id d h
      after_reuse (ok (some i)) d s h = ground (arith, s i refl)

      after_dirs :
          (r : Result TenantDirs) (d : D)
          → let m =
              tried (container_name tenant.tenant_id) >>= id_or_run p settings tenant env_var env in
            (continue (λ dirs. m) r d).0 ≡ ok id
            → Serves id
                (p.containers_get (container_name tenant.tenant_id) (continue (λ dirs. m) r d).1)
      after_dirs (err e) d h = absurd (ground arith)
      after_dirs (ok dirs) d h =
          after_reuse (tried (container_name tenant.tenant_id) d).0
            (tried (container_name tenant.tenant_id) d).1
            (λ i. tried-Serves (container_name tenant.tenant_id) i d) h

    -- Under the Docker laws, when `start_container` returns an id, the container with the tenant's
    -- name has it and runs.
    pub start_container-Serves :
        (id : Text) (d : D)
        → (start_container p settings tenant env_var env d).0 ≡ ok id
        → Serves id (
            p.containers_get
              (container_name tenant.tenant_id)
              (start_container p settings tenant env_var env d).1)
    unfolding start_container
    start_container-Serves id d h =
        after_dirs id (create_tenant_dirs p settings tenant.tenant_id d).0
          (create_tenant_dirs p settings tenant.tenant_id d).1 h
