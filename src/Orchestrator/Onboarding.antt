-- ===== src/Orchestrator/Onboarding.antt =====
-- What `run_init_job` of src/octw/orchestrator/docker_orch.py leaves.
use octw.Prelude.{Text, true, false, Option, none, Dict, ◌≡◌, arith, subst, ◌&&◌, not, inl, inr}
use octw.Exec.{
  ok, err, not_found, runtime_error, Op, ⊤, ◌>>=◌, ◌>>◌, continue, Result-cases, pure, lift, gets,
  raise_if, except_not_found,
}
use octw.Config.{Settings}
use octw.Models.Tenant.{Tenant}
use octw.Platform.{Platform, Container, running}
use octw.Orchestrator.Names.{init_name}
use octw.Orchestrator.Dirs.{create_tenant_dirs}
use octw.Orchestrator.Spec.{init_spec}
use octw.Orchestrator.Laws.{DockerLaws}
use octw.Orchestrator.Containers.{get}
use octw.Orchestrator.Init.{failed, config_created, run_init_job}

module _ {D : Type 0} (p : Platform D) (laws : DockerLaws p) where
  -- `run_init_job` from the wait for its container on.
  abbrev finish : Container → Op D Text
  finish container = do
    exit_code ← p.container_wait container 120
    logs ← gets (p.container_logs container none none)
    output ← lift logs
    p.container_remove container false
    raise_if (failed exit_code && not (config_created output)) runtime_error
    pure output

  finish-absent :
      (c : Container) (d : D) (output : Text)
      → (finish c d).0 ≡ ok output
      → p.containers_get c.name (finish c d).1 ≡ err not_found
  finish-absent c d output h = elim (Result-cases (p.container_wait c 120 d).0) [
    | inl (code, q) ↦
        let d1 = (p.container_wait c 120 d).1 in
        elim (Result-cases (p.container_logs c none none d1)) [
          | inl (logs, z) ↦ ground (arith, laws.removes c false d1)
          | inr (x, z) ↦ absurd (ground arith)
        ]
    | inr (x, q) ↦ absurd (ground arith)
  ]

  module _ (settings : Settings) (tenant : Tenant) (env_var model : Option Text)
      (env : Dict Text) where
    abbrev launch : Op D Text
    launch = do
      container ← p.containers_run (init_spec settings tenant env_var model env)
      finish container

    launch-absent :
        (d : D) (output : Text)
        → (launch d).0 ≡ ok output
        → p.containers_get (init_name tenant.tenant_id) (launch d).1 ≡ err not_found
    unfolding init_spec
    launch-absent d output h =
        elim (Result-cases (p.containers_run (init_spec settings tenant env_var model env) d).0) [
          | inl (c, q) ↦
              let d1 = (p.containers_run (init_spec settings tenant env_var model env) d).1 in
              let name : c.name ≡ init_name tenant.tenant_id =
                laws.gets_name {n = init_name tenant.tenant_id} {d = d1}
                  {c = record c { status = running }}
                  (laws.runs (init_spec settings tenant env_var model env) d {c = c} q) in
              rw (q, continue)
                (subst (λ n. p.containers_get n (finish c d1).1 ≡ err not_found) name
                  (finish-absent c d1 output (rw (q, continue) at h)))
          | inr (x, q) ↦ absurd (ground arith)
        ]

    abbrev discard : Op D ⊤
    discard =
        except_not_found (do old ← get p (init_name tenant.tenant_id); p.container_remove old true)
          (pure tt)

    -- Under the Docker laws, after `run_init_job` returns the container of the onboarding is gone.
    run_init_job-absent :
        (d : D) (output : Text)
        → (run_init_job p settings tenant env_var model env d).0 ≡ ok output
        → p.containers_get
            (init_name tenant.tenant_id)
            (run_init_job p settings tenant env_var model env d).1
          ≡ err not_found
    unfolding run_init_job
    run_init_job-absent d output h =
        elim (Result-cases (create_tenant_dirs p settings tenant.tenant_id d).0) [
          | inl (dirs, q) ↦
              let d1 = (create_tenant_dirs p settings tenant.tenant_id d).1 in
              elim (Result-cases (discard d1).0) [
                | inl (done, z) ↦
                    rw (q, continue, z)
                      (launch-absent (discard d1).1 output (rw (q, continue, z) at h))
                | inr (x, z) ↦ absurd (ground arith)
              ]
          | inr (x, q) ↦ absurd (ground arith)
        ]
