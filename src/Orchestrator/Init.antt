-- ===== src/Orchestrator/Init.antt =====
-- src/octw/orchestrator/docker_orch.py: `run_init_job`, the onboarding of a tenant.
use octw.Prelude.{
  ℕ, zero, Text, codes, Bool, true, false, Option, none, some, Dict, contains, ◌&&◌, not,
}
use octw.Exec.{Op, pure, lift, gets, ◌>>=◌, ◌>>◌, except_not_found, raise_if, runtime_error}
use octw.Config.{Settings}
use octw.Models.Tenant.{Tenant}
use octw.Platform.{Platform}
use octw.Orchestrator.Names.{init_name}
use octw.Orchestrator.Dirs.{create_tenant_dirs}
use octw.Orchestrator.Spec.{init_spec}
use octw.Orchestrator.Containers.{get}

-- `exit_code != 0`; no status code stands for -1.
abbrev pub failed : Option ℕ → Bool
failed (some zero) = false
failed _ = true

-- The onboarding has written its configuration, whatever it exits with.
unfoldable pub config_created : Text → Bool
config_created output = contains (codes "Updated") output && contains (codes "openclaw.json") output

module _ {D : Type 0} (p : Platform D) (settings : Settings) where
  unfoldable pub run_init_job : Tenant → Option Text → Option Text → Dict Text → Op D Text
  unfolding config_created
  run_init_job tenant provider_env_var provider_model env_secrets = do
    create_tenant_dirs p settings tenant.tenant_id
    except_not_found (do old ← get p (init_name tenant.tenant_id); p.container_remove old true)
        (pure tt)
    container ←
        p.containers_run (init_spec settings tenant provider_env_var provider_model env_secrets)
    exit_code ← p.container_wait container 120
    logs ← gets (p.container_logs container none none)
    output ← lift logs
    p.container_remove container false
    raise_if (failed exit_code && not (config_created output)) runtime_error
    pure output
