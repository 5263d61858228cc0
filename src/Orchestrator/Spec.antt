-- ===== src/Orchestrator/Spec.antt =====
-- src/octw/orchestrator/docker_orch.py: what a tenant's container is run with.
use octw.Prelude.{Text, codes, Option, none, some, List, [], ◌∷◌, ◌++◌, Dict, insert, update}
use octw.Config.{Settings, get_provider_api_key}
use octw.Models.Tenant.{Tenant, IsolationMode, standard, hardened}
use octw.Uuid.{uuid_text}
use octw.Platform.{Mount, RunSpec}
use octw.Orchestrator.Names.{
  gateway_port, canvas_port, container_state_dir, container_workspace_dir, container_name,
  network_name, init_name, image_ref,
}
use octw.Orchestrator.Dirs.{TenantDirs, dirs_of}

-- `if api_key: env[provider_env_var] = api_key`
abbrev pub set_if : Text → Option Text → Dict Text → Dict Text
set_if k none env = env
set_if k (some []) env = env
set_if k (some (c ∷ v)) env = insert k (c ∷ v) env

-- `if provider_env_var: …`
abbrev pub add_api_key : Settings → Option Text → Dict Text → Dict Text
add_api_key settings none env = env
add_api_key settings (some []) env = env
add_api_key settings (some (c ∷ k)) env = set_if (c ∷ k) (get_provider_api_key settings (c ∷ k)) env

abbrev pub base_env : Dict Text
base_env =
    (codes "OPENCLAW_GATEWAY_BIND", codes "lan")
    ∷ (codes "OPENCLAW_GATEWAY_PORT", gateway_port)
    ∷ (codes "OPENCLAW_CANVAS_PORT", canvas_port)
    ∷ []

-- The environment of the tenant's container: the secrets come last.
unfoldable pub container_env : Settings → Option Text → Dict Text → Dict Text
container_env settings provider_env_var env_secrets =
    update (add_api_key settings provider_env_var base_env) env_secrets

unfoldable pub init_env : Settings → Option Text → Option Text → Dict Text → Dict Text
init_env settings provider_env_var provider_model env_secrets =
    update
      (set_if (codes "OPENCLAW_DEFAULT_MODEL") provider_model
        (add_api_key settings provider_env_var []))
      env_secrets

abbrev pub mounts_of : TenantDirs → List Mount
mounts_of dirs =
    record { target = container_state_dir; source = dirs.state }
    ∷ record { target = container_workspace_dir; source = dirs.workspace }
    ∷ []

abbrev pub runtime_of : IsolationMode → Option Text
runtime_of standard = none
runtime_of hardened = some (codes "runsc")

unfoldable pub run_spec : Settings → Tenant → Option Text → Dict Text → RunSpec
unfolding container_name network_name image_ref container_env dirs_of
run_spec settings tenant provider_env_var env_secrets = record {
  image = image_ref settings tenant;
  name = container_name tenant.tenant_id;
  entrypoint = none;
  command = none;
  working_dir = none;
  environment = container_env settings provider_env_var env_secrets;
  mounts = mounts_of (dirs_of settings tenant.tenant_id);
  network = some (network_name tenant.tenant_id);
  runtime = runtime_of tenant.isolation_mode;
  security_opt = codes "no-new-privileges:true" ∷ [];
  cap_drop = codes "ALL" ∷ [];
  mem_limit = some tenant.resource_limits.mem_limit;
  cpu_quota = some tenant.resource_limits.cpu_quota;
  cpu_period = some tenant.resource_limits.cpu_period;
  pids_limit = some tenant.resource_limits.pids_limit;
  user = codes "1000:1000";
  labels =
      (codes "octw.tenant_id", uuid_text tenant.tenant_id)
      ∷ (codes "octw.tenant_slug", tenant.slug)
      ∷ [];
  restart_policy = some (codes "unless-stopped");
  healthcheck = some (record {
    test =
        codes "CMD"
        ∷ codes "curl"
        ∷ codes "-sf"
        ∷ (codes "http://localhost:" ++ (gateway_port ++ codes "/health"))
        ∷ [];
    interval = 30_000_000_000;
    timeout = 5_000_000_000;
    retries = 3;
    start_period = 10_000_000_000;
  });
}

abbrev pub onboard_cmd : List Text
onboard_cmd =
    codes "node"
    ∷ codes "openclaw.mjs"
    ∷ codes "onboard"
    ∷ codes "--non-interactive"
    ∷ codes "--mode"
    ∷ codes "local"
    ∷ codes "--flow"
    ∷ codes "quickstart"
    ∷ codes "--secret-input-mode"
    ∷ codes "ref"
    ∷ codes "--accept-risk"
    ∷ []

-- The one-shot container of the onboarding.
unfoldable pub init_spec : Settings → Tenant → Option Text → Option Text → Dict Text → RunSpec
unfolding init_name image_ref init_env dirs_of
init_spec settings tenant provider_env_var provider_model env_secrets = record {
  image = image_ref settings tenant;
  name = init_name tenant.tenant_id;
  entrypoint = some [];
  command = some onboard_cmd;
  working_dir = some (codes "/app");
  environment = init_env settings provider_env_var provider_model env_secrets;
  mounts = mounts_of (dirs_of settings tenant.tenant_id);
  network = none;
  runtime = none;
  security_opt = [];
  cap_drop = [];
  mem_limit = none;
  cpu_quota = none;
  cpu_period = none;
  pids_limit = none;
  user = codes "1000:1000";
  labels =
      (codes "octw.tenant_id", uuid_text tenant.tenant_id) ∷ (codes "octw.role", codes "init") ∷ [];
  restart_policy = none;
  healthcheck = none;
}
