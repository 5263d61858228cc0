-- ===== src/Orchestrator/Containers.antt =====
-- src/octw/orchestrator/docker_orch.py: the life of a tenant's container.
use octw.Prelude.{
  ℕ, zero, suc, Text, codes, Bool, true, false, Option, none, some, [], ◌∷◌, Dict, lookup,
  if◌then◌else◌,
}
use octw.Exec.{Result, ok, err, ⊤, Op, pure, lift, gets, ◌>>=◌, ◌>>◌, except_not_found, not_found}
use octw.Config.{Settings}
use octw.Models.Tenant.{Uuid, Tenant, ContainerState}
use octw.Platform.{Platform, Container, ContainerStatus}
use octw.Orchestrator.Names.{container_name, network_name}
use octw.Orchestrator.Dirs.{create_tenant_dirs, remove_tenant_dirs}
use octw.Orchestrator.Networks.{create_network, remove_network}
use octw.Orchestrator.Spec.{run_spec}

-- `status == "running"`
abbrev pub status_running : ContainerStatus → Bool
status_running ContainerStatus.running = true
status_running _ = false

-- `status == "paused"`
abbrev pub status_paused : ContainerStatus → Bool
status_paused ContainerStatus.paused = true
status_paused _ = false

unfoldable pub state_of : ContainerStatus → ContainerState
state_of ContainerStatus.running = ContainerState.running
state_of ContainerStatus.paused = ContainerState.paused
state_of ContainerStatus.exited = ContainerState.stopped
state_of ContainerStatus.created = ContainerState.stopped
state_of _ = ContainerState.error

-- The `except NotFound` of a query.
abbrev pub or_not_found : {A B : Type 0} → (A → B) → B → Result A → Result B
or_not_found f d (ok a) = ok (f a)
or_not_found f d (err not_found) = ok d
or_not_found f d (err e) = err e

-- `if net_info: return net_info.get("IPAddress")`
abbrev pub address_of : Option (Dict Text) → Option Text
address_of none = none
address_of (some []) = none
address_of (some (e ∷ info)) = lookup (codes "IPAddress") (e ∷ info)

module _ {D : Type 0} (p : Platform D) where
  abbrev pub get : Text → Op D Container
  get name = do found ← gets (p.containers_get name); lift found

  -- What becomes of a container that is there: its id, if it serves, or `none` once it is gone.
  unfoldable pub reuse : ContainerStatus → Container → Op D (Option Text)
  reuse ContainerStatus.paused existing = do p.container_unpause existing; pure (some existing.id)
  reuse ContainerStatus.exited existing = do p.container_remove existing false; pure none
  reuse ContainerStatus.running existing = pure (some existing.id)
  reuse _ existing = do p.container_remove existing true; pure none

  module _ (settings : Settings) where
    unfoldable pub run_new : Tenant → Option Text → Dict Text → Op D Text
    run_new tenant provider_env_var env_secrets = do
      create_network p tenant.tenant_id
      container ← p.containers_run (run_spec settings tenant provider_env_var env_secrets)
      pure container.id

    unfoldable pub id_or_run : Tenant → Option Text → Dict Text → Option Text → Op D Text
    id_or_run tenant provider_env_var env_secrets (some id) = pure id
    id_or_run tenant provider_env_var env_secrets none = run_new tenant provider_env_var env_secrets

    unfoldable pub start_container : Tenant → Option Text → Dict Text → Op D Text
    start_container tenant provider_env_var env_secrets = do
      create_tenant_dirs p settings tenant.tenant_id
      reused ←
          except_not_found
            (do existing ← get (container_name tenant.tenant_id); reuse existing.status existing)
            (pure none)
      id_or_run tenant provider_env_var env_secrets reused

  unfoldable pub stop_container : Uuid → Op D ⊤
  stop_container tenant_id =
      except_not_found
        (do
          container ← get (container_name tenant_id)
          p.container_stop container 30
          p.container_remove container false)
        (pure tt)

  unfoldable pub pause_container : Uuid → Op D ⊤
  pause_container tenant_id =
      except_not_found
        (do
          container ← get (container_name tenant_id)
          if status_running container.status then p.container_pause container else pure tt)
        (pure tt)

  unfoldable pub unpause_container : Uuid → Op D ⊤
  unpause_container tenant_id =
      except_not_found
        (do
          container ← get (container_name tenant_id)
          if status_paused container.status then p.container_unpause container else pure tt)
        (pure tt)

  unfoldable pub get_container_state : Uuid → D → Result ContainerState
  unfolding state_of
  get_container_state tenant_id d =
      or_not_found (λ c. state_of c.status) ContainerState.not_found
        (p.containers_get (container_name tenant_id) d)

  -- `since` is passed on unless it is missing or 0.
  abbrev pub since_arg : Option ℕ → Option ℕ
  since_arg none = none
  since_arg (some zero) = none
  since_arg (some (suc n)) = some (suc n)

  unfoldable pub get_container_logs : Uuid → Option ℕ → ℕ → Op D Text
  get_container_logs tenant_id since tail =
      except_not_found
        (do
          container ← get (container_name tenant_id)
          text ← gets (p.container_logs container (since_arg since) (some tail))
          lift text)
        (pure [])

  unfoldable pub get_container_ip : Uuid → D → Result (Option Text)
  get_container_ip tenant_id d =
      or_not_found (λ c. address_of (lookup (network_name tenant_id) c.networks)) none
        (p.containers_get (container_name tenant_id) d)

  unfoldable pub cleanup_tenant : Settings → Uuid → Op D ⊤
  cleanup_tenant settings tenant_id = do
    stop_container tenant_id
    remove_network p tenant_id
    remove_tenant_dirs p settings tenant_id
