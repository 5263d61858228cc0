-- ===== src/Orchestrator/Environment.antt =====
-- `start_container` of src/octw/orchestrator/docker_orch.py: what a tenant's container is told.
use octw.Prelude.{
  Text, Option, none, some, ◌≡◌, refl, ap, ◌∙◌, [], ◌∷◌, Dict, lookup, last_of, lookup-update,
  lookup-insert, ◌==◌, text_eq, if◌then◌else◌, truthy, ◌&&◌,
}
use octw.Config.{Settings, get_provider_api_key}
use octw.Models.Tenant.{Tenant}
use octw.Orchestrator.Spec.{set_if, add_api_key, base_env, container_env, run_spec}

-- The value of a variable without secrets: the key of the provider for the provider's variable, and
-- otherwise one of the three fixed settings.
abbrev pub without_secrets : Settings → Option Text → Text → Option Text
without_secrets settings none v = lookup v base_env
without_secrets settings (some k) v =
    if truthy (some k) && (truthy (get_provider_api_key settings k) && k == v)
    then get_provider_api_key settings k
    else lookup v base_env

lookup-set_if :
    (k v : Text) (key : Option Text) (env : Dict Text)
    → lookup v (set_if k key env) ≡ (if truthy key && k == v then key else lookup v env)
lookup-set_if k v none env = refl
lookup-set_if k v (some []) env = refl
lookup-set_if k v (some (x ∷ s)) env = lookup-insert k v (x ∷ s) env

lookup-add_api_key :
    (settings : Settings) (o : Option Text) (v : Text)
    → lookup v (add_api_key settings o base_env) ≡ without_secrets settings o v
lookup-add_api_key settings none v = refl
lookup-add_api_key settings (some []) v = refl
lookup-add_api_key settings (some (c ∷ k)) v =
    lookup-set_if (c ∷ k) v (get_provider_api_key settings (c ∷ k)) base_env

-- Each variable of the tenant's container has the value of the last secret for it, over the
-- provider's key, over the fixed settings.
pub run_spec-environment :
    (settings : Settings) (tenant : Tenant) (provider_env_var : Option Text)
    (env_secrets : Dict Text) (v : Text)
    → lookup v (run_spec settings tenant provider_env_var env_secrets).environment
      ≡ last_of v env_secrets (without_secrets settings provider_env_var v)
unfolding run_spec container_env
run_spec-environment settings tenant o env_secrets v =
    lookup-update v env_secrets (add_api_key settings o base_env)
    ∙ ap (last_of v env_secrets) (lookup-add_api_key settings o v)
