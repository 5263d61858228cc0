-- ===== src/Cli/Commands.antt =====
-- The commands of src/octw/cli/main.py. What a command prints is kept as the value that it is made
-- from; the tables exist already.
use octw.Prelude.{
  ℕ, Text, codes, Bool, not, ◌&&◌, ◌||◌, Option, none, some, List, [], ◌∷◌, ◌==◌, text_eq, leb, ltb,
  length, keep, if◌then◌else◌,
}
use octw.Exec.{Result, ok, err, value_error, abort, ⊤, Op, pure, lift, gets, raise_if, ◌>>=◌, ◌>>◌}
use octw.Config.{Settings}
use octw.Models.Tenant.{
  Tenant, TenantCreate, TenantPlan, IsolationMode, TenantRuntimeInfo, ContainerState,
  tenant_status_value,
}
use octw.Models.Secret.{SecretMetadata, env}
use octw.Json.{Value, null, string, object, end, field}
use octw.Platform.{Platform}
use octw.Uuid.{uuid_text}
use octw.Orchestrator.Containers.{get_container_state}
use octw.Vault.Envelope.{Crypto}
use octw.Vault.Kek.{load_kek}
use octw.Vault.Service.{store_secret, list_secret_metadata}
use octw.World.{World, in_session, commit}
use octw.Tenants.Service.{
  create_tenant, list_tenants, start_tenant, stop_tenant, pause_tenant, delete_tenant,
  get_runtime_info,
}
use octw.Api.Auth.{parse_uuid}
use octw.Edge.Slugs.{slug_pattern}

-- `TenantPlan(plan)`
unfoldable pub plan_of : Text → Result TenantPlan
plan_of plan =
    if plan == codes "standard"
    then ok TenantPlan.standard
    else if plan == codes "premium"
    then ok TenantPlan.premium
    else err value_error

-- The characters of a text: the bytes that begin one.
abbrev pub char_count : Text → ℕ
char_count s = length (keep (λ c. ltb c 128 || leb 192 c) s)

-- `TenantCreate(…)`, with the checks of its fields.
unfoldable pub tenant_request :
    Text → Text → TenantPlan → IsolationMode → Bool → Result TenantCreate
tenant_request slug name plan isolation trusted =
    if slug_pattern slug && (leb 1 (char_count name) && leb (char_count name) 200)
    then ok (record {
      slug = slug;
      name = name;
      plan = plan;
      isolation_mode = isolation;
      resource_limits = none;
      trusted_proxy_auth = trusted;
    })
    else err value_error

abbrev pub string_or_null : Option Text → Value
string_or_null none = null
string_or_null (some s) = string s

-- What `tenant create` prints.
unfoldable pub created_json : Tenant → Value
created_json t = object (
    field (codes "tenantId") (string (uuid_text t.tenant_id)) (
      field (codes "slug") (string t.slug) (
        field (codes "status") (string (tenant_status_value t.status))
          (field (codes "networkId") (string_or_null t.network_id) end))))

module _ {D : Type 0} (p : Platform D) (c : Crypto) (settings : Settings) where
  -- `EnvelopeVault()`, with the variable `OCTW_KEK`, before the rest.
  abbrev pub with_vault : {A : Type 0} → Option Text → (Text → Op (World D) A) → Op (World D) A
  with_vault kek_env command = do
    loaded ← gets (λ w. load_kek p settings kek_env w.machine)
    kek ← lift loaded
    command kek

  module _ (kek_env : Option Text) where
    unfoldable pub tenant_create : Text → Text → Text → IsolationMode → Bool → Op (World D) Value
    tenant_create slug name plan isolation no_trusted_proxy = with_vault kek_env λ kek. do
      chosen ← lift (plan_of plan)
      req ← lift (tenant_request slug name chosen isolation (not no_trusted_proxy))
      tenant ← create_tenant p c kek settings req none
      commit
      pure (created_json tenant)

    -- The lines of `tenant list`; a state that cannot be read ends them.
    unfoldable pub tenant_lines : List Tenant → Op (World D) (List (Tenant × ContainerState))
    tenant_lines [] = pure []
    tenant_lines (t ∷ ts) = do
      found ← gets (λ w. get_container_state p t.tenant_id w.machine)
      state ← lift found
      rest ← tenant_lines ts
      pure ((t, state) ∷ rest)

    unfoldable pub tenant_list : Op (World D) (List (Tenant × ContainerState))
    tenant_list =
        with_vault kek_env
          λ kek. do tenants ← gets (λ w. list_tenants none w.session); tenant_lines tenants

    unfoldable pub tenant_start : Text → Op (World D) Text
    tenant_start tenant_id = with_vault kek_env λ kek. do
      tid ← lift (parse_uuid tenant_id)
      cid ← start_tenant p c kek settings tid
      commit
      pure cid

    unfoldable pub tenant_stop : Text → Op (World D) ⊤
    tenant_stop tenant_id =
        with_vault kek_env
          λ kek. do tid ← lift (parse_uuid tenant_id); stop_tenant p c kek settings tid; commit

    unfoldable pub tenant_pause : Text → Op (World D) ⊤
    tenant_pause tenant_id =
        with_vault kek_env
          λ kek. do tid ← lift (parse_uuid tenant_id); pause_tenant p c kek settings tid; commit

    unfoldable pub tenant_status : Text → Op (World D) TenantRuntimeInfo
    tenant_status tenant_id =
        with_vault kek_env
          λ kek. do tid ← lift (parse_uuid tenant_id); get_runtime_info p c kek settings tid

    -- `confirmed` is the flag `--yes`, or the answer to the question.
    unfoldable pub tenant_delete : Text → Bool → Op (World D) ⊤
    tenant_delete tenant_id confirmed = do
      raise_if (not confirmed) abort
      with_vault kek_env λ kek. do
        tid ← lift (parse_uuid tenant_id)
        delete_tenant p c kek settings tid none
        commit

    unfoldable pub secret_set : Text → Text → Text → Option Text → Op (World D) ⊤
    secret_set tenant_id name value env_var = with_vault kek_env λ kek. do
      tid ← lift (parse_uuid tenant_id)
      in_session (store_secret c kek tid name value env env_var)
      commit

    unfoldable pub secret_list : Text → Op (World D) (List SecretMetadata)
    secret_list tenant_id =
        with_vault kek_env
          λ kek. do tid ← lift (parse_uuid tenant_id); in_session (list_secret_metadata tid)
