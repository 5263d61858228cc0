-- ===== src/Api/ProvisionRouter.antt =====
-- src/octw/api/routers/provision_router.py: a tenant is made, onboarded and started in one request.
use octw.Prelude.{
  Text, codes, Bool, true, Option, none, some, List, [], ◌∷◌, ◌++◌, map, Dict, is_some, nat_beq,
}
use octw.Exec.{Result, ok, err, http, runtime_error, ⊤, Op, pure, lift, gets, ◌>>=◌, ◌>>◌}
use octw.Config.{Settings, get_provider_api_key}
use octw.Models.Tenant.{Uuid, Time, Tenant, TenantCreate, TenantPlan, IsolationMode}
use octw.Models.Provider.{
  ProviderSpec, zai, moonshot, minimax, provider_key_value, providers, get_provider,
}
use octw.Models.Secret.{env}
use octw.Platform.{Platform}
use octw.Uuid.{uuid_text}
use octw.Uuid.Parse.{strip_right}
use octw.Orchestrator.Init.{run_init_job}
use octw.Orchestrator.Configure.{configure_tenant}
use octw.Db.{TenantRow}
use octw.Vault.Envelope.{Crypto}
use octw.Vault.Service.{store_secret, get_decrypted_secrets}
use octw.World.{World, in_session, in_machine, commit}
use octw.Tenants.Rows.{update_row}
use octw.Tenants.Service.{create_tenant, start_tenant, get_tenant_by_slug}
use octw.Api.Guard.{TokenPayload}

pub record ProvisionRequest : Type 0 where
  pub slug : Text
  pub name : Text
  pub provider : Text
  pub secrets : Option (Dict Text)

pub record ProvisionResponse : Type 0 where
  pub tenant_id : Text
  pub slug : Text
  pub status : Text
  pub provider : Text
  pub model : Text
  pub url : Text

-- An entry of the answer of `list_providers`.
pub record ProviderInfo : Type 0 where
  pub key : Text
  pub display_name : Text
  pub model : Text
  pub configured : Bool

unfoldable pub list_providers : Settings → List ProviderInfo
list_providers settings =
    map
      (λ k. record {
        key = provider_key_value k;
        display_name = (providers k).display_name;
        model = (providers k).model_id;
        configured = is_some (get_provider_api_key settings (providers k).env_var);
      })
      (zai ∷ moonshot ∷ minimax ∷ [])

-- `except ValueError`
abbrev pub spec_or_400 : Option ProviderSpec → Result ProviderSpec
spec_or_400 none = err (http 400)
spec_or_400 (some spec) = ok spec

-- `if not api_key: raise`
abbrev pub key_or_400 : Option Text → Result ⊤
key_or_400 none = err (http 400)
key_or_400 (some []) = err (http 400)
key_or_400 (some (c ∷ s)) = ok tt

-- `if existing: raise`
abbrev pub free_or_409 : Option Tenant → Result ⊤
free_or_409 none = ok tt
free_or_409 (some tenant) = err (http 409)

abbrev pub set_provider : Text → Time → TenantRow → TenantRow
set_provider key now r = record r { provider = some key; updated_at = now }

abbrev pub creation_of : ProvisionRequest → TenantCreate
creation_of req = record {
  slug = req.slug;
  name = req.name;
  plan = TenantPlan.standard;
  isolation_mode = IsolationMode.standard;
  resource_limits = none;
  trusted_proxy_auth = true;
}

-- `except RuntimeError as e: raise HTTPException(500)`
abbrev pub or_500 : {A : Type 0} → Result A → Result A
or_500 (err runtime_error) = err (http 500)
or_500 r = r

-- `settings.edge_domain.rstrip("/")`
abbrev pub access_url : Settings → Text → Text
access_url settings slug =
    codes "https://"
    ++ strip_right (λ c. nat_beq c b'/') settings.edge_domain
    ++ codes "/"
    ++ slug
    ++ codes "/"

abbrev pub response_of : Settings → ProvisionRequest → ProviderSpec → Uuid → ProvisionResponse
response_of settings req spec tenant_id = record {
  tenant_id = uuid_text tenant_id;
  slug = req.slug;
  status = codes "running";
  provider = provider_key_value spec.key;
  model = spec.model_id;
  url = access_url settings req.slug;
}

module _ {D : Type 0} (p : Platform D) (c : Crypto) (kek : Text) (settings : Settings) where
  -- Step 0: the provider and its key, and the slug.
  unfoldable pub check_request : ProvisionRequest → Op (World D) ProviderSpec
  check_request req = do
    spec ← lift (spec_or_400 (get_provider req.provider))
    lift (key_or_400 (get_provider_api_key settings spec.env_var))
    found ← gets (λ w. get_tenant_by_slug req.slug w.session)
    existing ← lift found
    lift (free_or_409 existing)
    pure spec

  -- The loop of step 2; a secret is named as its variable.
  unfoldable pub store_secrets : Uuid → Dict Text → Op (World D) ⊤
  store_secrets tenant_id [] = pure tt
  store_secrets tenant_id ((name, value) ∷ rest) = do
    in_session (store_secret c kek tenant_id name value env (some name))
    store_secrets tenant_id rest

  abbrev pub given_secrets : Option (Dict Text) → Dict Text
  given_secrets none = []
  given_secrets (some secrets) = secrets

  -- Step 3, inside its `try`.
  unfoldable pub onboard : Tenant → ProviderSpec → Op (World D) Text
  onboard tenant spec = do
    env_secrets ← in_session (get_decrypted_secrets c kek tenant.tenant_id)
    in_machine (run_init_job p settings tenant (some spec.env_var) (some spec.model_id) env_secrets)

  abbrev pub onboard_or_500 : Tenant → ProviderSpec → Op (World D) Text
  onboard_or_500 tenant spec w = let (r, w') = onboard tenant spec w in (or_500 r, w')

  -- Steps 4 to 6.
  unfoldable pub launch : ProvisionRequest → ProviderSpec → Tenant → Op (World D) ProvisionResponse
  launch req spec tenant = do
    in_machine (configure_tenant p settings tenant.tenant_id (some spec))
    start_tenant p c kek settings tenant.tenant_id
    commit
    pure (response_of settings req spec tenant.tenant_id)

  unfoldable pub provision_tenant : ProvisionRequest → TokenPayload → Op (World D) ProvisionResponse
  provision_tenant req user = do
    spec ← check_request req
    tenant ← create_tenant p c kek settings (creation_of req) (some user.user_id)
    in_session (update_row tenant.tenant_id (set_provider (provider_key_value spec.key)))
    store_secrets tenant.tenant_id (given_secrets req.secrets)
    onboard_or_500 tenant spec
    launch req spec tenant
