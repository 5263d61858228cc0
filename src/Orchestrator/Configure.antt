-- ===== src/Orchestrator/Configure.antt =====
-- src/octw/orchestrator/docker_orch.py: `configure_tenant`, which rewrites openclaw.json. The
-- configuration is the state that the steps change.
use octw.Prelude.{Text, codes, true, Option, none, some, ◌++◌, truthy, or_text, if◌then◌else◌}
use octw.Exec.{
  Exc, Result, ok, err, type_error, attribute_error, ⊤, Op, pure, raise, lift, gets, modify, when,
  ◌>>=◌, ◌>>◌,
}
use octw.Config.{Settings}
use octw.Models.Tenant.{Uuid}
use octw.Models.Provider.{ProviderSpec}
use octw.Json.{
  Value, bool, number, string, array, object, nil, cons, Fields, end, field, get, set, pop,
  get_or_empty, fields_or,
}
use octw.Platform.{Platform}
use octw.Orchestrator.Names.{gateway_port, tenant_dir}

-- `config.get(k, {})`, of which the source then uses a `dict`; another value raises.
abbrev pub section : Exc → Text → Op Fields Fields
section e k = do v ← gets (get_or_empty k); lift (fields_or e v)

abbrev pub fallback_key : Text
fallback_key = codes "dangerouslyAllowHostHeaderOriginFallback"

-- The gateway binds to the LAN, so that the edge proxy can reach it.
unfoldable pub configure_gateway : Op Fields ⊤
configure_gateway = do
  gateway ← section type_error (codes "gateway")
  let bound =
      set (codes "port") (number gateway_port) (set (codes "bind") (string (codes "lan")) gateway)
  control_ui ← lift (fields_or type_error (get_or_empty (codes "controlUi") bound))
  let shown = set (codes "controlUi") (object (set fallback_key (bool true) control_ui)) bound
  modify (set (codes "gateway") (object shown))

-- The primary model of the agents.
unfoldable pub configure_model : ProviderSpec → Op Fields ⊤
configure_model spec = do
  agents ← section attribute_error (codes "agents")
  defaults ← lift (fields_or type_error (get_or_empty (codes "defaults") agents))
  let model = object (field (codes "primary") (string spec.model_id) end)
  modify (
      set (codes "agents")
        (object (set (codes "defaults") (object (set (codes "model") model defaults)) agents)))

-- `providers.pop(name, None)`: a list takes no second argument, and other values have no `pop`.
abbrev pub pop_provider : Text → Fields → Option Value → Result Fields
pop_provider name models none = ok models
pop_provider name models (some (object providers)) =
    ok (set (codes "providers") (object (pop name providers)) models)
pop_provider name models (some (array providers)) = err type_error
pop_provider name models (some _) = err attribute_error

-- A built-in provider: a stale entry of it is taken out, if there is one.
unfoldable pub drop_stale : Text → Option Value → Op Fields ⊤
drop_stale name none = pure tt
drop_stale name (some (object models)) = do
  kept ← lift (pop_provider name models (get (codes "providers") models))
  modify (set (codes "models") (object kept))
drop_stale name (some _) = raise attribute_error

-- `if value: entry[k] = value`
abbrev pub set_if_truthy : Text → Option Text → Fields → Fields
set_if_truthy k value d = if truthy value then set k (string (or_text value (codes ""))) d else d

abbrev pub provider_entry : ProviderSpec → Fields
provider_entry spec =
    let key = field (codes "apiKey") (string (codes "${" ++ spec.env_var ++ codes "}")) end in
    let model =
      field (codes "id") (string spec.model_name)
        (field (codes "name") (string spec.display_name) end) in
    set (codes "models") (array (cons (object model) nil)) (
      set_if_truthy (codes "api") spec.api_type (set_if_truthy (codes "baseUrl") spec.base_url key))

-- Any other provider: its entry is written in full.
unfoldable pub write_custom : ProviderSpec → Op Fields ⊤
write_custom spec = do
  models ← section type_error (codes "models")
  let merged = set (codes "mode") (string (codes "merge")) models
  providers ← lift (fields_or type_error (get_or_empty (codes "providers") merged))
  let written = set spec.provider_name (object (provider_entry spec)) providers
  modify (set (codes "models") (object (set (codes "providers") (object written) merged)))

unfoldable pub configure_provider : ProviderSpec → Op Fields ⊤
configure_provider spec = do
  configure_model spec
  models ← gets (get (codes "models"))
  if spec.builtin then drop_stale spec.provider_name models else write_custom spec

-- `if spec:`
unfoldable pub configure : Option ProviderSpec → Op Fields ⊤
configure none = configure_gateway
configure (some spec) = do configure_gateway; configure_provider spec

abbrev pub config_path : Settings → Uuid → Text
config_path settings tenant_id = tenant_dir settings tenant_id ++ codes "/state/openclaw.json"

-- The configuration that is written, for the one that was read.
abbrev pub rewritten : Option ProviderSpec → Fields → Result Value
rewritten spec config =
    let (r, d) = configure spec config in elim r [ err e ↦ err e | ok u ↦ ok (object d) ]

module _ {D : Type 0} (p : Platform D) (settings : Settings) where
  unfoldable pub configure_tenant : Uuid → Option ProviderSpec → Op D ⊤
  configure_tenant tenant_id spec = do
    let path = config_path settings tenant_id
    found ← gets (p.path_exists path)
    when found do
      value ← (do v ← gets (p.read_json path); lift v)
      config ← lift (fields_or attribute_error value)
      new ← lift (rewritten spec config)
      p.write_json path new
