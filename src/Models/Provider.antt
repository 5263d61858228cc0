-- ===== src/Models/Provider.antt =====
-- src/octw/models/provider.py: the table of model providers and its lookup by key.
use octw.Prelude.{Text, codes, Bool, true, Option, none, some, ◌==◌, text_eq, if◌then◌else◌}

pub data ProviderKey : Type 0 where
  zai moonshot minimax : ProviderKey

unfoldable pub provider_key_value : ProviderKey → Text
provider_key_value zai = codes "zai"
provider_key_value moonshot = codes "moonshot"
provider_key_value minimax = codes "minimax"

pub record ProviderSpec : Type 0 where
  pub key : ProviderKey
  pub env_var : Text
  pub provider_name : Text
  pub model_id : Text
  pub model_name : Text
  pub display_name : Text
  pub base_url : Option Text
  pub api_type : Option Text
  pub builtin : Bool

-- `PROVIDERS`, a dict with an entry for every key.
unfoldable pub providers : ProviderKey → ProviderSpec
providers zai = record {
  key = zai;
  env_var = codes "ZAI_API_KEY";
  provider_name = codes "zai-coding";
  model_id = codes "zai-coding/glm-5";
  model_name = codes "glm-5";
  display_name = codes "Z.ai GLM Coding Plan";
  base_url = none;
  api_type = none;
  builtin = true;
}
providers moonshot = record {
  key = moonshot;
  env_var = codes "MOONSHOT_API_KEY";
  provider_name = codes "kimi-coding";
  model_id = codes "kimi-coding/k2p5";
  model_name = codes "k2p5";
  display_name = codes "Moonshot AI Kimi Coding Plan";
  base_url = none;
  api_type = none;
  builtin = true;
}
providers minimax = record {
  key = minimax;
  env_var = codes "MINIMAX_API_KEY";
  provider_name = codes "minimax-coding";
  model_id = codes "minimax-coding/MiniMax-M2.5";
  model_name = codes "MiniMax-M2.5";
  display_name = codes "MiniMax Coding Plan";
  base_url = none;
  api_type = none;
  builtin = true;
}

-- `ProviderKey(key)`; `none` is the `ValueError`.
unfoldable pub provider_key_of : Text → Option ProviderKey
provider_key_of key =
    if key == codes "zai"
    then some zai
    else if key == codes "moonshot"
    then some moonshot
    else if key == codes "minimax"
    then some minimax
    else none

-- `get_provider`; `none` is its `ValueError`.
unfoldable pub get_provider : Text → Option ProviderSpec
unfolding provider_key_of
get_provider key = elim (provider_key_of key) [ none ↦ none | some k ↦ some (providers k) ]
