-- ===== src/Api/Deps.antt =====
-- src/octw/api/deps.py: the services that the requests of one process share. An object is told from
-- others by its number. The calls are those of one thread.
use octw.Prelude.{ℕ, ◌+◌, Text, Option, none, some}
use octw.Exec.{Result, ok, ⊤, Op, pure, modify, query, ◌>>=◌, ◌>>◌}
use octw.Config.{Settings}
use octw.Platform.{Platform}
use octw.Vault.Kek.{load_kek}

-- The object with its `_kek`.
pub record EnvelopeVault : Type 0 where
  pub ref : ℕ
  pub kek : Text

pub record VaultService : Type 0 where
  pub ref : ℕ
  pub vault : EnvelopeVault

pub record TenantService : Type 0 where
  pub ref : ℕ
  pub orch : ℕ
  pub vaults : VaultService

-- The variables of the module, the number of the next object, and the machine.
pub record Process (D : Type 0) : Type 0 where
  pub next : ℕ
  pub orch : Option ℕ
  pub vault : Option EnvelopeVault
  pub vault_service : Option VaultService
  pub tenant_service : Option TenantService
  pub machine : D

abbrev pub started : {D : Type 0} → D → Process D
started d = record {
  next = 0;
  orch = none;
  vault = none;
  vault_service = none;
  tenant_service = none;
  machine = d;
}

module _ {D : Type 0} where
  -- The number of a new object.
  abbrev pub fresh : Op (Process D) ℕ
  fresh s = (ok s.next, record s { next = s.next + 1 })

  -- The end of each function: a variable that is set is returned, and one that is `None` is made.
  abbrev pub or_make : {A : Type 0} → Option A → Op (Process D) A → Op (Process D) A
  or_make (some a) make = pure a
  or_make none make = make

  module _ (from_env : D → Result ⊤) where
    -- `DockerOrchestrator()`, which asks `docker.from_env`
    unfoldable pub make_orchestrator : Op (Process D) ℕ
    make_orchestrator = do
      query (λ s. from_env s.machine)
      o ← fresh
      modify (λ s. record s { orch = some o })
      pure o

    unfoldable pub get_orchestrator : Op (Process D) ℕ
    unfolding make_orchestrator
    get_orchestrator s = or_make s.orch make_orchestrator s

    module _ (p : Platform D) (settings : Settings) (kek_env : Option Text) where
      unfoldable pub make_vault : Op (Process D) EnvelopeVault
      make_vault = do
        kek ← query (λ s. load_kek p settings kek_env s.machine)
        ref ← fresh
        let v : EnvelopeVault = record { ref = ref; kek = kek }
        modify (λ s. record s { vault = some v })
        pure v

      unfoldable pub get_vault : Op (Process D) EnvelopeVault
      unfolding make_vault
      get_vault s = or_make s.vault make_vault s

      unfoldable pub make_vault_service : Op (Process D) VaultService
      make_vault_service = do
        v ← get_vault
        ref ← fresh
        let service : VaultService = record { ref = ref; vault = v }
        modify (λ s. record s { vault_service = some service })
        pure service

      unfoldable pub get_vault_service : Op (Process D) VaultService
      unfolding make_vault_service get_vault
      get_vault_service s = or_make s.vault_service make_vault_service s

      unfoldable pub make_tenant_service : Op (Process D) TenantService
      make_tenant_service = do
        o ← get_orchestrator
        vaults ← get_vault_service
        ref ← fresh
        let service : TenantService = record { ref = ref; orch = o; vaults = vaults }
        modify (λ s. record s { tenant_service = some service })
        pure service

      unfoldable pub get_tenant_service : Op (Process D) TenantService
      unfolding make_tenant_service get_orchestrator get_vault_service
      get_tenant_service s = or_make s.tenant_service make_tenant_service s
