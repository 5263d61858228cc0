-- ===== src/Tests/DepsCases.antt =====
-- The services of a process that has answered one request.
use octw.Prelude.{length, some, [], ◌≡◌, refl}
use octw.Exec.{ok}
use octw.Config.{default_settings}
use octw.Vault.Envelope.{key_size}
use octw.Vault.Kek.{load_kek, from_hex}
use octw.Api.Deps.{
  Process, TenantService, started, get_orchestrator, get_vault, get_vault_service,
  get_tenant_service,
}
use octw.Api.Shared.{here, next, orchestrator, get_tenant_service-shared}
use octw.Tests.Machine.{Machine, boxes}
use octw.Tests.CommandCases.{hex_kek, raw_kek}

abbrev first_request : Process Machine
first_request = (get_orchestrator (λ d. ok tt) (started [])).1

abbrev services : TenantService
services = record {
  ref = 3;
  orch = 0;
  vaults = record { ref = 2; vault = record { ref = 1; kek = raw_kek } };
}

serves_first :
    (get_tenant_service (λ d. ok tt) boxes default_settings (some hex_kek) first_request).0
    ≡ ok services
unfolding get_tenant_service get_orchestrator load_kek from_hex octw.Uuid.Parse.digit_value
serves_first = refl

-- The orchestrator was asked for before, and is asked for again.
abbrev after : Process Machine
after =
    (get_orchestrator (λ d. ok tt)
      (get_tenant_service (λ d. ok tt) boxes default_settings (some hex_kek) first_request).1).1

get_tenant_service-shared_example :
    (get_tenant_service (λ d. ok tt) boxes default_settings (some hex_kek) after
      ≡ (ok services, after))
    × (get_vault_service (λ d. ok tt) boxes default_settings (some hex_kek) after
        ≡ (ok services.vaults, after))
    × (get_vault (λ d. ok tt) boxes default_settings (some hex_kek) after
        ≡ (ok services.vaults.vault, after))
    × (get_orchestrator (λ d. ok tt) after ≡ (ok services.orch, after))
    × (length services.vaults.vault.kek ≡ key_size)
get_tenant_service-shared_example =
    get_tenant_service-shared (λ d. ok tt) boxes default_settings (some hex_kek) [] first_request
      after services (next here (orchestrator (started []))) serves_first
      (next here (
        orchestrator
          (get_tenant_service (λ d. ok tt) boxes default_settings (some hex_kek) first_request).1))
