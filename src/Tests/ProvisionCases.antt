-- ===== src/Tests/ProvisionCases.antt =====
-- Provisioning: a tenant that is new, a slug that is taken, an onboarding that cannot be done, and a
-- configuration file.
use octw.Prelude.{codes, some, [], ◌∷◌, ◌≡◌, refl, has, find, keep, text_beq, update_where}
use octw.Exec.{ok, err, http, integrity_error, Result}
use octw.Config.{Settings, default_settings}
use octw.Models.Provider.{ProviderSpec, providers, zai}
use octw.Json.{Value, string, object, Fields, end, field}
use octw.Orchestrator.Configure.{configure}
use octw.Orchestrator.Configured.{Configured, configure-Configured}
use octw.World.{World}
use octw.Api.Requests.{in_request}
use octw.Api.ProvisionRouter.{ProvisionRequest, ProvisionResponse, provision_tenant}
use octw.Api.Provisioned.{Concluded, provision_tenant-Concluded}
use octw.Api.Refusals.{provision_tenant-refused}
use octw.Tests.Machine.{Machine, boxes, boxes-DockerLaws, marks}
use octw.Tests.Sample.{world, kek, ann, sample, sample-IsValid}

abbrev keyed : Settings
keyed = record default_settings { zai_api_key = some (codes "key") }

abbrev gamma : ProvisionRequest
gamma = record {
  slug = codes "gamma";
  name = codes "Gamma";
  provider = codes "zai";
  secrets = some ((codes "TOKEN", codes "hush") ∷ []);
}

abbrev made : Result ProvisionResponse × World Machine
made = in_request (provision_tenant boxes marks kek keyed gamma ann) world

abbrev gamma_response : ProvisionResponse
gamma_response = record {
  tenant_id = codes "00000000-0000-0000-0000-0000000003e8";
  slug = codes "gamma";
  status = codes "running";
  provider = codes "zai";
  model = codes "zai-coding/glm-5";
  url = codes "https://octw.example.com/gamma/";
}

gamma_made : made.0 ≡ ok gamma_response
unfolding find keep update_where has text_beq octw.Uuid.uuid_text
    octw.Orchestrator.Dirs.create_tenant_dirs octw.Orchestrator.Networks.create_network
    octw.Orchestrator.Spec.init_spec octw.Orchestrator.Containers.run_new
    octw.Orchestrator.Containers.id_or_run octw.Orchestrator.Containers.start_container
    octw.Orchestrator.Init.run_init_job octw.Orchestrator.Configure.configure_tenant
    octw.Tenants.Rows.row_to_tenant octw.Tenants.Rows.new_row octw.Tenants.Rows.update_row
    octw.Tenants.Rows.emit_audit octw.Tenants.Service.get_tenant
    octw.Tenants.Service.get_tenant_by_slug octw.Tenants.Service.provider_env_var
    octw.Tenants.Service.add_creator octw.Tenants.Service.create_tenant
    octw.Tenants.Service.start_tenant octw.Tenants.Members.ensure_membership
    octw.Vault.Service.ensure_tenant_dek octw.Vault.Service.put_secret
    octw.Vault.Service.seal_and_put octw.Vault.Service.store_secret octw.Vault.Service.decrypt_rows
    octw.Vault.Service.get_decrypted_secrets octw.Vault.Service.list_secret_metadata
    octw.Db.add_tenant octw.Db.add_membership octw.Db.add_dek octw.Db.tenant_by_id
    octw.Db.tenants_by_slug octw.Models.Provider.provider_key_value octw.Models.Provider.providers
    octw.Models.Provider.get_provider octw.Config.get_provider_api_key
    octw.Api.ProvisionRouter.check_request octw.Api.ProvisionRouter.store_secrets
    octw.Api.ProvisionRouter.onboard octw.Api.ProvisionRouter.launch
    octw.Api.ProvisionRouter.provision_tenant octw.Uuid.Parse.strip_right
gamma_made = refl

provision_tenant-Concluded_example :
    Concluded boxes boxes-DockerLaws marks kek keyed made.0 world made.1
provision_tenant-Concluded_example =
    provision_tenant-Concluded boxes boxes-DockerLaws marks kek keyed gamma ann world

abbrev taken : Result ProvisionResponse × World Machine
taken =
    in_request (provision_tenant boxes marks kek keyed (record gamma { slug = codes "acme" }) ann)
      world

provision_tenant-refused_example :
    (taken.0 ≡ err (http 409)) × (taken.1.committed ≡ sample) × (taken.1.machine ≡ [])
unfolding octw.Models.Provider.get_provider text_beq octw.Config.get_provider_api_key providers has
provision_tenant-refused_example =
    provision_tenant-refused boxes marks kek keyed (record gamma { slug = codes "acme" }) ann world
      (http 409) sample-IsValid refl

-- Nobody can be the administrator of a tenant who has no row.
stray_refused :
    (in_request
      (provision_tenant boxes marks kek keyed gamma (record ann { user_id = 99 }))
      world).0
    ≡ err integrity_error
unfolding keep update_where has text_beq octw.Orchestrator.Dirs.create_tenant_dirs
    octw.Orchestrator.Networks.create_network octw.Tenants.Rows.new_row octw.Tenants.Rows.update_row
    octw.Tenants.Rows.emit_audit octw.Tenants.Service.get_tenant_by_slug
    octw.Tenants.Service.add_creator octw.Tenants.Service.create_tenant
    octw.Tenants.Members.ensure_membership octw.Db.add_tenant octw.Db.add_membership
    octw.Db.tenants_by_slug octw.Models.Provider.providers octw.Models.Provider.get_provider
    octw.Config.get_provider_api_key octw.Api.ProvisionRouter.check_request
    octw.Api.ProvisionRouter.provision_tenant
stray_refused = refl

abbrev written : Fields
written = field (codes "theme") (string (codes "dark")) (field (codes "gateway") (object end) end)

configure-Configured_example :
    Configured (providers zai) (codes "theme") written (configure (some (providers zai)) written).1
unfolding configure octw.Orchestrator.Configure.configure_gateway octw.Json.get_or_empty
    octw.Json.get text_beq octw.Json.set octw.Orchestrator.Configure.configure_provider
    octw.Orchestrator.Configure.configure_model providers octw.Orchestrator.Configure.drop_stale
configure-Configured_example = configure-Configured (providers zai) (codes "theme") written refl
