-- ===== src/Orchestrator/Isolation.antt =====
-- src/octw/orchestrator/docker_orch.py: no two tenants share a name on the machine.
use octw.Prelude.{◌<◌, ◌^◌, Text, codes, [], ◌∷◌, ◌++◌, ◌≡◌}
use octw.Config.{Settings}
use octw.Models.Tenant.{Uuid}
use octw.Uuid.{uuid_text}
use octw.Uuid.Distinct.{uuid_text-inj}
use octw.Orchestrator.Names.{tenant_dir, container_name, network_name, init_name}

append-inj : (p xs ys : Text) → p ++ xs ≡ p ++ ys → xs ≡ ys
append-inj [] xs ys h = h
append-inj (x ∷ p) xs ys h = append-inj p xs ys (cc h)

-- For UUIDs below 2 ^ 128, tenants that share a container name, a network name, an onboarding name
-- or a directory are the same.
pub names-Distinct :
    (settings : Settings) (u v : Uuid)
    → u < 2 ^ 128
    → v < 2 ^ 128
    → (container_name u ≡ container_name v → u ≡ v)
      × (network_name u ≡ network_name v → u ≡ v)
      × (init_name u ≡ init_name v → u ≡ v)
      × (tenant_dir settings u ≡ tenant_dir settings v → u ≡ v)
unfolding container_name network_name init_name tenant_dir
names-Distinct settings u v p q =
    let same = λ (h : uuid_text u ≡ uuid_text v). uuid_text-inj u v p q h in
    (
      λ h. same (append-inj (codes "octw_tenant_") _ _ h),
      λ h. same (append-inj (codes "octw_tenant_") _ _ h),
      λ h. same (append-inj (codes "octw_init_") _ _ h),
      λ h. same (append-inj (codes "/") _ _ (append-inj settings.tenant_base_dir _ _ h)),
    )
