-- ===== src/Api/Provision.antt =====
-- src/octw/api/routers/provision_router.py: what a request that provisions a tenant commits, and what it
-- leaves running.
use octw.Prelude.{Text, [], ◌∷◌, ◌≡◌, refl, arith, Dict, text_eq}
use octw.Exec.{Exc, err}
use octw.Config.{Settings}
use octw.Models.Tenant.{Uuid, Tenant}
use octw.Models.Provider.{ProviderSpec}
use octw.Platform.{Platform}
use octw.Vault.Envelope.{Crypto}
use octw.World.{World}
use octw.Api.Guard.{TokenPayload}
use octw.Api.Requests.{in_request}
use octw.Api.Atomic.{Uncommitted, create_tenant-Uncommitted, start_tenant-Uncommitted}
use octw.Api.ProvisionRouter.{
  ProvisionRequest, check_request, store_secrets, onboard, launch, provision_tenant,
}

module _ {D : Type 0} (p : Platform D) (c : Crypto) (kek : Text) (settings : Settings) where
  pub check_request-Uncommitted :
      (req : ProvisionRequest) → Uncommitted (check_request p c kek settings req)
  unfolding check_request
  check_request-Uncommitted req w = ground arith

  pub store_secrets-Uncommitted :
      (t : Uuid) (secrets : Dict Text) → Uncommitted (store_secrets p c kek settings t secrets)
  unfolding store_secrets
  store_secrets-Uncommitted t [] w = refl
  store_secrets-Uncommitted t ((n, v) ∷ rest) w = grind (arith, store_secrets-Uncommitted t rest)

  pub onboard-Uncommitted :
      (tenant : Tenant) (spec : ProviderSpec) → Uncommitted (onboard p c kek settings tenant spec)
  unfolding onboard
  onboard-Uncommitted tenant spec w = ground arith

  launch-atomic :
      (req : ProvisionRequest) (spec : ProviderSpec) (tenant : Tenant) (w : World D) (e : Exc)
      → (launch p c kek settings req spec tenant w).0 ≡ err e
      → (launch p c kek settings req spec tenant w).1.committed ≡ w.committed
  unfolding launch
  launch-atomic req spec tenant w e h = grind (arith, start_tenant-Uncommitted p c kek settings)

  -- Provisioning that ends in an exception, at whatever step, has committed nothing.
  pub provision_tenant-atomic :
      (req : ProvisionRequest) (user : TokenPayload) (w : World D) (e : Exc)
      → let (r, w') = in_request (provision_tenant p c kek settings req user) w in
        r ≡ err e → w'.committed ≡ w.committed
  unfolding provision_tenant
  provision_tenant-atomic req user w e h = grind (
    arith,
    check_request-Uncommitted,
    create_tenant-Uncommitted p c kek settings,
    store_secrets-Uncommitted,
    onboard-Uncommitted,
    launch-atomic,
  )
