-- ===== src/Api/ProvisionKeeps.antt =====
-- src/octw/api/routers/provision_router.py keeps every invariant of the committed database.
use octw.Prelude.{Text, some, [], ◌∷◌, refl, arith, Dict}
use octw.Config.{Settings}
use octw.Models.Tenant.{Uuid, Tenant}
use octw.Models.Provider.{ProviderSpec}
use octw.Models.Secret.{env}
use octw.Platform.{Platform}
use octw.Db.{Db, Invariant, everywhere}
use octw.Vault.Envelope.{Crypto}
use octw.Vault.Keeps.{VaultInvariant}
use octw.World.{World}
use octw.Tenants.Keeps.{create_tenant-keeps, start_tenant-keeps, update_row-keeps}
use octw.Api.Guard.{TokenPayload}
use octw.Api.Requests.{in_request}
use octw.Api.Atomic.{create_tenant-Uncommitted, start_tenant-Uncommitted}
use octw.Api.Provision.{check_request-Uncommitted, store_secrets-Uncommitted, onboard-Uncommitted}
use octw.Api.ProvisionRouter.{
  ProvisionRequest, set_provider, check_request, store_secrets, onboard, launch, provision_tenant,
}

module _ {P : Db → Type 0} (inv : Invariant everywhere P) {D : Type 0} (p : Platform D) (c : Crypto)
    (kek : Text) (settings : Settings) (vault : VaultInvariant everywhere c kek P) where
  check_request-keeps :
      (req : ProvisionRequest) (w : World D)
      → P w.session.db
      → P (check_request p c kek settings req w).1.session.db
  unfolding check_request
  check_request-keeps req w v = ground arith

  store_secrets-keeps :
      (t : Uuid) (secrets : Dict Text) (w : World D)
      → P w.session.db
      → P (store_secrets p c kek settings t secrets w).1.session.db
  unfolding store_secrets
  store_secrets-keeps t [] w v = v
  store_secrets-keeps t ((n, value) ∷ rest) w v =
      grind
        (arith, vault.stores t n value env (some n) w.session refl v, store_secrets-keeps t rest)

  onboard-keeps :
      (tenant : Tenant) (spec : ProviderSpec) (w : World D)
      → P w.session.db
      → P (onboard p c kek settings tenant spec w).1.session.db
  unfolding onboard
  onboard-keeps tenant spec w v = grind (arith, vault.decrypts)

  launch-keeps :
      (req : ProvisionRequest) (spec : ProviderSpec) (tenant : Tenant) (w : World D)
      → P w.session.db
      → P w.committed
      → P (launch p c kek settings req spec tenant w).1.committed
  unfolding launch
  launch-keeps req spec tenant w v k = grind (
    arith,
    start_tenant-keeps inv p c kek settings vault,
    start_tenant-Uncommitted p c kek settings,
  )

  provided-keeps :
      (key : Text) (t : Uuid) (w : World D)
      → P w.session.db
      → P (octw.Tenants.Rows.update_row t (set_provider key) w.session).1.db
  provided-keeps key t w v =
      update_row-keeps inv t (set_provider key) w.session (λ _ _. refl) (λ _ _. refl) refl v

  pub provision_tenant-keeps :
      (req : ProvisionRequest) (user : TokenPayload) (w : World D)
      → P w.committed
      → P (in_request (provision_tenant p c kek settings req user) w).1.committed
  unfolding provision_tenant
  provision_tenant-keeps req user w k = grind (
    arith,
    check_request-keeps,
    check_request-Uncommitted p c kek settings,
    create_tenant-keeps inv p c kek settings,
    create_tenant-Uncommitted p c kek settings,
    provided-keeps,
    store_secrets-keeps,
    store_secrets-Uncommitted p c kek settings,
    onboard-keeps,
    onboard-Uncommitted p c kek settings,
    launch-keeps,
  )
