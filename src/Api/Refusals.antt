-- ===== src/Api/Refusals.antt =====
-- src/octw/api/routers/provision_router.py: which requests are refused before anything is made.
use octw.Prelude.{
  Text, true, Option, none, some, List, [], ◌∷◌, ◌≡◌, refl, arith, has, map, find, text_eq,
  text_beq_iff, ◌==◌, is_some, truthy, if◌then◌else◌,
}
use octw.Exec.{Exc, ok, err, http, continue}
use octw.Config.{Settings, get_provider_api_key}
use octw.Models.Provider.{get_provider}
use octw.Platform.{Platform}
use octw.Db.{Db, Session, TenantRow, IsValid, slug_of, one-found, tenants_by_slug}
use octw.Vault.Envelope.{Crypto}
use octw.World.{World}
use octw.Tenants.Service.{tenant_of, get_tenant_by_slug}
use octw.Api.Guard.{TokenPayload}
use octw.Api.Requests.{in_request}
use octw.Api.ProvisionRouter.{ProvisionRequest, free_or_409, check_request, provision_tenant}

-- The code that a request is refused with, if it is: for its provider, the provider's key, or its slug.
abbrev pub refusal_of : Settings → ProvisionRequest → Db → Option Exc
refusal_of settings req db = elim (get_provider req.provider) [
  | none ↦ some (http 400)
  | some spec ↦
      if truthy (get_provider_api_key settings spec.env_var)
      then if has req.slug (map slug_of db.tenants) then some (http 409) else none
      else some (http 400)
]

has-is_some :
    (slug : Text) (rows : List TenantRow)
    → is_some (find (λ r. r.slug == slug) rows) ≡ has slug (map slug_of rows)
unfolding find has
has-is_some slug [] = refl
has-is_some slug (r ∷ rows) =
    ground (arith, has-is_some slug rows, text_beq_iff slug r.slug, text_beq_iff r.slug slug)

get_tenant_by_slug-eq :
    (slug : Text) (s : Session)
    → IsValid s.db
    → get_tenant_by_slug slug s ≡ ok (tenant_of (find (λ r. r.slug == slug) s.db.tenants))
unfolding get_tenant_by_slug tenants_by_slug
get_tenant_by_slug-eq slug s v = ground (arith, one-found slug_of slug s.db.tenants v.slugs)

free-taken : (o : Option TenantRow) → is_some o ≡ true → free_or_409 (tenant_of o) ≡ err (http 409)
free-taken none h = absurd (ground arith)
free-taken (some r) h = refl

module _ {D : Type 0} (p : Platform D) (c : Crypto) (kek : Text) (settings : Settings) where
  check_request-refused :
      (req : ProvisionRequest) (w : World D) (e : Exc)
      → IsValid w.session.db
      → refusal_of settings req w.session.db ≡ some e
      → check_request p c kek settings req w ≡ (err e, w)
  unfolding check_request
  check_request-refused req w e v h =
      let rows = w.session.db.tenants in
      grind (
        arith,
        get_tenant_by_slug-eq req.slug w.session v,
        has-is_some req.slug rows,
        free-taken (find (λ r. r.slug == req.slug) rows),
      )

  -- In a valid database, a request to provision a tenant is answered 400 for a provider that is
  -- unknown or has no key, and 409 for a slug that is taken, and leaves the committed database and
  -- the machine as they were.
  pub provision_tenant-refused :
      (req : ProvisionRequest) (user : TokenPayload) (w : World D) (e : Exc)
      → IsValid w.committed
      → refusal_of settings req w.committed ≡ some e
      → let (r, w') = in_request (provision_tenant p c kek settings req user) w in
        (r ≡ err e) × (w'.committed ≡ w.committed) × (w'.machine ≡ w.machine)
  unfolding provision_tenant
  provision_tenant-refused req user w e v h =
      let w0 : World D = record w { session = record w.session { db = w.committed } } in
      rw (check_request-refused req w0 e v h, continue) (refl, refl, refl)
