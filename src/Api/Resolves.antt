-- ===== src/Api/Resolves.antt =====
-- src/octw/api/routers/internal_router.py: which tenant an identifier names.
use octw.Prelude.{
  Text, Bool, none, some, List, [], ◌∷◌, ◌≡◌, refl, sym, ap, ◌∙◌, arith, map, keep, ◌==◌, text_eq,
}
use octw.Exec.{Result, ok, err, http}
use octw.Models.Tenant.{Uuid}
use octw.Db.{Session, TenantRow, scalar_one_or_none, tenants_by_slug}
use octw.Tenants.Rows.{row_to_tenant}
use octw.Tenants.Service.{tenant_of, get_tenant_by_slug}
use octw.Tenants.Slugs.{Key, key_of, keys, keep-map}
use octw.Api.InternalRouter.{id_or_404, by_slug, resolve_tenant_id}

-- The answer for the keys of the rows with a slug.
abbrev one_key : List Key → Result Uuid
one_key ks = elim (scalar_one_or_none ks) [
  | err e ↦ err e
  | ok none ↦ err (http 404)
  | ok (some k) ↦ ok k.1
]

-- The answer for the rows with a slug.
abbrev one_row : List TenantRow → Result Uuid
one_row rows = elim (scalar_one_or_none rows) [ err e ↦ err e | ok row ↦ id_or_404 (tenant_of row) ]

one_row-one_key : (rows : List TenantRow) → one_row rows ≡ one_key (map key_of rows)
unfolding row_to_tenant
one_row-one_key [] = refl
one_row-one_key (r ∷ []) = refl
one_row-one_key (r ∷ q ∷ rows) = refl

by_slug-one_row : (slug : Text) (s : Session) → by_slug slug s ≡ one_row (tenants_by_slug slug s.db)
unfolding get_tenant_by_slug
by_slug-one_row slug s = ground arith

abbrev has_slug : Text → Key → Bool
has_slug slug k = k.0 == slug

by_slug-keys :
    (slug : Text) (s : Session) → by_slug slug s ≡ one_key (keep (has_slug slug) (keys s))
unfolding tenants_by_slug
by_slug-keys slug s =
    by_slug-one_row slug s
    ∙ one_row-one_key (tenants_by_slug slug s.db)
    ∙ ap one_key (sym (keep-map key_of (has_slug slug) s.db.tenants))

-- A slug names the same tenant where the slugs and ids of the tenants are the same.
pub resolve_tenant_id-keys :
    (identifier : Text) (s s' : Session)
    → keys s' ≡ keys s
    → resolve_tenant_id identifier s' ≡ resolve_tenant_id identifier s
unfolding resolve_tenant_id
resolve_tenant_id-keys identifier s s' h =
    let same : by_slug identifier s' ≡ by_slug identifier s =
      by_slug-keys identifier s'
      ∙ ap (λ ks. one_key (keep (has_slug identifier) ks)) h
      ∙ sym (by_slug-keys identifier s) in
    ground (arith, same)
