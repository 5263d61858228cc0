-- ===== src/Tenants/Listing.antt =====
-- `list_tenants` of src/octw/orchestrator/tenant_service.py: the tenants that a user sees.
use octw.Prelude.{
  Bool, true, false, Option, none, some, List, [], ◌∷◌, ◌++◌, map, ◌≡◌, refl, arith, nat_eq,
  pair_eq, keep, is_some, if◌then◌else◌,
}
use octw.Exec.{ok}
use octw.Models.Tenant.{Uuid, Tenant}
use octw.Db.{
  Db, Session, TenantRow, MembershipRow, IsValid, uq_membership, one-found, scalar_one_or_none,
}
use octw.Tenants.Rows.{row_to_tenant}
use octw.Tenants.Roles.{role_in}
use octw.Tenants.Members.{role_of}
use octw.Tenants.Service.{join_memberships, list_tenants}

-- A list in which a query for one row finds `o`.
map-one :
    (t : Tenant) (ms : List MembershipRow) (o : Option MembershipRow)
    → scalar_one_or_none ms ≡ ok o
    → map (λ _. t) ms ≡ (if is_some (role_of o) then t ∷ [] else [])
map-one t [] none h = refl
map-one t [] (some m) h = absurd (ground arith)
map-one t (m ∷ []) none h = absurd (ground arith)
map-one t (m ∷ []) (some n) h = refl
map-one t (m ∷ n ∷ ms) o h = absurd (ground arith)

append-if :
    (b : Bool) (t : Tenant) (rest : List Tenant)
    → (if b then t ∷ [] else []) ++ rest ≡ (if b then t ∷ rest else rest)
append-if true t rest = refl
append-if false t rest = refl

module _ (u : Uuid) (db : Db) (v : IsValid db) where
  abbrev sees : TenantRow → Bool
  sees r = is_some (role_in r.tenant_id u db)

  map-if :
      (b : Bool) (r : TenantRow) (rest : List TenantRow)
      → map row_to_tenant (if b then r ∷ rest else rest)
        ≡ (if b then row_to_tenant r ∷ map row_to_tenant rest else map row_to_tenant rest)
  map-if true r rest = refl
  map-if false r rest = refl

  join-sees :
      (rows : List TenantRow)
      → join_memberships u db.memberships rows ≡ map row_to_tenant (keep sees rows)
  unfolding join_memberships keep
  join-sees [] = refl
  join-sees (r ∷ rows) =
      let one =
        map-one (row_to_tenant r) _ _
          (one-found uq_membership (r.tenant_id, u) db.memberships v.membership_keys) in
      rw (
        one,
        join-sees rows,
        append-if (sees r) (row_to_tenant r) (map row_to_tenant (keep sees rows)),
        map-if (sees r) r (keep sees rows),
      )

-- In a valid database `list_tenants` for a user gives exactly the tenants in which the user has a
-- role, each once, in the order of the table.
pub list_tenants-role_in :
    (u : Uuid) (s : Session)
    → IsValid s.db
    → list_tenants (some u) s
      ≡ map row_to_tenant (keep (λ r. is_some (role_in r.tenant_id u s.db)) s.db.tenants)
unfolding list_tenants
list_tenants-role_in u s v = join-sees u s.db v s.db.tenants
