-- ===== src/Db/Statements.antt =====
-- What the services do with a session: each query and each statement of the source, with the
-- constraints that tables.py declares. A row that is added is flushed at once, as everywhere in the
-- source, so a constraint that fails raises there.
use octw.Prelude.{
  ℕ, Text, Bool, Option, none, some, List, [], ◌∷◌, ◌++◌, map, ◌==◌, nat_eq, text_eq, pair_eq, ◌&&◌,
  ◌||◌, not, keep, find, has, update_where, if◌then◌else◌,
}
use octw.Exec.{Result, ok, err, integrity_error, multiple_results, ⊤, Op}
use octw.Models.Tenant.{Uuid, Time}
use octw.Db.Rows.{Db, TenantRow, UserRow, MembershipRow, SecretRow, TenantDekRow, AuditEventRow}

-- The database as the session sees it, the time of the call, and how often the source of random
-- numbers has been drawn from.
pub record Session : Type 0 where
  pub db : Db
  pub now : Time
  pub draws : ℕ

-- `Result.scalar_one_or_none`
abbrev pub scalar_one_or_none : {A : Type 0} → List A → Result (Option A)
scalar_one_or_none [] = ok none
scalar_one_or_none (x ∷ []) = ok (some x)
scalar_one_or_none (x ∷ y ∷ rest) = err multiple_results

-- The keys of the tables: primary keys and unique constraints.
abbrev pub tenant_id_of : TenantRow → Uuid
tenant_id_of r = r.tenant_id

abbrev pub slug_of : TenantRow → Text
slug_of r = r.slug

abbrev pub user_id_of : UserRow → Uuid
user_id_of r = r.user_id

abbrev pub email_of : UserRow → Text
email_of r = r.email

abbrev pub uq_membership : MembershipRow → Uuid × Uuid
uq_membership r = (r.tenant_id, r.user_id)

abbrev pub uq_tenant_secret : SecretRow → Uuid × Text
uq_tenant_secret r = (r.tenant_id, r.name)

abbrev pub dek_tenant_of : TenantDekRow → Uuid
dek_tenant_of r = r.tenant_id

-- Foreign keys.
abbrev pub tenant_exists : Uuid → Db → Bool
tenant_exists t db = has t (map tenant_id_of db.tenants)

abbrev pub user_exists : Uuid → Db → Bool
user_exists u db = has u (map user_id_of db.users)

-- `session.add` of a row and the flush that follows it.
unfoldable pub add_tenant : TenantRow → Op Db ⊤
add_tenant row db =
    if tenant_exists row.tenant_id db || has row.slug (map slug_of db.tenants)
    then (err integrity_error, db)
    else (ok tt, record db { tenants = db.tenants ++ row ∷ [] })

unfoldable pub add_user : UserRow → Op Db ⊤
add_user row db =
    if user_exists row.user_id db || has row.email (map email_of db.users)
    then (err integrity_error, db)
    else (ok tt, record db { users = db.users ++ row ∷ [] })

unfoldable pub add_membership : MembershipRow → Op Db ⊤
add_membership row db =
    if has (uq_membership row) (map uq_membership db.memberships)
      || not (tenant_exists row.tenant_id db && user_exists row.user_id db)
    then (err integrity_error, db)
    else (ok tt, record db { memberships = db.memberships ++ row ∷ [] })

unfoldable pub add_secret : SecretRow → Op Db ⊤
add_secret row db =
    if has (uq_tenant_secret row) (map uq_tenant_secret db.secrets)
      || not (tenant_exists row.tenant_id db)
    then (err integrity_error, db)
    else (ok tt, record db { secrets = db.secrets ++ row ∷ [] })

unfoldable pub add_dek : TenantDekRow → Op Db ⊤
add_dek row db =
    if has row.tenant_id (map dek_tenant_of db.deks) || not (tenant_exists row.tenant_id db)
    then (err integrity_error, db)
    else (ok tt, record db { deks = db.deks ++ row ∷ [] })

unfoldable pub add_audit_event : AuditEventRow → Op Db ⊤
add_audit_event row db = (ok tt, record db { audit_events = db.audit_events ++ row ∷ [] })

-- `update(TenantRow).where(TenantRow.tenant_id == tenant_id).values(...)`
unfoldable pub update_tenant : Uuid → (TenantRow → TenantRow) → Db → Db
update_tenant t f db = record db { tenants = update_where (λ r. r.tenant_id == t) f db.tenants }

-- An assignment to the columns of a secret that a query has found.
unfoldable pub update_secret : Uuid → Text → (SecretRow → SecretRow) → Db → Db
update_secret t n f db = record db {
  secrets = update_where (λ r. r.tenant_id == t && r.name == n) f db.secrets;
}

-- `session.delete` of a tenant: the foreign keys of memberships, secrets and keys say CASCADE.
unfoldable pub delete_tenant_row : Uuid → Db → Db
delete_tenant_row t db = record db {
  tenants = keep (λ r. not (r.tenant_id == t)) db.tenants;
  memberships = keep (λ r. not (r.tenant_id == t)) db.memberships;
  secrets = keep (λ r. not (r.tenant_id == t)) db.secrets;
  deks = keep (λ r. not (r.tenant_id == t)) db.deks;
}

unfoldable pub delete_membership_row : Uuid → Uuid → Db → Db
delete_membership_row t u db = record db {
  memberships = keep (λ r. not (r.tenant_id == t && r.user_id == u)) db.memberships;
}

unfoldable pub delete_secret_row : Uuid → Text → Db → Db
delete_secret_row t n db = record db {
  secrets = keep (λ r. not (r.tenant_id == t && r.name == n)) db.secrets;
}

-- `session.get(TenantRow, tenant_id)`, a search by primary key.
unfoldable pub tenant_by_id : Uuid → Db → Option TenantRow
tenant_by_id t db = find (λ r. r.tenant_id == t) db.tenants

unfoldable pub tenants_by_slug : Text → Db → List TenantRow
tenants_by_slug s db = keep (λ r. r.slug == s) db.tenants

unfoldable pub users_by_email : Text → Db → List UserRow
users_by_email e db = keep (λ r. r.email == e) db.users

unfoldable pub memberships_of : Uuid → Uuid → Db → List MembershipRow
memberships_of t u db = keep (λ r. r.tenant_id == t && r.user_id == u) db.memberships

unfoldable pub secrets_named : Uuid → Text → Db → List SecretRow
secrets_named t n db = keep (λ r. r.tenant_id == t && r.name == n) db.secrets

unfoldable pub secrets_of : Uuid → Db → List SecretRow
secrets_of t db = keep (λ r. r.tenant_id == t) db.secrets

unfoldable pub dek_of : Uuid → Db → Option TenantDekRow
dek_of t db = find (λ r. r.tenant_id == t) db.deks

module _ {A : Type 0} where
  -- A statement on the database, in the session.
  abbrev pub in_db : Op Db A → Op Session A
  in_db m s = let (r, db) = m s.db in (r, record s { db = db })
