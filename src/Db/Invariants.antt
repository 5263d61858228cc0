-- ===== src/Db/Invariants.antt =====
-- Invariants of the database as an interface: what each statement of a session keeps. The services are
-- shown to keep every such predicate, and the constraints of the tables are one. The statements that
-- write the rows of the vault stand apart: some invariants are kept by the vault as a whole only. Where
-- a predicate is kept by what is done to some tenants only, `scope` says which.
use octw.Prelude.{Text, Bool, true, ◌≡◌, map}
use octw.Models.Tenant.{Uuid}
use octw.Db.Rows.{Db, TenantRow, UserRow, MembershipRow, SecretRow, TenantDekRow, AuditEventRow}
use octw.Db.Statements.{
  add_tenant, add_user, add_membership, add_secret, add_dek, add_audit_event, update_tenant,
  update_secret, delete_tenant_row, delete_membership_row, delete_secret_row, uq_tenant_secret,
}
use octw.Db.Constraints.{
  IsValid, add_tenant-IsValid, add_user-IsValid, add_membership-IsValid, add_secret-IsValid,
  add_dek-IsValid, add_audit_event-IsValid,
}
use octw.Db.Changes.{
  update_tenant-IsValid, map_tenants-IsValid, update_secret-IsValid, delete_tenant_row-IsValid,
  delete_membership_row-IsValid, delete_secret_row-IsValid,
}

pub record Invariant (scope : Uuid → Bool) (P : Db → Type 0) : Type 0 where
  pub adds_tenant :
      (row : TenantRow) (db : Db) → scope row.tenant_id ≡ true → P db → P (add_tenant row db).1
  pub adds_user : (row : UserRow) (db : Db) → P db → P (add_user row db).1
  pub adds_membership :
      (row : MembershipRow) (db : Db)
      → scope row.tenant_id ≡ true
      → P db
      → P (add_membership row db).1
  pub adds_audit_event : (row : AuditEventRow) (db : Db) → P db → P (add_audit_event row db).1
  pub updates_tenant :
      (t : Uuid) (f : TenantRow → TenantRow) (db : Db)
      → ((r : TenantRow) → (f r).tenant_id ≡ r.tenant_id)
      → ((r : TenantRow) → (f r).slug ≡ r.slug)
      → scope t ≡ true
      → P db
      → P (update_tenant t f db)
  pub deletes_tenant : (t : Uuid) (db : Db) → scope t ≡ true → P db → P (delete_tenant_row t db)
  pub deletes_membership :
      (t u : Uuid) (db : Db) → scope t ≡ true → P db → P (delete_membership_row t u db)
  pub deletes_secret :
      (t : Uuid) (n : Text) (db : Db) → scope t ≡ true → P db → P (delete_secret_row t n db)

-- The statements by which the vault writes keys and secrets.
pub record SecretInvariant (scope : Uuid → Bool) (P : Db → Type 0) : Type 0 where
  pub adds_secret :
      (row : SecretRow) (db : Db) → scope row.tenant_id ≡ true → P db → P (add_secret row db).1
  pub adds_dek :
      (row : TenantDekRow) (db : Db) → scope row.tenant_id ≡ true → P db → P (add_dek row db).1
  pub updates_secret :
      (t : Uuid) (n : Text) (f : SecretRow → SecretRow) (db : Db)
      → ((r : SecretRow) → uq_tenant_secret (f r) ≡ uq_tenant_secret r)
      → scope t ≡ true
      → P db
      → P (update_secret t n f db)

-- An assignment to the rows of all tenants.
pub record SweepInvariant (P : Db → Type 0) : Type 0 where
  pub maps_tenants :
      (f : TenantRow → TenantRow) (db : Db)
      → ((r : TenantRow) → (f r).tenant_id ≡ r.tenant_id)
      → ((r : TenantRow) → (f r).slug ≡ r.slug)
      → P db
      → P (record db { tenants = map f db.tenants })

abbrev pub everywhere : Uuid → Bool
everywhere t = true

pub IsValid-Invariant : Invariant everywhere IsValid
IsValid-Invariant = record {
  adds_tenant = λ row db _. add_tenant-IsValid row db;
  adds_user = add_user-IsValid;
  adds_membership = λ row db _. add_membership-IsValid row db;
  adds_audit_event = add_audit_event-IsValid;
  updates_tenant = λ t f db i s _. update_tenant-IsValid t f db i s;
  deletes_tenant = λ t db _. delete_tenant_row-IsValid t db;
  deletes_membership = λ t u db _. delete_membership_row-IsValid t u db;
  deletes_secret = λ t n db _. delete_secret_row-IsValid t n db;
}

pub IsValid-SecretInvariant : SecretInvariant everywhere IsValid
IsValid-SecretInvariant = record {
  adds_secret = λ row db _. add_secret-IsValid row db;
  adds_dek = λ row db _. add_dek-IsValid row db;
  updates_secret = λ t n f db k _. update_secret-IsValid t n f db k;
}

pub IsValid-SweepInvariant : SweepInvariant IsValid
IsValid-SweepInvariant = record { maps_tenants = map_tenants-IsValid }
