-- ===== src/Db/Constraints.antt =====
-- The unique constraints and foreign keys of src/octw/db/tables.py as an invariant, and every row that
-- is added keeps it.
use octw.Prelude.{
  Bool, true, map, ◌&&◌, nat_eq, text_eq, pair_eq, ◌≡◌, arith, Distinct, All, if◌then◌else◌,
  Distinct-add, has-add, false, refl, not, ◌||◌, All-weaken, All-append,
}
use octw.Exec.{⊤, Op, Result, ok, err, integrity_error}
use octw.Models.Tenant.{Uuid}
use octw.Db.Rows.{Db, TenantRow, UserRow, MembershipRow, SecretRow, TenantDekRow, AuditEventRow}
use octw.Db.Statements.{
  tenant_id_of, slug_of, user_id_of, email_of, uq_membership, uq_tenant_secret, dek_tenant_of,
  tenant_exists, user_exists, add_tenant, add_user, add_membership, add_secret, add_dek,
  add_audit_event,
}

pub record IsValid (db : Db) : Type 0 where
  pub tenant_ids : Distinct (map tenant_id_of db.tenants)
  pub slugs : Distinct (map slug_of db.tenants)
  pub user_ids : Distinct (map user_id_of db.users)
  pub emails : Distinct (map email_of db.users)
  pub membership_keys : Distinct (map uq_membership db.memberships)
  pub secret_keys : Distinct (map uq_tenant_secret db.secrets)
  pub dek_keys : Distinct (map dek_tenant_of db.deks)
  pub membership_tenants : All (λ m. tenant_exists m.tenant_id db ≡ true) db.memberships
  pub membership_users : All (λ m. user_exists m.user_id db ≡ true) db.memberships
  pub secret_tenants : All (λ s. tenant_exists s.tenant_id db ≡ true) db.secrets
  pub dek_tenants : All (λ k. tenant_exists k.tenant_id db ≡ true) db.deks

abbrev pub Keeps : {A : Type 0} → Op Db A → Type 0
Keeps m = (db : Db) → IsValid db → IsValid (m db).1

-- A statement that is refused changes nothing.
refused-IsValid :
    (refused : Bool) (db db' : Db)
    → IsValid db
    → (refused ≡ false → IsValid db')
    → IsValid (if◌then◌else◌ {A = Result ⊤ × Db} refused (err integrity_error, db) (ok tt, db')).1
refused-IsValid true db db' v f = v
refused-IsValid false db db' v f = f refl

or-false : (a b : Bool) → (a || b) ≡ false → (a ≡ false) × (b ≡ false)
or-false a b h = ground arith

pub add_tenant-IsValid : (row : TenantRow) → Keeps (add_tenant row)
unfolding add_tenant
add_tenant-IsValid row db v = refused-IsValid _ db _ v λ h.
    let (new_id, new_slug) = or-false _ _ h in
    let stays =
      λ (t : Uuid) (e : tenant_exists t db ≡ true). has-add tenant_id_of db.tenants row t e in
    record {
      tenant_ids = Distinct-add tenant_id_of db.tenants row v.tenant_ids new_id;
      slugs = Distinct-add slug_of db.tenants row v.slugs new_slug;
      user_ids = v.user_ids;
      emails = v.emails;
      membership_keys = v.membership_keys;
      secret_keys = v.secret_keys;
      dek_keys = v.dek_keys;
      membership_tenants = All-weaken db.memberships (λ m. stays m.tenant_id) v.membership_tenants;
      membership_users = v.membership_users;
      secret_tenants = All-weaken db.secrets (λ s. stays s.tenant_id) v.secret_tenants;
      dek_tenants = All-weaken db.deks (λ k. stays k.tenant_id) v.dek_tenants;
    }

pub add_user-IsValid : (row : UserRow) → Keeps (add_user row)
unfolding add_user
add_user-IsValid row db v = refused-IsValid _ db _ v λ h.
    let (new_id, new_email) = or-false _ _ h in
    record {
      tenant_ids = v.tenant_ids;
      slugs = v.slugs;
      user_ids = Distinct-add user_id_of db.users row v.user_ids new_id;
      emails = Distinct-add email_of db.users row v.emails new_email;
      membership_keys = v.membership_keys;
      secret_keys = v.secret_keys;
      dek_keys = v.dek_keys;
      membership_tenants = v.membership_tenants;
      membership_users =
          All-weaken db.memberships (λ m. has-add user_id_of db.users row m.user_id)
            v.membership_users;
      secret_tenants = v.secret_tenants;
      dek_tenants = v.dek_tenants;
    }

not-false : (a b c : Bool) → (a || not (b && c)) ≡ false → (a ≡ false) × (b ≡ true) × (c ≡ true)
not-false a b c h = ground arith

pub add_membership-IsValid : (row : MembershipRow) → Keeps (add_membership row)
unfolding add_membership
add_membership-IsValid row db v = refused-IsValid _ db _ v λ h.
    let (new, tenant, user) = not-false _ _ _ h in
    record {
      tenant_ids = v.tenant_ids;
      slugs = v.slugs;
      user_ids = v.user_ids;
      emails = v.emails;
      membership_keys = Distinct-add uq_membership db.memberships row v.membership_keys new;
      secret_keys = v.secret_keys;
      dek_keys = v.dek_keys;
      membership_tenants = All-append _ db.memberships row v.membership_tenants tenant;
      membership_users = All-append _ db.memberships row v.membership_users user;
      secret_tenants = v.secret_tenants;
      dek_tenants = v.dek_tenants;
    }

or-not-false : (a b : Bool) → (a || not b) ≡ false → (a ≡ false) × (b ≡ true)
or-not-false a b h = ground arith

pub add_secret-IsValid : (row : SecretRow) → Keeps (add_secret row)
unfolding add_secret
add_secret-IsValid row db v = refused-IsValid _ db _ v λ h.
    let (new, tenant) = or-not-false _ _ h in
    record {
      tenant_ids = v.tenant_ids;
      slugs = v.slugs;
      user_ids = v.user_ids;
      emails = v.emails;
      membership_keys = v.membership_keys;
      secret_keys = Distinct-add uq_tenant_secret db.secrets row v.secret_keys new;
      dek_keys = v.dek_keys;
      membership_tenants = v.membership_tenants;
      membership_users = v.membership_users;
      secret_tenants = All-append _ db.secrets row v.secret_tenants tenant;
      dek_tenants = v.dek_tenants;
    }

pub add_dek-IsValid : (row : TenantDekRow) → Keeps (add_dek row)
unfolding add_dek
add_dek-IsValid row db v = refused-IsValid _ db _ v λ h.
    let (new, tenant) = or-not-false _ _ h in
    record {
      tenant_ids = v.tenant_ids;
      slugs = v.slugs;
      user_ids = v.user_ids;
      emails = v.emails;
      membership_keys = v.membership_keys;
      secret_keys = v.secret_keys;
      dek_keys = Distinct-add dek_tenant_of db.deks row v.dek_keys new;
      membership_tenants = v.membership_tenants;
      membership_users = v.membership_users;
      secret_tenants = v.secret_tenants;
      dek_tenants = All-append _ db.deks row v.dek_tenants tenant;
    }

pub add_audit_event-IsValid : (row : AuditEventRow) → Keeps (add_audit_event row)
unfolding add_audit_event
add_audit_event-IsValid row db v = record {
  tenant_ids = v.tenant_ids;
  slugs = v.slugs;
  user_ids = v.user_ids;
  emails = v.emails;
  membership_keys = v.membership_keys;
  secret_keys = v.secret_keys;
  dek_keys = v.dek_keys;
  membership_tenants = v.membership_tenants;
  membership_users = v.membership_users;
  secret_tenants = v.secret_tenants;
  dek_tenants = v.dek_tenants;
}
