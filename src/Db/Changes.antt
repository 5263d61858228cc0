-- ===== src/Db/Changes.antt =====
-- Updates and deletions of rows keep the constraints of src/octw/db/tables.py.
use octw.Prelude.{
  Text, sym, subst, ap, true, List, [], ◌∷◌, map, ◌&&◌, ◌==◌, nat_eq, text_eq, pair_eq, has, keep,
  ◌≡◌, arith, Distinct, Distinct-keep, map-update_where, map-map, not, All-weaken, All-keep,
  All-keep_where, All-update,
}
use octw.Models.Tenant.{Uuid}
use octw.Db.Rows.{Db, TenantRow, SecretRow}
use octw.Db.Statements.{
  tenant_id_of, slug_of, uq_membership, uq_tenant_secret, dek_tenant_of, tenant_exists,
  update_tenant, update_secret, delete_tenant_row, delete_membership_row, delete_secret_row,
}
use octw.Db.Constraints.{IsValid}

-- A tenant stays when another one is deleted.
has-keep_other :
    (t u : Uuid) (rows : List TenantRow)
    → not (u == t) ≡ true
    → has u (map tenant_id_of rows) ≡ true
    → has u (map tenant_id_of (keep (λ r. not (r.tenant_id == t)) rows)) ≡ true
unfolding has keep
has-keep_other t u [] n h = cc
has-keep_other t u (r ∷ rows) n h = ground (arith, has-keep_other t u rows)

-- An update keeps the invariant if it leaves the columns of the keys alone.
pub update_tenant-IsValid :
    (t : Uuid) (f : TenantRow → TenantRow) (db : Db)
    → ((r : TenantRow) → (f r).tenant_id ≡ r.tenant_id)
    → ((r : TenantRow) → (f r).slug ≡ r.slug)
    → IsValid db
    → IsValid (update_tenant t f db)
unfolding update_tenant
update_tenant-IsValid t f db same_id same_slug v =
    let ids = map-update_where tenant_id_of (λ r. r.tenant_id == t) f db.tenants same_id in
    let slugs = map-update_where slug_of (λ r. r.tenant_id == t) f db.tenants same_slug in
    let stays =
      λ (u : Uuid) (e : tenant_exists u db ≡ true). subst (λ ks. has u ks ≡ true) (sym ids) e in
    record {
      tenant_ids = subst Distinct (sym ids) v.tenant_ids;
      slugs = subst Distinct (sym slugs) v.slugs;
      user_ids = v.user_ids;
      emails = v.emails;
      membership_keys = v.membership_keys;
      secret_keys = v.secret_keys;
      dek_keys = v.dek_keys;
      membership_tenants = All-weaken db.memberships (λ m. stays m.tenant_id) v.membership_tenants;
      membership_users = v.membership_users;
      secret_tenants = All-weaken db.secrets (λ s. stays s.tenant_id) v.secret_tenants;
      dek_tenants = All-weaken db.deks (λ k. stays k.tenant_id) v.dek_tenants;
    }

pub update_secret-IsValid :
    (t : Uuid) (n : Text) (f : SecretRow → SecretRow) (db : Db)
    → ((r : SecretRow) → uq_tenant_secret (f r) ≡ uq_tenant_secret r)
    → IsValid db
    → IsValid (update_secret t n f db)
unfolding update_secret
update_secret-IsValid t n f db same v =
    let keys =
      map-update_where uq_tenant_secret (λ r. r.tenant_id == t && r.name == n) f db.secrets same in
    record {
      tenant_ids = v.tenant_ids;
      slugs = v.slugs;
      user_ids = v.user_ids;
      emails = v.emails;
      membership_keys = v.membership_keys;
      secret_keys = subst Distinct (sym keys) v.secret_keys;
      dek_keys = v.dek_keys;
      membership_tenants = v.membership_tenants;
      membership_users = v.membership_users;
      secret_tenants =
          All-update (λ s. tenant_exists s.tenant_id db ≡ true) _ f db.secrets
            (λ r _ h. rw (ap (λ (k : Uuid × Text). k.0) (same r)) h) v.secret_tenants;
      dek_tenants = v.dek_tenants;
    }

-- Deleting a tenant takes its memberships, secrets and key with it, so no reference dangles.
pub delete_tenant_row-IsValid : (t : Uuid) (db : Db) → IsValid db → IsValid (delete_tenant_row t db)
unfolding delete_tenant_row
delete_tenant_row-IsValid t db v =
    let stays = λ (u : Uuid) (n : not (u == t) ≡ true) (e : tenant_exists u db ≡ true).
      has-keep_other t u db.tenants n e in
    record {
      tenant_ids = Distinct-keep tenant_id_of _ db.tenants v.tenant_ids;
      slugs = Distinct-keep slug_of _ db.tenants v.slugs;
      user_ids = v.user_ids;
      emails = v.emails;
      membership_keys = Distinct-keep uq_membership _ db.memberships v.membership_keys;
      secret_keys = Distinct-keep uq_tenant_secret _ db.secrets v.secret_keys;
      dek_keys = Distinct-keep dek_tenant_of _ db.deks v.dek_keys;
      membership_tenants =
          All-keep_where _ _ _ db.memberships (λ m. stays m.tenant_id) v.membership_tenants;
      membership_users = All-keep _ _ db.memberships v.membership_users;
      secret_tenants = All-keep_where _ _ _ db.secrets (λ s. stays s.tenant_id) v.secret_tenants;
      dek_tenants = All-keep_where _ _ _ db.deks (λ k. stays k.tenant_id) v.dek_tenants;
    }

pub delete_membership_row-IsValid :
    (t u : Uuid) (db : Db) → IsValid db → IsValid (delete_membership_row t u db)
unfolding delete_membership_row
delete_membership_row-IsValid t u db v = record {
  tenant_ids = v.tenant_ids;
  slugs = v.slugs;
  user_ids = v.user_ids;
  emails = v.emails;
  membership_keys = Distinct-keep uq_membership _ db.memberships v.membership_keys;
  secret_keys = v.secret_keys;
  dek_keys = v.dek_keys;
  membership_tenants = All-keep _ _ db.memberships v.membership_tenants;
  membership_users = All-keep _ _ db.memberships v.membership_users;
  secret_tenants = v.secret_tenants;
  dek_tenants = v.dek_tenants;
}

pub delete_secret_row-IsValid :
    (t : Uuid) (n : Text) (db : Db) → IsValid db → IsValid (delete_secret_row t n db)
unfolding delete_secret_row
delete_secret_row-IsValid t n db v = record {
  tenant_ids = v.tenant_ids;
  slugs = v.slugs;
  user_ids = v.user_ids;
  emails = v.emails;
  membership_keys = v.membership_keys;
  secret_keys = Distinct-keep uq_tenant_secret _ db.secrets v.secret_keys;
  dek_keys = v.dek_keys;
  membership_tenants = v.membership_tenants;
  membership_users = v.membership_users;
  secret_tenants = All-keep _ _ db.secrets v.secret_tenants;
  dek_tenants = v.dek_tenants;
}

-- A change of the rows of tenants keeps the invariant if it leaves the columns of the keys alone.
pub map_tenants-IsValid :
    (f : TenantRow → TenantRow) (db : Db)
    → ((r : TenantRow) → (f r).tenant_id ≡ r.tenant_id)
    → ((r : TenantRow) → (f r).slug ≡ r.slug)
    → IsValid db
    → IsValid (record db { tenants = map f db.tenants })
map_tenants-IsValid f db same_id same_slug v =
    let ids = map-map tenant_id_of f db.tenants same_id in
    let slugs = map-map slug_of f db.tenants same_slug in
    let stays =
      λ (u : Uuid) (e : tenant_exists u db ≡ true). subst (λ ks. has u ks ≡ true) (sym ids) e in
    record {
      tenant_ids = subst Distinct (sym ids) v.tenant_ids;
      slugs = subst Distinct (sym slugs) v.slugs;
      user_ids = v.user_ids;
      emails = v.emails;
      membership_keys = v.membership_keys;
      secret_keys = v.secret_keys;
      dek_keys = v.dek_keys;
      membership_tenants = All-weaken db.memberships (λ m. stays m.tenant_id) v.membership_tenants;
      membership_users = v.membership_users;
      secret_tenants = All-weaken db.secrets (λ s. stays s.tenant_id) v.secret_tenants;
      dek_tenants = All-weaken db.deks (λ k. stays k.tenant_id) v.dek_tenants;
    }
