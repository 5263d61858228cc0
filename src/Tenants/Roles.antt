-- ===== src/Tenants/Roles.antt =====
-- src/octw/orchestrator/tenant_service.py: the members of tenants as a map from a tenant and a user to
-- a role.
use octw.Prelude.{
  not-true, Text, Bool, true, false, Option, none, some, map, ◌≡◌, refl, arith, ◌==◌, nat_eq,
  pair_eq, nat_beq_iff, ◌&&◌, ◌||◌, not, has, find, keep, find-append, find-keep, find-keep-none,
  if◌then◌else◌, Bool-cases, inl, inr,
}
use octw.Exec.{ok, continue, Result-cases}
use octw.Models.Tenant.{Uuid, Role, Member}
use octw.Db.{
  Db, Session, MembershipRow, UserRow, uq_membership, tenant_exists, user_exists, add_membership,
  add_user, add_audit_event, delete_membership_row, memberships_of, users_by_email, found-one,
  scalar_one_or_none, find-none,
}
use octw.Vault.Envelope.{Crypto}
use octw.Tenants.Rows.{emit_audit}
use octw.Tenants.Members.{
  role_of, ensure_membership, create_user, id_or_create, add_member, remove_member,
  remove_found_member,
}

-- The role of a user in a tenant, if there is one.
abbrev pub role_in : Uuid → Uuid → Db → Option Role
role_in t u db = role_of (find (λ m. m.tenant_id == t && m.user_id == u) db.memberships)

abbrev of_key : Uuid → Uuid → MembershipRow → Bool
of_key t u m = m.tenant_id == t && m.user_id == u

of_key-other :
    (t u t' u' : Uuid) (m : MembershipRow)
    → (t == t' && u == u') ≡ false
    → of_key t' u' m ≡ true
    → of_key t u m ≡ false
of_key-other t u t' u' m d h = ground (
  arith,
  nat_beq_iff m.tenant_id t,
  nat_beq_iff m.tenant_id t',
  nat_beq_iff t t',
  nat_beq_iff m.user_id u,
  nat_beq_iff m.user_id u',
  nat_beq_iff u u',
)

-- The constraints that a new membership may not meet.
abbrev refuses : MembershipRow → Db → Bool
refuses row db =
    has (uq_membership row) (map uq_membership db.memberships)
    || not (tenant_exists row.tenant_id db && user_exists row.user_id db)

module _ (row : MembershipRow) (db : Db) where
  -- A membership that is added is new.
  add_membership-role_in :
      (t u : Uuid)
      → (add_membership row db).0 ≡ ok tt
      → role_in t u (add_membership row db).1
        ≡ (if row.tenant_id == t && row.user_id == u then some row.role else role_in t u db)
  unfolding add_membership
  add_membership-role_in t u h = elim (Bool-cases (refuses row db)) [
    | inl e ↦ absurd (ground arith)
    | inr e ↦
        let new : has (uq_membership row) (map uq_membership db.memberships) ≡ false =
          ground arith in
        let gone = find-none uq_membership (uq_membership row) db.memberships new in
        elim (Bool-cases (of_key t u row)) [
          | inl same ↦
              let et : row.tenant_id ≡ t = ground (arith, nat_beq_iff row.tenant_id t) in
              let eu : row.user_id ≡ u = ground (arith, nat_beq_iff row.user_id u) in
              let absent : find (of_key t u) db.memberships ≡ none = rw (← et, ← eu) gone in
              ground (arith, e, same, absent, find-append (of_key t u) db.memberships row)
          | inr other ↦ ground (arith, e, other, find-append (of_key t u) db.memberships row)
        ]
  ]

module _ (c : Crypto) where
  ensure_membership-role_in :
      (t x : Uuid) (role : Role) (s : Session) (u v : Uuid)
      → (ensure_membership c t x role s).0 ≡ ok tt
      → role_in u v (ensure_membership c t x role s).1.db
        ≡ (if t == u && x == v then some role else role_in u v s.db)
  unfolding ensure_membership
  ensure_membership-role_in t x role s u v h =
      add_membership-role_in
        (record {
          membership_id = c.uuid4 s.draws;
          tenant_id = t;
          user_id = x;
          role = role;
          created_at = s.now;
        })
        s.db u v h

  id_or_create-role_in :
      (email : Text) (o : Option UserRow) (s : Session) (u v : Uuid)
      → role_in u v (id_or_create c email o s).1.db ≡ role_in u v s.db
  unfolding id_or_create create_user add_user
  id_or_create-role_in email none s u v = ground arith
  id_or_create-role_in email (some r) s u v = refl

  -- A member whom `add_member` reports as added has the role, and no other role of any user in any
  -- tenant changes.
  pub add_member-role_in :
      (t : Uuid) (email : Text) (role : Role) (actor : Option Uuid) (s : Session) (m : Member)
      (u v : Uuid)
      → (add_member c t email role actor s).0 ≡ ok m
      → role_in u v (add_member c t email role actor s).1.db
        ≡ (if t == u && m.user_id == v then some role else role_in u v s.db)
  unfolding add_member emit_audit add_audit_event
  add_member-role_in t email role actor s m u v h =
      elim (Result-cases (scalar_one_or_none (users_by_email email s.db))) [
        | inl (o, q) ↦ elim (Result-cases (id_or_create c email o s).0) [
          | inl (x, a) ↦
              let s1 = (id_or_create c email o s).1 in
              elim (Result-cases (ensure_membership c t x role s1).0) [
                | inl (done, b) ↦ ground (
                  arith,
                  q,
                  a,
                  b,
                  ensure_membership-role_in t x role s1 u v b,
                  id_or_create-role_in email o s u v,
                )
                | inr (e, b) ↦ absurd (ground arith)
              ]
          | inr (e, a) ↦ absurd (ground arith)
        ]
        | inr (e, q) ↦ absurd (ground arith)
      ]

  same-key : (t u t' u' : Uuid) → (t == t' && u == u') ≡ true → (t ≡ t') × (u ≡ u')
  same-key t u t' u' h = ground (arith, nat_beq_iff t t', nat_beq_iff u u')

  removed-role_in :
      (t x : Uuid) (actor : Option Uuid) (s : Session) (u v : Uuid) (o : Option MembershipRow)
      → find (of_key t x) s.db.memberships ≡ o
      → role_in u v (remove_found_member c t x actor o s).1.db
        ≡ (if t == u && x == v then none else role_in u v s.db)
  unfolding remove_found_member emit_audit add_audit_event delete_membership_row
  removed-role_in t x actor s u v none f = elim (Bool-cases (t == u && x == v)) [
    | inl same ↦ let (et, ex) = same-key t x u v same in rw (same, ← et, ← ex, f)
    | inr other ↦ rw other
  ]
  removed-role_in t x actor s u v (some r) f = elim (Bool-cases (t == u && x == v)) [
    | inl same ↦
        let (et, ex) = same-key t x u v same in
        rw (
          same,
          ← et,
          ← ex,
          find-keep-none (λ m. not (of_key t x m)) (of_key t x) s.db.memberships
              (λ m h. not-true (of_key t x m) h),
        )
    | inr other ↦ rw (
      other,
      find-keep (λ m. not (of_key t x m)) (of_key u v) s.db.memberships
          (λ m h. rw (of_key-other t x u v m other h)),
    )
  ]

  -- After `remove_member` returns the user has no role in the tenant, and no other role changes.
  pub remove_member-role_in :
      (t x : Uuid) (actor : Option Uuid) (s : Session) (u v : Uuid)
      → (remove_member c t x actor s).0 ≡ ok tt
      → role_in u v (remove_member c t x actor s).1.db
        ≡ (if t == u && x == v then none else role_in u v s.db)
  unfolding remove_member memberships_of
  remove_member-role_in t x actor s u v h =
      elim (Result-cases (scalar_one_or_none (keep (of_key t x) s.db.memberships))) [
        | inl (o, q) ↦
            rw (q, continue) (removed-role_in t x actor s u v o (found-one _ s.db.memberships o q))
        | inr (e, q) ↦ absurd (ground arith)
      ]
