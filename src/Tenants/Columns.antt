-- ===== src/Tenants/Columns.antt =====
-- src/octw/orchestrator/tenant_service.py: the slug and the provider in the row of a tenant that is
-- created and started.
use octw.Prelude.{
  codes, subst, some, none, false, has, find-passes, find-update_where, find-append, changed,
  nat_beq_iff, inl, inr, Option-cases, Option, find, Option-cases, inl, inr, ◌∙◌, ap, sym, Text,
  List, [], ◌∷◌, ◌≡◌, refl, arith, map, ◌==◌, nat_eq, text_eq,
}
use octw.Exec.{Op, pure, ok, continue, Result-cases, ◌>>=◌, ◌>>◌}
use octw.Config.{Settings}
use octw.Models.Tenant.{Uuid, Time, Tenant, TenantCreate, TenantStatus}
use octw.Models.Secret.{tenant_create}
use octw.Orchestrator.Dirs.{create_tenant_dirs}
use octw.Orchestrator.Networks.{create_network}
use octw.Tenants.Members.{ensure_membership}
use octw.Platform.{Platform}
use octw.Db.{
  add_membership, add_audit_event, find-none, tenant_id_of, add_tenant, tenant_by_id, Session,
  TenantRow, update_tenant,
}
use octw.Vault.Envelope.{Crypto, uuid4}
use octw.World.{World, in_session, in_machine}
use octw.Tenants.Rows.{update_row, row_to_tenant, new_row, set_created, emit_audit}
use octw.Tenants.Service.{add_creator, create_tenant}
use octw.Tenants.Slugs.{Key, key_of, keys, update_row-keys}

abbrev mapped : Option TenantRow → Option Key
mapped none = none
mapped (some r) = some (key_of r)

-- The key of a tenant's row is found among the keys.
find-key_of :
    (t : Uuid) (rows : List TenantRow)
    → mapped (find (λ r. r.tenant_id == t) rows) ≡ find (λ k. k.1 == t) (map key_of rows)
unfolding find
find-key_of t [] = refl
find-key_of t (r ∷ rows) = ground (arith, find-key_of t rows)

pub some-inj : (x y : Key) → some x ≡ some y → x ≡ y
some-inj x y h = cc

-- The row of a tenant has this slug and provider.
abbrev pub HasRow : Uuid → Text → Option Text → Session → Type 0
HasRow t slug provider s = mapped (tenant_by_id t s.db) ≡ some (slug, t, provider)

pub HasRow-keys :
    (t : Uuid) (slug : Text) (provider : Option Text) (s s' : Session)
    → keys s' ≡ keys s
    → HasRow t slug provider s
    → HasRow t slug provider s'
unfolding tenant_by_id
HasRow-keys t slug provider s s' e h =
    find-key_of t s'.db.tenants ∙ ap (find (λ k. k.1 == t)) e ∙ sym (find-key_of t s.db.tenants) ∙ h

-- A row that is updated.
pub update_row-HasRow :
    (t : Uuid) (slug : Text) (o provider : Option Text) (f : Time → TenantRow → TenantRow)
    (s : Session)
    → ((now : Time) (r : TenantRow) → key_of (f now r) ≡ (r.slug, r.tenant_id, provider))
    → HasRow t slug o s
    → HasRow t slug provider (update_row t f s).1
unfolding update_row tenant_by_id update_tenant
update_row-HasRow t slug o provider f s h k =
    elim (Option-cases (find (λ r. r.tenant_id == t) s.db.tenants)) [
      | inl e ↦ absurd (ground arith)
      | inr (r, e) ↦
          let passes = find-passes (λ r. r.tenant_id == t) s.db.tenants e in
          let same : (x : TenantRow) → ((f s.now x).tenant_id == t) ≡ (x.tenant_id == t) =
            λ x. ap (λ (j : Key). j.1 == t) (h s.now x) in
          let after =
            find-update_where (λ r. r.tenant_id == t) (λ r. r.tenant_id == t) (f s.now) s.db.tenants
              same in
          let key : key_of r ≡ (slug, t, o) = some-inj (key_of r) (slug, t, o) (rw e at k) in
          let written : mapped (some (f s.now r)) ≡ some (slug, t, provider) =
            ap some (h s.now r ∙ ap (λ (j : Key). (j.0, j.1, provider)) key) in
          ap mapped (after ∙ ap (changed (λ r. r.tenant_id == t) (f s.now)) e) ∙ rw passes written
    ]

-- The row that has been added is found under its key.
added-HasRow :
    (row : TenantRow) (s : Session)
    → (add_tenant row s.db).0 ≡ ok tt
    → HasRow row.tenant_id row.slug row.provider (record s { db = (add_tenant row s.db).1 })
unfolding add_tenant tenant_by_id
added-HasRow row s h =
    let t = row.tenant_id in
    let absent : has t (map tenant_id_of s.db.tenants) ≡ false = ground arith in
    let before = find-none tenant_id_of t s.db.tenants absent in
    let appended = find-append (λ r. r.tenant_id == t) s.db.tenants row in
    ground (arith, before, appended, nat_beq_iff t t)

module _ {D : Type 0} (p : Platform D) (c : Crypto) (kek : Text) (settings : Settings) where
  add_creator-keys :
      (t : Uuid) (o : Option Uuid) (s : Session)
      → keys (add_creator p c kek settings t o s).1 ≡ keys s
  unfolding add_creator ensure_membership add_membership
  add_creator-keys t none s = refl
  add_creator-keys t (some u) s = ground arith

  -- `create_tenant` once the row is added.
  abbrev furnish : TenantCreate → Option Uuid → TenantRow → Op (World D) Tenant
  furnish req creator row = do
    in_machine (create_tenant_dirs p settings row.tenant_id)
    network_id ← in_machine (create_network p row.tenant_id)
    in_session (update_row row.tenant_id (λ t. set_created t network_id))
    in_session (
        emit_audit c tenant_create (some row.tenant_id) creator
          (some ((codes "slug", req.slug) ∷ [])))
    in_session (add_creator p c kek settings row.tenant_id creator)
    pure
        (record (row_to_tenant row) { status = TenantStatus.stopped; network_id = some network_id })

  furnish-keys :
      (req : TenantCreate) (creator : Option Uuid) (row : TenantRow) (w : World D)
      → keys (furnish req creator row w).1.session ≡ keys w.session
  unfolding emit_audit add_audit_event
  furnish-keys req creator row w = grind (
    arith,
    add_creator-keys,
    λ (n : Text) (s : Session).
        update_row-keys row.tenant_id (λ now. set_created now n) s (λ now r. refl),
  )

  furnish-id :
      (req : TenantCreate) (creator : Option Uuid) (row : TenantRow) (w : World D) (tenant : Tenant)
      → (furnish req creator row w).0 ≡ ok tenant
      → tenant.tenant_id ≡ row.tenant_id
  unfolding row_to_tenant
  furnish-id req creator row w tenant h = grind arith

  -- A tenant that has been created has a row with its slug, and no provider yet.
  pub create_tenant-HasRow :
      (req : TenantCreate) (creator : Option Uuid) (w : World D) (tenant : Tenant)
      → let (r, w') = create_tenant p c kek settings req creator w in
        r ≡ ok tenant → HasRow tenant.tenant_id req.slug none w'.session
  unfolding create_tenant new_row
  create_tenant-HasRow req creator w tenant h =
      let s1 = (uuid4 c w.session).1 in
      let row = new_row settings (c.uuid4 w.session.draws) w.session.now req in
      elim (Result-cases (add_tenant row s1.db).0) [
        | inl (u, q) ↦
            let w2 : World D = record w { session = record s1 { db = (add_tenant row s1.db).1 } } in
            let w3 = (furnish req creator row w2).1 in
            let same = furnish-id req creator row w2 tenant (rw (q, continue) at h) in
            rw (q, continue)
              (subst (λ t. HasRow t req.slug none w3.session) (sym same)
                (HasRow-keys row.tenant_id req.slug none w2.session w3.session
                  (furnish-keys req creator row w2) (added-HasRow row s1 q)))
        | inr (x, q) ↦ absurd (ground arith)
      ]
