-- ===== src/Tenants/Keeps.antt =====
-- Every method of src/octw/orchestrator/tenant_service.py keeps each invariant of the database,
-- whatever it ends with.
use octw.Prelude.{Bool, true, ℕ, Text, Option, none, some, List, ◌≡◌, refl, arith}
use octw.Exec.{Op}
use octw.Config.{Settings}
use octw.Models.Tenant.{Uuid, Time, Role, TenantCreate, ContainerState}
use octw.Models.Secret.{AuditAction}
use octw.Platform.{Platform}
use octw.Db.{Db, Session, TenantRow, UserRow, MembershipRow, Invariant}
use octw.Vault.Envelope.{Crypto}
use octw.Vault.Keeps.{VaultInvariant}
use octw.World.{World}
use octw.Tenants.Rows.{
  set_deleting, set_stopped, set_paused, set_woken, set_active, update_row, emit_audit, new_row,
}
use octw.Tenants.Members.{
  ensure_membership, create_user, id_or_create, add_member, remove_found_member, remove_member,
}
use octw.Tenants.Service.{
  add_creator, create_tenant, delete_found, delete_tenant, start_tenant, stop_tenant, pause_tenant,
  touch_activity, wake_from, wake_tenant,
}

module _ {scope : Uuid → Bool} {P : Db → Type 0} (inv : Invariant scope P) where
  pub update_row-keeps :
      (t : Uuid) (f : Time → TenantRow → TenantRow) (s : Session)
      → ((now : Time) (r : TenantRow) → (f now r).tenant_id ≡ r.tenant_id)
      → ((now : Time) (r : TenantRow) → (f now r).slug ≡ r.slug)
      → scope t ≡ true
      → P s.db
      → P (update_row t f s).1.db
  unfolding update_row
  update_row-keeps t f s same_id same_slug i v =
      inv.updates_tenant t (f s.now) s.db (same_id s.now) (same_slug s.now) i v

  module _ (c : Crypto) where
    pub emit_audit-keeps :
        (a : AuditAction) (t u : Option Uuid) (d : Option (List (Text × Text))) (s : Session)
        → P s.db
        → P (emit_audit c a t u d s).1.db
    unfolding emit_audit
    emit_audit-keeps a t u d s v =
        inv.adds_audit_event
          (record {
            event_id = c.uuid4 s.draws;
            tenant_id = t;
            user_id = u;
            action = a;
            detail = d;
            created_at = s.now;
          })
          s.db v

    ensure_membership-keeps :
        (t u : Uuid) (r : Role) (s : Session)
        → scope t ≡ true
        → P s.db
        → P (ensure_membership c t u r s).1.db
    unfolding ensure_membership
    ensure_membership-keeps t u r s i v =
        inv.adds_membership
          (record {
            membership_id = c.uuid4 s.draws;
            tenant_id = t;
            user_id = u;
            role = r;
            created_at = s.now;
          })
          s.db i v

    id_or_create-keeps :
        (e : Text) (o : Option UserRow) (s : Session) → P s.db → P (id_or_create c e o s).1.db
    unfolding id_or_create create_user
    id_or_create-keeps e none s v = ground (
      arith,
      inv.adds_user (record { user_id = c.uuid4 s.draws; email = e; created_at = s.now }) s.db v,
    )
    id_or_create-keeps e (some u) s v = v

    pub add_member-keeps :
        (t : Uuid) (e : Text) (r : Role) (a : Option Uuid) (s : Session)
        → scope t ≡ true
        → P s.db
        → P (add_member c t e r a s).1.db
    unfolding add_member
    add_member-keeps t e r a s i v =
        grind (arith, id_or_create-keeps, ensure_membership-keeps, emit_audit-keeps)

    remove_found-keeps :
        (t u : Uuid) (a : Option Uuid) (o : Option MembershipRow) (s : Session)
        → scope t ≡ true
        → P s.db
        → P (remove_found_member c t u a o s).1.db
    unfolding remove_found_member
    remove_found-keeps t u a none s i v = v
    remove_found-keeps t u a (some r) s i v =
        emit_audit-keeps _ _ _ _ _ (inv.deletes_membership t u s.db i v)

    pub remove_member-keeps :
        (t u : Uuid) (a : Option Uuid) (s : Session)
        → scope t ≡ true
        → P s.db
        → P (remove_member c t u a s).1.db
    unfolding remove_member
    remove_member-keeps t u a s i v = grind (arith, remove_found-keeps)

  module _ {D : Type 0} (p : Platform D) (c : Crypto) (kek : Text) (settings : Settings) where
    abbrev Kept : {A : Type 0} → Op (World D) A → Type 0
    Kept m = (w : World D) → P w.session.db → P (m w).1.session.db

    add_creator-keeps :
        (t : Uuid) (o : Option Uuid) (s : Session)
        → scope t ≡ true
        → P s.db
        → P (add_creator p c kek settings t o s).1.db
    unfolding add_creator
    add_creator-keeps t none s i v = v
    add_creator-keeps t (some u) s i v = ensure_membership-keeps c t u _ s i v

    pub create_tenant-keeps :
        (req : TenantCreate) (u : Option Uuid)
        → ((n : ℕ) → scope (c.uuid4 n) ≡ true)
        → Kept (create_tenant p c kek settings req u)
    unfolding create_tenant new_row
    create_tenant-keeps req u i w v =
        let fresh = i w.session.draws in
        grind (arith, inv.adds_tenant, update_row-keeps, emit_audit-keeps, add_creator-keeps)

    pub stop_tenant-keeps : (t : Uuid) → scope t ≡ true → Kept (stop_tenant p c kek settings t)
    unfolding stop_tenant
    stop_tenant-keeps t i w v = grind (
      arith,
      emit_audit-keeps,
      update_row-keeps t set_stopped w.session (λ _ _. refl) (λ _ _. refl) i,
    )

    pub pause_tenant-keeps : (t : Uuid) → scope t ≡ true → Kept (pause_tenant p c kek settings t)
    unfolding pause_tenant
    pause_tenant-keeps t i w v = grind (
      arith,
      emit_audit-keeps,
      update_row-keeps t set_paused w.session (λ _ _. refl) (λ _ _. refl) i,
    )

    pub touch_activity-keeps :
        (t : Uuid) → scope t ≡ true → Kept (touch_activity p c kek settings t)
    unfolding touch_activity
    touch_activity-keeps t i w v =
        update_row-keeps t set_active w.session (λ _ _. refl) (λ _ _. refl) i v

    delete_found-keeps :
        (t : Uuid) (u : Option Uuid) (o : Option TenantRow)
        → scope t ≡ true
        → Kept (delete_found p c kek settings t u o)
    unfolding delete_found
    delete_found-keeps t u none i w v = v
    delete_found-keeps t u (some r) i w v = grind (
      arith,
      emit_audit-keeps,
      inv.deletes_tenant,
      update_row-keeps t set_deleting w.session (λ _ _. refl) (λ _ _. refl) i,
    )

    pub delete_tenant-keeps :
        (t : Uuid) (u : Option Uuid) → scope t ≡ true → Kept (delete_tenant p c kek settings t u)
    unfolding delete_tenant
    delete_tenant-keeps t u i w v = delete_found-keeps t u _ i w v

    module _ (vault : VaultInvariant scope c kek P) where
      pub start_tenant-keeps : (t : Uuid) → scope t ≡ true → Kept (start_tenant p c kek settings t)
      unfolding start_tenant
      start_tenant-keeps t i w v = grind (arith, vault.decrypts, update_row-keeps, emit_audit-keeps)

      wake_from-keeps :
          (t : Uuid) (s : ContainerState) → scope t ≡ true → Kept (wake_from p c kek settings t s)
      unfolding wake_from
      wake_from-keeps t ContainerState.running i w v = grind (arith, touch_activity-keeps t i)
      wake_from-keeps t ContainerState.paused i w v = grind (
        arith,
        emit_audit-keeps,
        update_row-keeps t set_woken w.session (λ _ _. refl) (λ _ _. refl) i,
      )
      wake_from-keeps t _ i w v = start_tenant-keeps t i w v

      pub wake_tenant-keeps : (t : Uuid) → scope t ≡ true → Kept (wake_tenant p c kek settings t)
      unfolding wake_tenant
      wake_tenant-keeps t i w v = grind (arith, wake_from-keeps)
