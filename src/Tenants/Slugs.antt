-- ===== src/Tenants/Slugs.antt =====
-- src/octw/orchestrator/tenant_service.py: `wake_tenant` leaves the slug of every tenant as it is, so
-- that a slug names the same tenant before and after.
use octw.Prelude.{
  Option, update_where, Text, List, [], ◌∷◌, ◌≡◌, refl, arith, map, keep, ◌==◌, nat_eq, text_eq,
  Bool,
}
use octw.Config.{Settings}
use octw.Models.Tenant.{Uuid, Time, ContainerState}
use octw.Platform.{Platform}
use octw.Db.{
  tenant_by_id, Db, Session, TenantRow, scalar_one_or_none, tenants_by_slug, update_tenant,
}
use octw.Vault.Envelope.{Crypto}
use octw.Vault.Service.{get_decrypted_secrets, ensure_tenant_dek, unwrap_or_create, create_dek}
use octw.World.{World}
use octw.Tenants.Rows.{update_row, emit_audit, set_started, set_woken, set_active}
use octw.Tenants.Service.{wake_tenant, wake_from, start_tenant, touch_activity}

-- The columns that a slug is resolved by, and the provider.
abbrev pub Key : Type 0
Key = Text × Uuid × Option Text

abbrev pub key_of : TenantRow → Key
key_of r = (r.slug, r.tenant_id, r.provider)

abbrev pub keys : Session → List Key
keys s = map key_of s.db.tenants

pub keep-map {ℓ κ} :
    {A : Type ℓ} {B : Type κ} (f : A → B) (q : B → Bool) (xs : List A)
    → keep q (map f xs) ≡ map f (keep (λ x. q (f x)) xs)
unfolding keep
keep-map f q [] = refl
keep-map f q (x ∷ xs) = ground (arith, keep-map f q xs)

pub map-update_keys :
    (q : TenantRow → Bool) (f : TenantRow → TenantRow) (rows : List TenantRow)
    → ((r : TenantRow) → key_of (f r) ≡ key_of r)
    → map key_of (update_where q f rows) ≡ map key_of rows
unfolding update_where
map-update_keys q f [] h = refl
map-update_keys q f (r ∷ rows) h = ground (arith, h r, map-update_keys q f rows h)

-- The keys after each write of `wake_tenant`.
pub update_row-keys :
    (t : Uuid) (f : Time → TenantRow → TenantRow) (s : Session)
    → ((now : Time) (r : TenantRow) → key_of (f now r) ≡ key_of r)
    → keys (update_row t f s).1 ≡ keys s
unfolding update_row update_tenant
update_row-keys t f s h = map-update_keys (λ r. r.tenant_id == t) (f s.now) s.db.tenants (h s.now)

module _ (c : Crypto) (kek : Text) where
  pub ensure_tenant_dek-keys :
      (t : Uuid) (s : Session) → keys (ensure_tenant_dek c kek t s).1 ≡ keys s
  unfolding ensure_tenant_dek unwrap_or_create create_dek octw.Db.dek_of octw.Db.add_dek
  ensure_tenant_dek-keys t s = ground arith

  pub get_decrypted_secrets-keys :
      (t : Uuid) (s : Session) → keys (get_decrypted_secrets c kek t s).1 ≡ keys s
  unfolding get_decrypted_secrets
  get_decrypted_secrets-keys t s = ground (arith, ensure_tenant_dek-keys t s)

module _ {D : Type 0} (p : Platform D) (c : Crypto) (kek : Text) (settings : Settings)
    (t : Uuid) where
  pub start_tenant-keys :
      (w : World D) → keys (start_tenant p c kek settings t w).1.session ≡ keys w.session
  unfolding start_tenant emit_audit octw.Db.add_audit_event
  start_tenant-keys w = grind (
    arith,
    get_decrypted_secrets-keys c kek t w.session,
    λ (id : Text) (s : Session). update_row-keys t (λ now. set_started now id) s (λ now r. refl),
  )

  wake_from-keys :
      (s : ContainerState) (w : World D)
      → keys (wake_from p c kek settings t s w).1.session ≡ keys w.session
  unfolding wake_from touch_activity emit_audit octw.Db.add_audit_event update_row
  wake_from-keys ContainerState.running w = update_row-keys t set_active w.session (λ now r. refl)
  wake_from-keys ContainerState.paused w =
      grind (arith, update_row-keys t set_woken w.session (λ now r. refl))
  wake_from-keys ContainerState.stopped w = start_tenant-keys w
  wake_from-keys ContainerState.error w = start_tenant-keys w
  wake_from-keys ContainerState.not_found w = start_tenant-keys w

  pub wake_tenant-keys :
      (w : World D) → keys (wake_tenant p c kek settings t w).1.session ≡ keys w.session
  unfolding wake_tenant
  wake_tenant-keys w = grind (arith, wake_from-keys)
