-- ===== src/Api/Isolation.antt =====
-- src/octw/api/routers: a request on one tenant against what belongs to another.
use octw.Prelude.{
  Text, Bool, Bool-cases, inl, inr, has, map, ◌||◌, not-true, true, false, List, ◌≡◌, ◌≢◌, refl, ap,
  ◌∙◌, ◌==◌, nat_eq, text_eq, pair_eq, nat_beq_iff, not, ◌&&◌, arith, keep, keep-append, keep-keep,
  keep-update_where,
}
use octw.Config.{Settings}
use octw.Models.Tenant.{Uuid}
use octw.Platform.{Platform}
use octw.Db.{
  Db, UserRow, uq_membership, dek_tenant_of, uq_tenant_secret, tenant_exists, user_exists,
  TenantRow, MembershipRow, SecretRow, TenantDekRow, Invariant, SecretInvariant, add_tenant,
  add_user, add_membership, add_secret, add_dek, add_audit_event, update_tenant, update_secret,
  delete_tenant_row, delete_membership_row, delete_secret_row,
}
use octw.Vault.Envelope.{Crypto}
use octw.Vault.Keeps.{SecretInvariant-VaultInvariant}
use octw.World.{World}
use octw.Api.Guard.{TokenPayload}
use octw.Api.Keeps.{dispatch-keeps}
use octw.Api.Requests.{Request, serve}

-- The rows of a tenant: its own, its members, its secrets and its key.
pub record Belongings : Type 0 where
  pub tenants : List TenantRow
  pub memberships : List MembershipRow
  pub secrets : List SecretRow
  pub deks : List TenantDekRow

abbrev pub belongings : Uuid → Db → Belongings
belongings t db = record {
  tenants = keep (λ r. r.tenant_id == t) db.tenants;
  memberships = keep (λ r. r.tenant_id == t) db.memberships;
  secrets = keep (λ r. r.tenant_id == t) db.secrets;
  deks = keep (λ r. r.tenant_id == t) db.deks;
}

-- Every tenant but this one.
abbrev others : Uuid → Uuid → Bool
others t u = not (u == t)

module _ (t : Uuid) (db : Db) where
  abbrev mine : Belongings
  mine = belongings t db

  add_tenant-others :
      (row : TenantRow) → others t row.tenant_id ≡ true → belongings t (add_tenant row db).1 ≡ mine
  unfolding add_tenant
  add_tenant-others row i = ground (arith, keep-append (λ r. r.tenant_id == t) db.tenants row)

  add_user-others : (row : UserRow) → belongings t (add_user row db).1 ≡ mine
  unfolding add_user
  add_user-others row = ground arith

  add_membership-others :
      (row : MembershipRow)
      → others t row.tenant_id ≡ true
      → belongings t (add_membership row db).1 ≡ mine
  unfolding add_membership
  add_membership-others row i =
      elim (Bool-cases (
        has (uq_membership row) (map uq_membership db.memberships)
        || not (tenant_exists row.tenant_id db && user_exists row.user_id db))) [
          | inl e ↦ rw (e, add_membership) refl
          | inr e ↦
              rw (e, add_membership)
                (ap (λ rows. record mine { memberships = rows })
                  (keep-append (λ r. r.tenant_id == t) db.memberships row (not-true _ i)))
        ]

  add_secret-others :
      (row : SecretRow) → others t row.tenant_id ≡ true → belongings t (add_secret row db).1 ≡ mine
  unfolding add_secret
  add_secret-others row i =
      elim (Bool-cases (
        has (uq_tenant_secret row) (map uq_tenant_secret db.secrets)
        || not (tenant_exists row.tenant_id db))) [
          | inl e ↦ rw (e, add_secret) refl
          | inr e ↦
              rw (e, add_secret)
                (ap (λ rows. record mine { secrets = rows })
                  (keep-append (λ r. r.tenant_id == t) db.secrets row (not-true _ i)))
        ]

  add_dek-others :
      (row : TenantDekRow) → others t row.tenant_id ≡ true → belongings t (add_dek row db).1 ≡ mine
  unfolding add_dek
  add_dek-others row i =
      elim (Bool-cases
        (has row.tenant_id (map dek_tenant_of db.deks) || not (tenant_exists row.tenant_id db))) [
          | inl e ↦ rw (e, add_dek) refl
          | inr e ↦
              rw (e, add_dek)
                (ap (λ rows. record mine { deks = rows })
                  (keep-append (λ r. r.tenant_id == t) db.deks row (not-true _ i)))
        ]

  module _ (u : Uuid) (i : others t u ≡ true) where
    -- A row of the other tenant is none of this one.
    not_mine : (x : Uuid) → (x == u) ≡ true → (x == t) ≡ false
    not_mine x e = ground (arith, nat_beq_iff x u, nat_beq_iff x t, nat_beq_iff u t)

    mine_kept : (x : Uuid) → (x == t) ≡ true → not (x == u) ≡ true
    mine_kept x e = ground (arith, nat_beq_iff x u, nat_beq_iff x t, nat_beq_iff u t)

    update_tenant-others :
        (f : TenantRow → TenantRow)
        → ((r : TenantRow) → (f r).tenant_id ≡ r.tenant_id)
        → belongings t (update_tenant u f db) ≡ mine
    unfolding update_tenant
    update_tenant-others f same_id =
        ap (λ rows. record mine { tenants = rows })
          (keep-update_where (λ r. r.tenant_id == t) (λ r. r.tenant_id == u) f db.tenants
            (λ r e. (not_mine r.tenant_id e, rw (same_id r) (not_mine r.tenant_id e))))

    update_secret-others :
        (n : Text) (f : SecretRow → SecretRow)
        → ((r : SecretRow) → uq_tenant_secret (f r) ≡ uq_tenant_secret r)
        → belongings t (update_secret u n f db) ≡ mine
    unfolding update_secret
    update_secret-others n f same_key =
        ap (λ rows. record mine { secrets = rows })
          (keep-update_where (λ r. r.tenant_id == t) (λ r. r.tenant_id == u && r.name == n) f
            db.secrets
            (λ r e.
              let other = not_mine r.tenant_id (ground arith) in
              (other, rw (ap (λ k. k.0) (same_key r)) other)))

    delete_tenant_row-others : belongings t (delete_tenant_row u db) ≡ mine
    unfolding delete_tenant_row
    delete_tenant_row-others =
        rw
          (
            keep-keep (λ r. r.tenant_id == t) (λ r. not (r.tenant_id == u)) db.tenants
                (λ r. mine_kept r.tenant_id),
            keep-keep (λ r. r.tenant_id == t) (λ r. not (r.tenant_id == u)) db.memberships
                (λ r. mine_kept r.tenant_id),
            keep-keep (λ r. r.tenant_id == t) (λ r. not (r.tenant_id == u)) db.secrets
                (λ r. mine_kept r.tenant_id),
            keep-keep (λ r. r.tenant_id == t) (λ r. not (r.tenant_id == u)) db.deks
                (λ r. mine_kept r.tenant_id),
          )
          refl

    delete_membership_row-others : (v : Uuid) → belongings t (delete_membership_row u v db) ≡ mine
    unfolding delete_membership_row
    delete_membership_row-others v =
        ap (λ rows. record mine { memberships = rows })
          (keep-keep (λ r. r.tenant_id == t) (λ r. not (r.tenant_id == u && r.user_id == v))
            db.memberships (λ r e. ground (arith, mine_kept r.tenant_id e)))

    delete_secret_row-others : (n : Text) → belongings t (delete_secret_row u n db) ≡ mine
    unfolding delete_secret_row
    delete_secret_row-others n =
        ap (λ rows. record mine { secrets = rows })
          (keep-keep (λ r. r.tenant_id == t) (λ r. not (r.tenant_id == u && r.name == n)) db.secrets
            (λ r e. ground (arith, mine_kept r.tenant_id e)))

module _ (t : Uuid) (owned : Belongings) where
  abbrev Owns : Db → Type 0
  Owns db = belongings t db ≡ owned

  Owns-Invariant : Invariant (others t) Owns
  unfolding add_audit_event
  Owns-Invariant = record {
    adds_tenant = λ row db i h. add_tenant-others t db row i ∙ h;
    adds_user = λ row db h. add_user-others t db row ∙ h;
    adds_membership = λ row db i h. add_membership-others t db row i ∙ h;
    adds_audit_event = λ row db h. h;
    updates_tenant = λ u f db same_id same_slug i h. update_tenant-others t db u i f same_id ∙ h;
    deletes_tenant = λ u db i h. delete_tenant_row-others t db u i ∙ h;
    deletes_membership = λ u v db i h. delete_membership_row-others t db u i v ∙ h;
    deletes_secret = λ u n db i h. delete_secret_row-others t db u i n ∙ h;
  }

  Owns-SecretInvariant : SecretInvariant (others t) Owns
  Owns-SecretInvariant = record {
    adds_secret = λ row db i h. add_secret-others t db row i ∙ h;
    adds_dek = λ row db i h. add_dek-others t db row i ∙ h;
    updates_secret = λ u n f db same_key i h. update_secret-others t db u i n f same_key ∙ h;
  }

module _ {D : Type 0} (p : Platform D) (c : Crypto) (kek : Text) (settings : Settings) where
  -- A request on one tenant, whoever makes it and whatever it ends with, leaves the committed row of
  -- every other tenant, its members, its secrets and its key as they were.
  pub serve-isolated :
      (req : Request) (u t : Uuid) (user : TokenPayload) (w : World D)
      → u ≢ t
      → belongings t (serve p c kek settings req u user w).1.committed ≡ belongings t w.committed
  unfolding serve
  serve-isolated req u t user w apart =
      let owned = belongings t w.committed in
      dispatch-keeps (Owns-Invariant t owned) p c kek settings
        (SecretInvariant-VaultInvariant (Owns-SecretInvariant t owned) c kek) req u user _
        (ground (arith, nat_beq_iff u t)) refl refl
