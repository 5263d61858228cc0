-- ===== src/System/Secrets.antt =====
-- The vault (src/octw/vault) over the life of the control plane.
use octw.Prelude.{
  Text, true, ◌≡◌, refl, ap, ◌==◌, nat_eq, nat_beq_iff, not, arith, All-keep, All-keep_where,
  find-keep,
}
use octw.Config.{Settings}
use octw.Models.Tenant.{Uuid}
use octw.Platform.{Platform}
use octw.Db.{
  Db, Invariant, SweepInvariant, everywhere, add_tenant, add_user, add_membership, add_audit_event,
  update_tenant, delete_tenant_row, delete_membership_row, delete_secret_row,
}
use octw.Vault.Envelope.{Crypto, CryptoLaws}
use octw.Vault.Keeps.{VaultInvariant}
use octw.Vault.Sound.{IsSound, dek_for, unwrap?}
use octw.Vault.Opens.{store_secret-IsSound, get_decrypted_secrets-IsSound}
use octw.World.{World}
use octw.System.{Reach, Reach-keeps}

module _ (c : Crypto) (kek : Text) where
  same :
      (db db' : Db)
      → db'.deks ≡ db.deks
      → db'.secrets ≡ db.secrets
      → IsSound c kek db
      → IsSound c kek db'
  same db db' e f v = record {
    deks_open = rw e v.deks_open;
    secrets_open = rw (e, f) v.secrets_open;
  }

  -- The key of another tenant is still there once a tenant is deleted.
  dek_for-delete_tenant_row :
      (t u : Uuid) (db : Db)
      → not (u == t) ≡ true
      → dek_for c kek u (delete_tenant_row t db) ≡ dek_for c kek u db
  unfolding delete_tenant_row
  dek_for-delete_tenant_row t u db h = ap (unwrap? c kek) (
      find-keep (λ r. not (r.tenant_id == t)) (λ r. r.tenant_id == u) db.deks
        (λ r q.
          ground (arith, nat_beq_iff r.tenant_id u, nat_beq_iff r.tenant_id t, nat_beq_iff u t)))

  delete_tenant_row-IsSound :
      (t : Uuid) (db : Db) → IsSound c kek db → IsSound c kek (delete_tenant_row t db)
  unfolding delete_tenant_row
  delete_tenant_row-IsSound t db v = record {
    deks_open = All-keep _ _ db.deks v.deks_open;
    secrets_open =
        All-keep_where _ _ _ db.secrets
          (λ r k h. rw (dek_for-delete_tenant_row t r.tenant_id db k) h) v.secrets_open;
  }

  IsSound-Invariant : Invariant everywhere (IsSound c kek)
  unfolding add_tenant add_user add_membership add_audit_event update_tenant delete_membership_row
      delete_secret_row
  IsSound-Invariant = record {
    adds_tenant = λ row db _. same db _ (ground arith) (ground arith);
    adds_user = λ row db. same db _ (ground arith) (ground arith);
    adds_membership = λ row db _. same db _ (ground arith) (ground arith);
    adds_audit_event = λ row db. same db _ refl refl;
    updates_tenant = λ t f db i s _. same db _ refl refl;
    deletes_tenant = λ t db _. delete_tenant_row-IsSound t db;
    deletes_membership = λ t u db _. same db _ refl refl;
    deletes_secret = λ t n db _ v. record {
      deks_open = v.deks_open;
      secrets_open = All-keep _ _ db.secrets v.secrets_open;
    };
  }

  IsSound-SweepInvariant : SweepInvariant (IsSound c kek)
  IsSound-SweepInvariant = record { maps_tenants = λ f db i s. same db _ refl refl }

  IsSound-VaultInvariant : CryptoLaws c → VaultInvariant everywhere c kek (IsSound c kek)
  IsSound-VaultInvariant laws = record {
    stores = λ t n pt ty ev s _. store_secret-IsSound c kek laws t n pt ty ev s;
    decrypts = λ t s _. get_decrypted_secrets-IsSound c kek laws t s;
  }

module _ {D : Type 0} (p : Platform D) (c : Crypto) (laws : CryptoLaws c) (kek : Text)
    (cfg : Settings) where
  -- Under the law of the cipher, as long as the commands of the operator load the master key of
  -- the routes, or none, each key and each secret that is committed can be decrypted, whatever
  -- sequence of steps the control plane takes, from a database in which this is so.
  pub Reach-IsSound :
      {w u : World D}
      → Reach p c kek cfg (λ k. k ≡ kek) w u
      → IsSound c kek w.committed
      → IsSound c kek u.committed
  Reach-IsSound r v =
      Reach-keeps p c kek cfg (λ k. k ≡ kek) (IsSound-Invariant c kek)
        (IsSound-SweepInvariant c kek) (IsSound-VaultInvariant c kek laws)
        (λ k e. rw e (IsSound-VaultInvariant c kek laws)) r v
