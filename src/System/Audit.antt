-- ===== src/System/Audit.antt =====
-- The audit log (`audit_events` of src/octw/db/tables.py) over the life of the control plane.
use octw.Prelude.{Text, List, [], ◌∷◌, ◌++◌, ◌≡◌, sym, arith, ◌∙◌, ap}
use mathlib.Core.List.{append_assoc, append-nil}
use octw.Config.{Settings}
use octw.Platform.{Platform}
use octw.Db.{
  Db, AuditEventRow, Invariant, everywhere, SecretInvariant, SweepInvariant, add_tenant, add_user,
  add_membership, add_secret, add_dek, add_audit_event, update_tenant, update_secret,
  delete_tenant_row, delete_membership_row, delete_secret_row,
}
use octw.Vault.Envelope.{Crypto}
use octw.Vault.Keeps.{SecretInvariant-VaultInvariant}
use octw.World.{World}
use octw.System.{Reach, Reach-keeps}

-- The list begins with these events.
abbrev pub Extends : List AuditEventRow → List AuditEventRow → Type 0
Extends log events = (more : List AuditEventRow) × (events ≡ log ++ more)

module _ (log : List AuditEventRow) where
  abbrev InDb : Db → Type 0
  InDb db = Extends log db.audit_events

  same : (xs ys : List AuditEventRow) → ys ≡ xs → Extends log xs → Extends log ys
  same xs ys e (more, h) = (more, e ∙ h)

  Extends-Invariant : Invariant everywhere InDb
  unfolding add_tenant add_user add_membership add_audit_event update_tenant delete_tenant_row
      delete_membership_row delete_secret_row
  Extends-Invariant = record {
    adds_tenant = λ row db _. same db.audit_events _ (ground arith);
    adds_user = λ row db. same db.audit_events _ (ground arith);
    adds_membership = λ row db _. same db.audit_events _ (ground arith);
    adds_audit_event = λ row db (more, h).
        (more ++ row ∷ [], ap (λ xs. xs ++ row ∷ []) h ∙ append_assoc log more (row ∷ []));
    updates_tenant = λ t f db i s _ h. h;
    deletes_tenant = λ t db _ h. h;
    deletes_membership = λ t u db _ h. h;
    deletes_secret = λ t n db _ h. h;
  }

  Extends-SecretInvariant : SecretInvariant everywhere InDb
  unfolding add_secret add_dek update_secret
  Extends-SecretInvariant = record {
    adds_secret = λ row db _. same db.audit_events _ (ground arith);
    adds_dek = λ row db _. same db.audit_events _ (ground arith);
    updates_secret = λ t n f db k _ h. h;
  }

  Extends-SweepInvariant : SweepInvariant InDb
  Extends-SweepInvariant = record { maps_tenants = λ f db i s h. h }

module _ {D : Type 0} (p : Platform D) (c : Crypto) (kek : Text) (cfg : Settings)
    (keys : Text → Type 0) where
  -- The committed audit log only grows, at its end, whatever sequence of steps the control plane
  -- takes.
  pub Reach-Extends :
      {w u : World D}
      → Reach p c kek cfg keys w u
      → Extends w.committed.audit_events u.committed.audit_events
  Reach-Extends {w} r =
      let rows = Extends-SecretInvariant w.committed.audit_events in
      Reach-keeps p c kek cfg keys (Extends-Invariant w.committed.audit_events)
        (Extends-SweepInvariant w.committed.audit_events)
        (SecretInvariant-VaultInvariant rows c kek) (λ k _. SecretInvariant-VaultInvariant rows c k)
        r ([], sym (append-nil _))
