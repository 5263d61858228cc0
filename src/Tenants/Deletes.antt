-- ===== src/Tenants/Deletes.antt =====
-- src/octw/orchestrator/tenant_service.py: what `delete_tenant` leaves, and what a refused
-- `create_tenant` does.
use octw.Prelude.{
  not-true, Text, true, Option, none, some, map, ◌≡◌, ◌∙◌, arith, ◌==◌, nat_eq, text_eq, has, find,
  find-keep-none, inl, inr,
}
use octw.Exec.{ok, err, not_found, integrity_error, continue, Result-cases}
use octw.Config.{Settings}
use octw.Models.Tenant.{Uuid, TenantCreate}
use octw.Platform.{Platform}
use octw.Orchestrator.Names.{container_name}
use octw.Orchestrator.Dirs.{remove_tenant_dirs}
use octw.Orchestrator.Networks.{remove_network}
use octw.Orchestrator.Containers.{stop_container, cleanup_tenant}
use octw.Orchestrator.Laws.{DockerLaws, SameContainers}
use octw.Orchestrator.Lifecycle.{stop_container-absent}
use octw.Db.{Db, TenantRow, tenant_by_id, add_tenant, delete_tenant_row, slug_of}
use octw.Vault.Envelope.{Crypto}
use octw.World.{World}
use octw.Tenants.Rows.{new_row, update_row, emit_audit}
use octw.Tenants.Service.{create_tenant, delete_tenant, delete_found}

module _ {D : Type 0} (p : Platform D) (laws : DockerLaws p) (settings : Settings) where
  remove_network-SameContainers : (t : Uuid) (d : D) → SameContainers p d (remove_network p t d).1
  unfolding remove_network
  remove_network-SameContainers t d n = grind (arith, laws.network_remove_same)

  remove_tenant_dirs-SameContainers :
      (t : Uuid) (d : D) → SameContainers p d (remove_tenant_dirs p settings t d).1
  unfolding remove_tenant_dirs
  remove_tenant_dirs-SameContainers t d n = grind (arith, laws.rmtree_same, laws.sudo_rm_same)

  -- After `cleanup_tenant` the tenant has no container.
  pub cleanup_tenant-absent :
      (t : Uuid) (d : D)
      → (cleanup_tenant p settings t d).0 ≡ ok tt
      → p.containers_get (container_name t) (cleanup_tenant p settings t d).1 ≡ err not_found
  unfolding cleanup_tenant
  cleanup_tenant-absent t d h = elim (Result-cases (stop_container p t d).0) [
    | inl (u, q) ↦
        let d1 = (stop_container p t d).1 in
        let d2 = (remove_network p t d1).1 in
        elim (Result-cases (remove_network p t d1).0) [
          | inl (v, z) ↦
              rw (q, continue, z)
                (remove_tenant_dirs-SameContainers t d2 (container_name t)
                  ∙ remove_network-SameContainers t d1 (container_name t)
                  ∙ stop_container-absent p laws t d q)
          | inr (x, z) ↦ absurd (ground arith)
        ]
    | inr (x, q) ↦ absurd (ground arith)
  ]

-- The tenant, its members, its secrets and its key are gone.
pub record Gone (t : Uuid) (db : Db) : Type 0 where
  pub row : find (λ r. r.tenant_id == t) db.tenants ≡ none
  pub members : find (λ r. r.tenant_id == t) db.memberships ≡ none
  pub secrets : find (λ r. r.tenant_id == t) db.secrets ≡ none
  pub dek : find (λ r. r.tenant_id == t) db.deks ≡ none

delete_tenant_row-Gone : (t : Uuid) (db : Db) → Gone t (delete_tenant_row t db)
unfolding delete_tenant_row
delete_tenant_row-Gone t db = record {
  row = find-keep-none _ _ db.tenants (λ r. not-true (r.tenant_id == t));
  members = find-keep-none _ _ db.memberships (λ r. not-true (r.tenant_id == t));
  secrets = find-keep-none _ _ db.secrets (λ r. not-true (r.tenant_id == t));
  dek = find-keep-none _ _ db.deks (λ r. not-true (r.tenant_id == t));
}

module _ {D : Type 0} (p : Platform D) (laws : DockerLaws p) (c : Crypto) (kek : Text)
    (settings : Settings) where
  -- Under the Docker laws, when `delete_tenant` of an existing tenant returns, the tenant has no
  -- container, row, membership, secret or key.
  pub delete_tenant-Gone :
      (t : Uuid) (actor : Option Uuid) (w : World D) {r : TenantRow}
      → tenant_by_id t w.session.db ≡ some r
      → (delete_tenant p c kek settings t actor w).0 ≡ ok tt
      → (p.containers_get (container_name t) (delete_tenant p c kek settings t actor w).1.machine
          ≡ err not_found)
        × Gone t (delete_tenant p c kek settings t actor w).1.session.db
  unfolding delete_tenant delete_found update_row emit_audit
  delete_tenant-Gone t actor w e h = elim (Result-cases (cleanup_tenant p settings t w.machine).0) [
    | inl (u, q) ↦
        rw (e, q, continue)
          (cleanup_tenant-absent p laws settings t w.machine q, delete_tenant_row-Gone t _)
    | inr (x, q) ↦ absurd (ground arith)
  ]

module _ {D : Type 0} (p : Platform D) (c : Crypto) (kek : Text) (settings : Settings) where
  -- `create_tenant` with a slug that is taken raises the integrity error and changes neither the
  -- session's database nor the machine.
  create_tenant-taken :
      (req : TenantCreate) (user : Option Uuid) (w : World D)
      → has req.slug (map slug_of w.session.db.tenants) ≡ true
      → let (r, w') = create_tenant p c kek settings req user w in
        (r ≡ err integrity_error) × (w'.session.db ≡ w.session.db) × (w'.machine ≡ w.machine)
  unfolding create_tenant add_tenant new_row
  create_tenant-taken req user w h = ground arith
