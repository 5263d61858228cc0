-- ===== src/Tenants/Runs.antt =====
-- src/octw/orchestrator/tenant_service.py: after `start_tenant` and `stop_tenant` the row of the
-- tenant and the machine agree.
use octw.Prelude.{
  Text, true, Option, none, some, ◌≡◌, refl, ap, arith, ◌==◌, nat_eq, nat_beq_iff, find,
  find-update_where, find-passes, changed, Dict, inl, inr, Option-cases,
}
use octw.Exec.{ok, err, not_found, Op, ◌>>=◌, ◌>>◌, continue, Result-cases, pure}
use octw.Config.{Settings}
use octw.Models.Tenant.{Uuid, Tenant, TenantStatus}
use octw.Models.Secret.{container_start}
use octw.Platform.{Platform}
use octw.Orchestrator.Names.{container_name}
use octw.Orchestrator.Containers.{start_container, stop_container}
use octw.Orchestrator.Laws.{DockerLaws}
use octw.Orchestrator.Serving.{Serves, start_container-Serves}
use octw.Orchestrator.Lifecycle.{stop_container-absent}
use octw.Db.{Db, Session, TenantRow, tenant_by_id, update_tenant}
use octw.Vault.Envelope.{Crypto}
use octw.Vault.Service.{get_decrypted_secrets}
use octw.World.{World, in_machine, in_session}
use octw.Tenants.Rows.{row_to_tenant, set_started, set_stopped, update_row, emit_audit}
use octw.Tenants.Service.{stop_tenant, start_tenant, get_tenant, provider_env_var}

-- What the row of a tenant says, if it has one.
abbrev pub Says : TenantStatus → Option Text → Option TenantRow → Type 0
Says s c none = Unit
Says s c (some r) = (r.status ≡ s) × (r.container_id ≡ c)

module _ (t : Uuid) (f : TenantRow → TenantRow) (s : TenantStatus) (c : Option Text) where
  passes :
      (o : Option TenantRow)
      → ((r : TenantRow) → o ≡ some r → (r.tenant_id == t) ≡ true)
      → ((r : TenantRow) → ((f r).status ≡ s) × ((f r).container_id ≡ c))
      → Says s c (changed (λ r. r.tenant_id == t) f o)
  passes none p h = tt
  passes (some r) p h = rw (p r refl) (h r)

  -- What an update of a tenant's row makes its row say.
  update_tenant-Says :
      (db : Db)
      → ((r : TenantRow) → (f r).tenant_id ≡ r.tenant_id)
      → ((r : TenantRow) → ((f r).status ≡ s) × ((f r).container_id ≡ c))
      → Says s c (tenant_by_id t (update_tenant t f db))
  unfolding tenant_by_id update_tenant
  update_tenant-Says db k h =
      rw
        (find-update_where (λ r. r.tenant_id == t) (λ r. r.tenant_id == t) f db.tenants
          (λ r. ap (λ i. i == t) (k r)))
        (passes (find (λ r. r.tenant_id == t) db.tenants)
          (λ r. find-passes (λ r. r.tenant_id == t) db.tenants) h)

pub get_tenant-id :
    (t : Uuid) (s : Session) (tenant : Tenant) → get_tenant t s ≡ some tenant → tenant.tenant_id ≡ t
unfolding get_tenant tenant_by_id row_to_tenant
get_tenant-id t s tenant h = elim (Option-cases (find (λ r. r.tenant_id == t) s.db.tenants)) [
  | inl e ↦ absurd (ground arith)
  | inr (r, e) ↦
      ground (arith, find-passes (λ r. r.tenant_id == t) s.db.tenants e, nat_beq_iff r.tenant_id t)
]

module _ {D : Type 0} (p : Platform D) (laws : DockerLaws p) (c : Crypto) (kek : Text)
    (settings : Settings) where
  -- Under the Docker laws, after `stop_tenant` returns the tenant has no container, and its row,
  -- if there is one, is stopped and names none.
  pub stop_tenant-stops :
      (t : Uuid) (w : World D)
      → let (r, w') = stop_tenant p c kek settings t w in
        r ≡ ok tt
        → (p.containers_get (container_name t) w'.machine ≡ err not_found)
          × Says TenantStatus.stopped none (tenant_by_id t w'.session.db)
  unfolding stop_tenant update_row emit_audit tenant_by_id
  stop_tenant-stops t w h = elim (Result-cases (stop_container p t w.machine).0) [
    | inl (u, q) ↦
        rw (q, continue)
          (
            stop_container-absent p laws t w.machine q,
            update_tenant-Says t (set_stopped w.session.now) TenantStatus.stopped none w.session.db
                (λ r. refl) (λ r. (refl, refl)),
          )
    | inr (x, q) ↦ absurd (ground arith)
  ]

  module _ (t : Uuid) (tenant : Tenant) (env_var : Option Text) (env : Dict Text) where
    -- `start_tenant` from the start of the container on.
    abbrev started : Op (World D) Text
    started = do
      container_id ← in_machine (start_container p settings tenant env_var env)
      in_session (update_row t (λ now. set_started now container_id))
      in_session (emit_audit c container_start (some t) none none)
      pure container_id

    abbrev Started : Text → World D → Type 0
    Started id w =
        Serves id (p.containers_get (container_name t) w.machine)
        × Says TenantStatus.running (some id) (tenant_by_id t w.session.db)

    started-Started :
        (id : Text) (w : World D)
        → tenant.tenant_id ≡ t
        → (started w).0 ≡ ok id
        → Started id (started w).1
    unfolding update_row emit_audit tenant_by_id
    started-Started id w e h =
        elim (Result-cases (start_container p settings tenant env_var env w.machine).0) [
          | inl (i, q) ↦
              let same : i ≡ id = ground arith in
              rw (q, continue)
                (
                  rw (← same, ← e)
                      (start_container-Serves p laws settings tenant env_var env i w.machine q),
                  update_tenant-Says t (set_started w.session.now i) TenantStatus.running (some id)
                      w.session.db (λ r. refl) (λ r. (refl, ap some same)),
                )
          | inr (x, q) ↦ absurd (ground arith)
        ]

  -- Under the Docker laws, after `start_tenant` returns an id the tenant's container has that id
  -- and runs, and the tenant's row, if there is one, is running with that id.
  pub start_tenant-runs :
      (t : Uuid) (w : World D) (id : Text)
      → let (r, w') = start_tenant p c kek settings t w in
        r ≡ ok id
        → Serves id (p.containers_get (container_name t) w'.machine)
          × Says TenantStatus.running (some id) (tenant_by_id t w'.session.db)
  unfolding start_tenant
  start_tenant-runs t w id h = elim (Option-cases (get_tenant t w.session)) [
    | inl e ↦ absurd (ground arith)
    | inr (tenant, e) ↦
        let (r, s) = get_decrypted_secrets c kek t w.session in
        elim (Result-cases (get_decrypted_secrets c kek t w.session).0) [
          | inl (env, q) ↦ elim (Result-cases (provider_env_var tenant.provider)) [
            | inl (v, z) ↦
                rw (e, q, continue, z)
                  (started-Started t tenant v env id (record w { session = s })
                    (get_tenant-id t w.session tenant e) (rw (e, q, continue, z) at h))
            | inr (x, z) ↦ absurd (ground arith)
          ]
          | inr (x, q) ↦ absurd (ground arith)
        ]
  ]
