-- ===== src/Tenants/Service.antt =====
-- src/octw/orchestrator/tenant_service.py: the methods that create, run, stop and delete tenants.
use octw.Prelude.{
  Text, codes, Option, none, some, List, [], ◌∷◌, ◌++◌, map, ◌==◌, nat_eq, ◌&&◌, keep, or_text,
}
use octw.Exec.{
  Result, ok, err, ⊤, Op, pure, lift, gets, modify, ◌>>=◌, ◌>>◌, value_error, attribute_error,
}
use octw.Config.{Settings}
use octw.Models.Tenant.{
  Uuid, Tenant, TenantCreate, TenantStatus, TenantRuntimeInfo, ContainerState, tenant_admin,
}
use octw.Models.Secret.{
  tenant_create, tenant_delete, container_start, container_stop, container_pause, container_wake,
}
use octw.Models.Provider.{get_provider}
use octw.Platform.{Platform}
use octw.Orchestrator.Dirs.{create_tenant_dirs}
use octw.Orchestrator.Networks.{create_network}
use octw.Orchestrator.Containers.{
  start_container, stop_container, pause_container, unpause_container, get_container_state,
  cleanup_tenant,
}
use octw.Db.{
  Session, TenantRow, MembershipRow, in_db, add_tenant, delete_tenant_row, tenant_by_id,
  tenants_by_slug, scalar_one_or_none,
}
use octw.Vault.Envelope.{Crypto, uuid4}
use octw.Vault.Service.{get_decrypted_secrets}
use octw.World.{World, in_session, in_machine}
use octw.Tenants.Rows.{
  row_to_tenant, new_row, set_created, set_deleting, set_started, set_stopped, set_paused,
  set_woken, set_active, update_row, emit_audit,
}
use octw.Tenants.Members.{ensure_membership}

abbrev pub tenant_of : Option TenantRow → Option Tenant
tenant_of none = none
tenant_of (some row) = some (row_to_tenant row)

unfoldable pub get_tenant : Uuid → Session → Option Tenant
get_tenant tenant_id s = tenant_of (tenant_by_id tenant_id s.db)

unfoldable pub get_tenant_by_slug : Text → Session → Result (Option Tenant)
get_tenant_by_slug slug s = elim (scalar_one_or_none (tenants_by_slug slug s.db)) [
  | err e ↦ err e
  | ok row ↦ ok (tenant_of row)
]

-- The join of tenants with the memberships of a user.
unfoldable pub join_memberships : Uuid → List MembershipRow → List TenantRow → List Tenant
join_memberships user_id ms [] = []
join_memberships user_id ms (r ∷ rows) =
    map (λ _. row_to_tenant r) (keep (λ m. m.tenant_id == r.tenant_id && m.user_id == user_id) ms)
    ++ join_memberships user_id ms rows

unfoldable pub list_tenants : Option Uuid → Session → List Tenant
list_tenants none s = map row_to_tenant s.db.tenants
list_tenants (some user_id) s = join_memberships user_id s.db.memberships s.db.tenants

-- `raise ValueError` if there is no tenant.
abbrev pub or_missing : Option Tenant → Result Tenant
or_missing none = err value_error
or_missing (some tenant) = ok tenant

-- The variable of the tenant's provider, if it has one.
unfoldable pub provider_env_var : Option Text → Result (Option Text)
provider_env_var none = ok none
provider_env_var (some []) = ok none
provider_env_var (some (x ∷ key)) = elim (get_provider (x ∷ key)) [
  | none ↦ err value_error
  | some spec ↦ ok (some spec.env_var)
]

-- `tenant.container_id or ""`
abbrev pub container_id_of : Option Tenant → Result Text
container_id_of none = err attribute_error
container_id_of (some tenant) = ok (or_text tenant.container_id [])

module _ {D : Type 0} (p : Platform D) (c : Crypto) (kek : Text) (settings : Settings) where
  -- `if creator_user_id:`
  unfoldable pub add_creator : Uuid → Option Uuid → Op Session ⊤
  add_creator tenant_id none = pure tt
  add_creator tenant_id (some user_id) = ensure_membership c tenant_id user_id tenant_admin

  unfoldable pub create_tenant : TenantCreate → Option Uuid → Op (World D) Tenant
  create_tenant req creator_user_id = do
    tenant_id ← in_session (uuid4 c)
    now ← gets (λ w. w.session.now)
    let row = new_row settings tenant_id now req
    in_session (in_db (add_tenant row))
    in_machine (create_tenant_dirs p settings tenant_id)
    network_id ← in_machine (create_network p tenant_id)
    in_session (update_row tenant_id (λ t. set_created t network_id))
    in_session (
        emit_audit c tenant_create (some tenant_id) creator_user_id
          (some ((codes "slug", req.slug) ∷ [])))
    in_session (add_creator tenant_id creator_user_id)
    pure
        (record (row_to_tenant row) { status = TenantStatus.stopped; network_id = some network_id })

  unfoldable pub delete_found : Uuid → Option Uuid → Option TenantRow → Op (World D) ⊤
  delete_found tenant_id user_id none = pure tt
  delete_found tenant_id user_id (some row) = do
    in_session (update_row tenant_id set_deleting)
    in_machine (cleanup_tenant p settings tenant_id)
    in_session (emit_audit c tenant_delete (some tenant_id) user_id none)
    in_session (modify (λ s. record s { db = delete_tenant_row tenant_id s.db }))

  unfoldable pub delete_tenant : Uuid → Option Uuid → Op (World D) ⊤
  delete_tenant tenant_id user_id = do
    row ← gets (λ w. tenant_by_id tenant_id w.session.db)
    delete_found tenant_id user_id row

  unfoldable pub start_tenant : Uuid → Op (World D) Text
  start_tenant tenant_id = do
    found ← gets (λ w. get_tenant tenant_id w.session)
    tenant ← lift (or_missing found)
    secrets ← in_session (get_decrypted_secrets c kek tenant_id)
    env_var ← lift (provider_env_var tenant.provider)
    container_id ← in_machine (start_container p settings tenant env_var secrets)
    in_session (update_row tenant_id (λ t. set_started t container_id))
    in_session (emit_audit c container_start (some tenant_id) none none)
    pure container_id

  unfoldable pub stop_tenant : Uuid → Op (World D) ⊤
  stop_tenant tenant_id = do
    in_machine (stop_container p tenant_id)
    in_session (update_row tenant_id set_stopped)
    in_session (emit_audit c container_stop (some tenant_id) none none)

  unfoldable pub pause_tenant : Uuid → Op (World D) ⊤
  pause_tenant tenant_id = do
    in_machine (pause_container p tenant_id)
    in_session (update_row tenant_id set_paused)
    in_session (emit_audit c container_pause (some tenant_id) none none)

  -- `_touch_activity`
  unfoldable pub touch_activity : Uuid → Op (World D) ⊤
  touch_activity tenant_id = in_session (update_row tenant_id set_active)

  abbrev pub current_container : Uuid → Op (World D) Text
  current_container tenant_id = do
    tenant ← gets (λ w. get_tenant tenant_id w.session)
    lift (container_id_of tenant)

  -- The branches of `wake_tenant`.
  unfoldable pub wake_from : Uuid → ContainerState → Op (World D) Text
  wake_from tenant_id ContainerState.running = do
    touch_activity tenant_id
    current_container tenant_id
  wake_from tenant_id ContainerState.paused = do
    in_machine (unpause_container p tenant_id)
    in_session (update_row tenant_id set_woken)
    in_session (emit_audit c container_wake (some tenant_id) none none)
    current_container tenant_id
  wake_from tenant_id _ = start_tenant tenant_id

  unfoldable pub wake_tenant : Uuid → Op (World D) Text
  wake_tenant tenant_id = do
    state ← gets (λ w. get_container_state p tenant_id w.machine)
    s ← lift state
    wake_from tenant_id s

  unfoldable pub get_runtime_info : Uuid → Op (World D) TenantRuntimeInfo
  get_runtime_info tenant_id = do
    found ← gets (λ w. get_tenant tenant_id w.session)
    tenant ← lift (or_missing found)
    state ← gets (λ w. get_container_state p tenant_id w.machine)
    s ← lift state
    pure (record {
      tenant_id = tenant_id;
      state = s;
      container_id = tenant.container_id;
      last_activity_at = tenant.last_activity_at;
      limits = tenant.resource_limits;
    })
