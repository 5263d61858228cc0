-- ===== src/Api/InternalRouter.antt =====
-- src/octw/api/routers/internal_router.py: the routes by which the edge proxy asks for a tenant's
-- container. They ask for no user.
use octw.Prelude.{Text, Option, none, some}
use octw.Exec.{Result, ok, err, http, ⊤, Op, pure, lift, gets, ◌>>=◌, ◌>>◌}
use octw.Config.{Settings}
use octw.Models.Tenant.{Uuid, Tenant, ContainerState}
use octw.Platform.{Platform}
use octw.Uuid.Parse.{uuid_of_text}
use octw.Orchestrator.Containers.{get_container_state, get_container_ip}
use octw.Db.{Session}
use octw.Vault.Envelope.{Crypto}
use octw.World.{World, commit}
use octw.Tenants.Service.{get_tenant_by_slug, wake_tenant, pause_tenant, stop_tenant}

-- The answer of `get_status`.
pub record Status : Type 0 where
  pub state : ContainerState
  pub ip : Option Text

-- `if not tenant: raise`
abbrev pub id_or_404 : Option Tenant → Result Uuid
id_or_404 none = err (http 404)
id_or_404 (some tenant) = ok tenant.tenant_id

abbrev pub by_slug : Text → Session → Result Uuid
by_slug slug s = elim (get_tenant_by_slug slug s) [ err e ↦ err e | ok found ↦ id_or_404 found ]

-- `_resolve_tenant_id`
unfoldable pub resolve_tenant_id : Text → Session → Result Uuid
resolve_tenant_id identifier s = elim (uuid_of_text identifier) [
  | some tenant_id ↦ ok tenant_id
  | none ↦ by_slug identifier s
]

module _ {D : Type 0} where
  abbrev pub resolve : Text → Op (World D) Uuid
  resolve identifier = do found ← gets (λ w. resolve_tenant_id identifier w.session); lift found

module _ {D : Type 0} (p : Platform D) where
  module _ (c : Crypto) (kek : Text) (settings : Settings) where
    -- The answer's container id.
    unfoldable pub ensure_running : Text → Op (World D) Text
    ensure_running identifier = do
      tenant_id ← resolve identifier
      container_id ← wake_tenant p c kek settings tenant_id
      commit
      pure container_id

    unfoldable pub pause_if_idle : Text → Op (World D) ⊤
    pause_if_idle identifier = do
      tenant_id ← resolve identifier
      pause_tenant p c kek settings tenant_id
      commit

    unfoldable pub stop_if_idle : Text → Op (World D) ⊤
    stop_if_idle identifier = do
      tenant_id ← resolve identifier
      stop_tenant p c kek settings tenant_id
      commit

  unfoldable pub get_status : Text → Op (World D) Status
  get_status identifier = do
    tenant_id ← resolve identifier
    state ← gets (λ w. get_container_state p tenant_id w.machine)
    s ← lift state
    ip ← gets (λ w. get_container_ip p tenant_id w.machine)
    address ← lift ip
    pure (record { state = s; ip = address })
