-- ===== src/Tenants/Rows.antt =====
-- src/octw/orchestrator/tenant_service.py: what the service writes into the rows of tenants.
use octw.Prelude.{Text, Option, none, some, List}
use octw.Exec.{⊤, Op, gets, modify, ◌>>=◌}
use octw.Config.{Settings}
use octw.Models.Tenant.{
  Uuid, Time, Tenant, TenantCreate, TenantStatus, ResourceLimits, default_limits,
}
use octw.Models.Secret.{AuditAction}
use octw.Db.{Session, TenantRow, in_db, add_audit_event, update_tenant}
use octw.Vault.Envelope.{Crypto, uuid4}

abbrev pub limits_or_default : Option ResourceLimits → ResourceLimits
limits_or_default none = default_limits
limits_or_default (some limits) = limits

-- `_row_to_tenant`
unfoldable pub row_to_tenant : TenantRow → Tenant
row_to_tenant row = record {
  tenant_id = row.tenant_id;
  slug = row.slug;
  name = row.name;
  plan = row.plan;
  status = row.status;
  isolation_mode = row.isolation_mode;
  resource_limits = limits_or_default row.resource_limits;
  trusted_proxy_auth = row.trusted_proxy_auth;
  container_id = row.container_id;
  network_id = row.network_id;
  openclaw_image = row.openclaw_image;
  openclaw_digest = row.openclaw_digest;
  provider = row.provider;
  last_activity_at = row.last_activity_at;
  created_at = row.created_at;
  updated_at = row.updated_at;
}

-- The row that `create_tenant` adds.
unfoldable pub new_row : Settings → Uuid → Time → TenantCreate → TenantRow
new_row settings tenant_id now req = record {
  tenant_id = tenant_id;
  slug = req.slug;
  name = req.name;
  plan = req.plan;
  status = TenantStatus.provisioning;
  isolation_mode = req.isolation_mode;
  resource_limits = some (limits_or_default req.resource_limits);
  trusted_proxy_auth = req.trusted_proxy_auth;
  container_id = none;
  network_id = none;
  openclaw_image = some settings.openclaw_image;
  openclaw_digest = settings.openclaw_digest;
  provider = none;
  last_activity_at = none;
  created_at = now;
  updated_at = now;
}

-- The assignments of the methods; `updated_at` follows every update.
abbrev pub set_created : Time → Text → TenantRow → TenantRow
set_created now network_id r = record r {
  network_id = some network_id;
  status = TenantStatus.stopped;
  updated_at = now;
}

abbrev pub set_deleting : Time → TenantRow → TenantRow
set_deleting now r = record r { status = TenantStatus.deleting; updated_at = now }

abbrev pub set_started : Time → Text → TenantRow → TenantRow
set_started now container_id r = record r {
  status = TenantStatus.running;
  container_id = some container_id;
  last_activity_at = some now;
  updated_at = now;
}

abbrev pub set_stopped : Time → TenantRow → TenantRow
set_stopped now r = record r {
  status = TenantStatus.stopped;
  container_id = none;
  updated_at = now;
}

abbrev pub set_paused : Time → TenantRow → TenantRow
set_paused now r = record r { status = TenantStatus.paused; updated_at = now }

abbrev pub set_woken : Time → TenantRow → TenantRow
set_woken now r = record r {
  status = TenantStatus.running;
  last_activity_at = some now;
  updated_at = now;
}

abbrev pub set_active : Time → TenantRow → TenantRow
set_active now r = record r { last_activity_at = some now; updated_at = now }

-- An update of the row of a tenant, at the time of the call.
unfoldable pub update_row : Uuid → (Time → TenantRow → TenantRow) → Op Session ⊤
unfolding update_tenant
update_row tenant_id f = modify λ s. record s { db = update_tenant tenant_id (f s.now) s.db }

-- `_emit_audit`
unfoldable pub emit_audit :
    Crypto → AuditAction → Option Uuid → Option Uuid → Option (List (Text × Text)) → Op Session ⊤
unfolding add_audit_event
emit_audit c action tenant_id user_id detail = do
  event_id ← uuid4 c
  now ← gets (λ s. s.now)
  in_db (
      add_audit_event (record {
        event_id = event_id;
        tenant_id = tenant_id;
        user_id = user_id;
        action = action;
        detail = detail;
        created_at = now;
      }))
