-- ===== src/Models/Tenant.antt =====
-- src/octw/models/tenant.py. A `StrEnum` member is a constructor, and its string is given by a
-- `…_value` function. UUIDs are their 128-bit integers, and a `datetime` is the number of seconds
-- since a fixed date.
use octw.Prelude.{ℕ, Text, codes, Bool, true, false, Option}

abbrev pub Uuid : Type 0
Uuid = ℕ

abbrev pub Time : Type 0
Time = ℕ

pub data TenantStatus : Type 0 where
  provisioning running paused stopped error deleting : TenantStatus

unfoldable pub tenant_status_value : TenantStatus → Text
tenant_status_value TenantStatus.provisioning = codes "provisioning"
tenant_status_value TenantStatus.running = codes "running"
tenant_status_value TenantStatus.paused = codes "paused"
tenant_status_value TenantStatus.stopped = codes "stopped"
tenant_status_value TenantStatus.error = codes "error"
tenant_status_value TenantStatus.deleting = codes "deleting"

-- `status == TenantStatus.RUNNING`
abbrev pub is_running : TenantStatus → Bool
is_running TenantStatus.running = true
is_running _ = false

-- `status == TenantStatus.PAUSED`
abbrev pub is_paused : TenantStatus → Bool
is_paused TenantStatus.paused = true
is_paused _ = false

pub data ContainerState : Type 0 where
  running paused stopped error not_found : ContainerState

unfoldable pub container_state_value : ContainerState → Text
container_state_value ContainerState.running = codes "running"
container_state_value ContainerState.paused = codes "paused"
container_state_value ContainerState.stopped = codes "stopped"
container_state_value ContainerState.error = codes "error"
container_state_value ContainerState.not_found = codes "not_found"

pub data IsolationMode : Type 0 where
  standard hardened : IsolationMode

pub data TenantPlan : Type 0 where
  standard premium : TenantPlan

pub record ResourceLimits : Type 0 where
  pub mem_limit : Text
  pub cpu_quota : ℕ
  pub cpu_period : ℕ
  pub pids_limit : ℕ

-- `ResourceLimits()`
abbrev pub default_limits : ResourceLimits
default_limits = record {
  mem_limit = codes "1536m";
  cpu_quota = 100000;
  cpu_period = 100000;
  pids_limit = 512;
}

pub record TenantCreate : Type 0 where
  pub slug : Text
  pub name : Text
  pub plan : TenantPlan
  pub isolation_mode : IsolationMode
  pub resource_limits : Option ResourceLimits
  pub trusted_proxy_auth : Bool

pub record Tenant : Type 0 where
  pub tenant_id : Uuid
  pub slug : Text
  pub name : Text
  pub plan : TenantPlan
  pub status : TenantStatus
  pub isolation_mode : IsolationMode
  pub resource_limits : ResourceLimits
  pub trusted_proxy_auth : Bool
  pub container_id : Option Text
  pub network_id : Option Text
  pub openclaw_image : Option Text
  pub openclaw_digest : Option Text
  pub provider : Option Text
  pub last_activity_at : Option Time
  pub created_at : Time
  pub updated_at : Time

pub record TenantRuntimeInfo : Type 0 where
  pub tenant_id : Uuid
  pub state : ContainerState
  pub container_id : Option Text
  pub last_activity_at : Option Time
  pub limits : ResourceLimits

pub data Role : Type 0 where
  tenant_admin tenant_user tenant_viewer : Role

unfoldable pub role_value : Role → Text
role_value tenant_admin = codes "tenant_admin"
role_value tenant_user = codes "tenant_user"
role_value tenant_viewer = codes "tenant_viewer"

pub record Member : Type 0 where
  pub user_id : Uuid
  pub tenant_id : Uuid
  pub email : Text
  pub role : Role
  pub created_at : Time
