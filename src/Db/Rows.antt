-- ===== src/Db/Rows.antt =====
-- The rows of src/octw/db/tables.py. A column that the program writes only through the `value` of
-- an enumeration holds its member.
use octw.Prelude.{ℕ, Text, Bool, Option, List}
use octw.Models.Tenant.{Uuid, Time, TenantPlan, TenantStatus, IsolationMode, ResourceLimits, Role}
use octw.Models.Secret.{SecretType, AuditAction}

pub record TenantRow : Type 0 where
  pub tenant_id : Uuid
  pub slug : Text
  pub name : Text
  pub plan : TenantPlan
  pub status : TenantStatus
  pub isolation_mode : IsolationMode
  pub resource_limits : Option ResourceLimits
  pub trusted_proxy_auth : Bool
  pub container_id : Option Text
  pub network_id : Option Text
  pub openclaw_image : Option Text
  pub openclaw_digest : Option Text
  pub provider : Option Text
  pub last_activity_at : Option Time
  pub created_at : Time
  pub updated_at : Time

pub record UserRow : Type 0 where
  pub user_id : Uuid
  pub email : Text
  pub created_at : Time

pub record MembershipRow : Type 0 where
  pub membership_id : Uuid
  pub tenant_id : Uuid
  pub user_id : Uuid
  pub role : Role
  pub created_at : Time

pub record SecretRow : Type 0 where
  pub secret_id : Uuid
  pub tenant_id : Uuid
  pub name : Text
  pub ciphertext : Text
  pub nonce : Text
  pub algorithm : Text
  pub key_version : ℕ
  pub secret_type : SecretType
  pub target_env_var : Option Text
  pub last_rotated_at : Option Time
  pub created_at : Time
  pub updated_at : Time

pub record TenantDekRow : Type 0 where
  pub tenant_id : Uuid
  pub encrypted_dek : Text
  pub dek_nonce : Text
  pub kek_version : ℕ
  pub created_at : Time

-- `detail` is the JSON object of texts that the services give.
pub record AuditEventRow : Type 0 where
  pub event_id : Uuid
  pub tenant_id : Option Uuid
  pub user_id : Option Uuid
  pub action : AuditAction
  pub detail : Option (List (Text × Text))
  pub created_at : Time

pub record Db : Type 0 where
  pub tenants : List TenantRow
  pub users : List UserRow
  pub memberships : List MembershipRow
  pub secrets : List SecretRow
  pub deks : List TenantDekRow
  pub audit_events : List AuditEventRow
