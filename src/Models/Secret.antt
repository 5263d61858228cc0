-- ===== src/Models/Secret.antt =====
-- src/octw/models/secret.py.
use octw.Prelude.{ℕ, Text, Option}
use octw.Models.Tenant.{Uuid, Time}

pub data SecretType : Type 0 where
  env secretref : SecretType

pub record SecretMetadata : Type 0 where
  pub name : Text
  pub tenant_id : Uuid
  pub type : SecretType
  pub target_env_var : Option Text
  pub algorithm : Text
  pub key_version : ℕ
  pub last_rotated_at : Option Time
  pub created_at : Time
  pub updated_at : Time

pub data AuditAction : Type 0 where
  tenant_create tenant_delete secret_set secret_rotate secret_delete : AuditAction
  container_start container_stop container_pause container_wake : AuditAction
  member_add member_remove route_change backup_create backup_restore : AuditAction
