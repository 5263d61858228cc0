-- ===== src/Tests/Sample.antt =====
-- Two tenants, of which the first runs, has a secret, an administrator and a viewer.
use octw.Prelude.{Text, codes, false, none, some, [], ◌∷◌, refl, has, find, text_beq}
use octw.Models.Tenant.{TenantStatus, TenantPlan, IsolationMode, tenant_admin, tenant_viewer}
use octw.Models.Secret.{env}
use octw.Db.{Db, Session, TenantRow, IsValid}
use octw.Vault.Sound.{IsSound}
use octw.World.{World}
use octw.Api.Guard.{TokenPayload}
use octw.Tests.Machine.{Machine, marks}

abbrev pub acme : TenantRow
acme = record {
  tenant_id = 1;
  slug = codes "acme";
  name = codes "Acme";
  plan = TenantPlan.standard;
  status = TenantStatus.running;
  isolation_mode = IsolationMode.hardened;
  resource_limits = none;
  trusted_proxy_auth = false;
  container_id = some (codes "box");
  network_id = some (codes "net");
  openclaw_image = none;
  openclaw_digest = none;
  provider = some (codes "zai");
  last_activity_at = some 100;
  created_at = 50;
  updated_at = 50;
}

abbrev beta : TenantRow
beta = record acme {
  tenant_id = 2;
  slug = codes "beta";
  status = TenantStatus.stopped;
  provider = none;
}

abbrev pub kek : Text
kek = 3 ∷ 1 ∷ 4 ∷ []

abbrev pub sample : Db
sample = record {
  tenants = acme ∷ beta ∷ [];
  users =
      record { user_id = 10; email = codes "ann@acme"; created_at = 50 }
      ∷ record { user_id = 11; email = codes "bob@acme"; created_at = 50 }
      ∷ [];
  memberships =
      record {
        membership_id = 20;
        tenant_id = 1;
        user_id = 10;
        role = tenant_admin;
        created_at = 50;
      }
      ∷ record {
        membership_id = 21;
        tenant_id = 1;
        user_id = 11;
        role = tenant_viewer;
        created_at = 50;
      }
      ∷ [];
  secrets =
      record {
        secret_id = 30;
        tenant_id = 1;
        name = codes "token";
        ciphertext = 2 ∷ codes "hush";
        nonce = 0 ∷ [];
        algorithm = codes "AES-256-GCM";
        key_version = 1;
        secret_type = env;
        target_env_var = some (codes "TOKEN");
        last_rotated_at = none;
        created_at = 60;
        updated_at = 60;
      }
      ∷ [];
  deks =
      record {
        tenant_id = 1;
        encrypted_dek = 3 ∷ 8 ∷ 9 ∷ [];
        dek_nonce = 0 ∷ [];
        kek_version = 1;
        created_at = 60;
      }
      ∷ [];
  audit_events = [];
}

pub sample-IsValid : IsValid sample
unfolding has text_beq
sample-IsValid = record {
  tenant_ids = (refl, (refl, tt));
  slugs = (refl, (refl, tt));
  user_ids = (refl, (refl, tt));
  emails = (refl, (refl, tt));
  membership_keys = (refl, (refl, tt));
  secret_keys = (refl, tt);
  dek_keys = (refl, tt);
  membership_tenants = (refl, (refl, tt));
  membership_users = (refl, (refl, tt));
  secret_tenants = (refl, tt);
  dek_tenants = (refl, tt);
}

pub sample-IsSound : IsSound marks kek sample
unfolding find
sample-IsSound = record { deks_open = (refl, tt); secrets_open = (refl, tt) }

abbrev pub session : Session
session = record { db = sample; now = 5000; draws = 0 }

-- The machine runs the first tenant's container.
abbrev pub world : World Machine
world = record { session = session; committed = sample; machine = [] }

abbrev pub ann : TokenPayload
ann = record { user_id = 10; email = codes "ann@acme"; tid = some 1 }

abbrev pub bob : TokenPayload
bob = record { user_id = 11; email = codes "bob@acme"; tid = some 1 }
