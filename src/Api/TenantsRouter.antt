-- ===== src/Api/TenantsRouter.antt =====
-- The handlers of src/octw/api/routers/tenants_router.py. An answer is kept as the value that it is
-- made from.
use octw.Prelude.{Text, Option, none, some, List}
use octw.Exec.{
  Result, ok, err, http, integrity_error, data_error, ⊤, Op, pure, lift, gets, ◌>>=◌, ◌>>◌,
}
use octw.Config.{Settings}
use octw.Models.Tenant.{Uuid, Time, Tenant, TenantCreate, Role, Member, tenant_admin, tenant_viewer}
use octw.Json.{Value, null, string}
use octw.Platform.{Platform}
use octw.Db.{TenantRow}
use octw.Vault.Envelope.{Crypto}
use octw.World.{World, in_session, commit}
use octw.Tenants.Rows.{update_row}
use octw.Tenants.Members
use octw.Tenants.Service
use octw.Tenants.Service.{get_tenant}
use octw.Api.Guard.{TokenPayload, require_member}

abbrev pub set_name : Text → Time → TenantRow → TenantRow
set_name name now r = record r { name = name; updated_at = now }

-- What a text column takes that may not be null.
abbrev pub column_text : Value → Result Text
column_text (string s) = ok s
column_text null = err integrity_error
column_text _ = err data_error

abbrev pub or_404 : {A : Type 0} → Option A → Result A
or_404 none = err (http 404)
or_404 (some a) = ok a

module _ {D : Type 0} (p : Platform D) (c : Crypto) (kek : Text) (settings : Settings) where
  unfoldable pub create_tenant : TenantCreate → TokenPayload → Op (World D) Tenant
  create_tenant req user = do
    tenant ← Service.create_tenant p c kek settings req (some user.user_id)
    commit
    pure tenant

  unfoldable pub delete_tenant : Uuid → TokenPayload → Op (World D) ⊤
  delete_tenant tenant_id user = do
    in_session (require_member tenant_id user tenant_admin)
    Service.delete_tenant p c kek settings tenant_id (some user.user_id)
    commit

module _ {D : Type 0} where
  unfoldable pub list_tenants : TokenPayload → Op (World D) (List Tenant)
  list_tenants user = gets (λ w. Service.list_tenants (some user.user_id) w.session)

  -- The handler `get_tenant`.
  unfoldable pub show_tenant : Uuid → TokenPayload → Op (World D) Tenant
  show_tenant tenant_id user = do
    in_session (require_member tenant_id user tenant_viewer)
    tenant ← gets (λ w. get_tenant tenant_id w.session)
    lift (or_404 tenant)

  -- `if updates: …`; the only column that may be changed is the name.
  unfoldable pub apply_updates : Uuid → Option Value → Op (World D) ⊤
  apply_updates tenant_id none = pure tt
  apply_updates tenant_id (some value) = do
    name ← lift (column_text value)
    in_session (update_row tenant_id (set_name name))
    commit

  unfoldable pub update_tenant : Uuid → Option Value → TokenPayload → Op (World D) ⊤
  update_tenant tenant_id name user = do
    in_session (require_member tenant_id user tenant_admin)
    tenant ← gets (λ w. get_tenant tenant_id w.session)
    lift (or_404 tenant)
    apply_updates tenant_id name

  unfoldable pub list_members : Uuid → TokenPayload → Op (World D) (List Member)
  list_members tenant_id user = do
    in_session (require_member tenant_id user tenant_viewer)
    in_session (Members.list_members tenant_id)

  module _ (c : Crypto) where
    unfoldable pub add_member : Uuid → Text → Role → TokenPayload → Op (World D) Member
    add_member tenant_id email role user = do
      in_session (require_member tenant_id user tenant_admin)
      member ← in_session (Members.add_member c tenant_id email role (some user.user_id))
      commit
      pure member

    unfoldable pub remove_member : Uuid → Uuid → TokenPayload → Op (World D) ⊤
    remove_member tenant_id user_id user = do
      in_session (require_member tenant_id user tenant_admin)
      in_session (Members.remove_member c tenant_id user_id (some user.user_id))
      commit
