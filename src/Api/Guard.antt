-- ===== src/Api/Guard.antt =====
-- src/octw/api/auth.py (the payload of a token) and `_require_member` of
-- src/octw/api/routers/tenants_router.py.
use octw.Prelude.{ℕ, Text, Option, none, some, ltb, if◌then◌else◌}
use octw.Exec.{Result, ok, err, http, Op, lift, gets, ◌>>=◌}
use octw.Models.Tenant.{Uuid, Role, tenant_admin, tenant_user, tenant_viewer}
use octw.Db.{Session}
use octw.Tenants.Members.{check_membership}

pub record TokenPayload : Type 0 where
  pub user_id : Uuid
  pub email : Text
  pub tid : Option Uuid

-- `role_order`
abbrev pub role_order : Role → ℕ
role_order tenant_viewer = 0
role_order tenant_user = 1
role_order tenant_admin = 2

-- Who is no member, or has too low a role, is answered 403.
abbrev pub check_role : Role → Option Role → Result Role
check_role min_role none = err (http 403)
check_role min_role (some role) =
    if ltb (role_order role) (role_order min_role) then err (http 403) else ok role

unfoldable pub require_member : Uuid → TokenPayload → Role → Op Session Role
require_member tenant_id user min_role = do
  found ← gets (check_membership tenant_id user.user_id)
  role ← lift found
  lift (check_role min_role role)
