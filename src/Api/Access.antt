-- ===== src/Api/Access.antt =====
-- Access to the routes of src/octw/api/routers: who is let in, and what a refused request leaves.
use octw.Prelude.{
  Text, Bool, true, false, Option, none, some, if◌then◌else◌, ◌≡◌, refl, ap, ◌∙◌, nat_eq, pair_eq,
}
use octw.Exec.{Result, ok, err, http, continue}
use octw.Config.{Settings}
use octw.Models.Tenant.{Uuid, Role, tenant_admin, tenant_user, tenant_viewer}
use octw.Platform.{Platform}
use octw.Db.{Session, IsValid, memberships_of, uq_membership, one-found}
use octw.Vault.Envelope.{Crypto}
use octw.World.{World}
use octw.Tenants.Members.{check_membership}
use octw.Tenants.Roles.{role_in}
use octw.Api.Guard.{TokenPayload, require_member, check_role}
use octw.Api.TenantsRouter
use octw.Api.RuntimeRouter
use octw.Api.SecretsRouter
use octw.Api.Requests.{
  Request, show_tenant, delete_tenant, list_members, update_tenant, add_member, remove_member,
  get_runtime, start_runtime, stop_runtime, pause_runtime, wake_runtime, get_logs, list_secrets,
  set_secret, delete_secret, rotate_secret, dispatch, serve,
}

check_membership-eq :
    (t u : Uuid) (s : Session) → IsValid s.db → check_membership t u s ≡ ok (role_in t u s.db)
unfolding check_membership memberships_of
check_membership-eq t u s v =
    rw (one-found uq_membership (t, u) s.db.memberships v.membership_keys, check_membership)

-- Whether who has a role may do what is asked of a role at least: a viewer what viewers may, a user
-- that and what users may, an administrator everything.
abbrev pub may : Role → Role → Bool
may tenant_viewer role = true
may tenant_user tenant_viewer = false
may tenant_user tenant_user = true
may tenant_user tenant_admin = true
may tenant_admin tenant_viewer = false
may tenant_admin tenant_user = false
may tenant_admin tenant_admin = true

abbrev pub verdict : Role → Option Role → Result Role
verdict min_role none = err (http 403)
verdict min_role (some role) = if may min_role role then ok role else err (http 403)

check_role-verdict :
    (min_role : Role) (o : Option Role) → check_role min_role o ≡ verdict min_role o
check_role-verdict min_role none = refl
check_role-verdict tenant_viewer (some tenant_viewer) = refl
check_role-verdict tenant_viewer (some tenant_user) = refl
check_role-verdict tenant_viewer (some tenant_admin) = refl
check_role-verdict tenant_user (some tenant_viewer) = refl
check_role-verdict tenant_user (some tenant_user) = refl
check_role-verdict tenant_user (some tenant_admin) = refl
check_role-verdict tenant_admin (some tenant_viewer) = refl
check_role-verdict tenant_admin (some tenant_user) = refl
check_role-verdict tenant_admin (some tenant_admin) = refl

-- In a valid database `_require_member` changes nothing and returns the role of the user's
-- membership if it suffices: any role for a viewer, a user's or an administrator's for a user, an
-- administrator's for an administrator; with another role, or none, it answers 403.
pub require_member-exact :
    (t : Uuid) (user : TokenPayload) (min_role : Role) (s : Session)
    → IsValid s.db
    → require_member t user min_role s ≡ (verdict min_role (role_in t user.user_id s.db), s)
unfolding require_member
require_member-exact t user min_role s v =
    rw (check_membership-eq t user.user_id s v, continue)
      (ap (λ r. (r, s)) (check_role-verdict min_role (role_in t user.user_id s.db)))

-- The role that docs/api.md asks for, or membership alone.
abbrev pub required : Request → Role
required show_tenant = tenant_viewer
required list_members = tenant_viewer
required get_runtime = tenant_viewer
required (get_logs s n) = tenant_viewer
required list_secrets = tenant_viewer
required start_runtime = tenant_user
required stop_runtime = tenant_user
required pause_runtime = tenant_user
required wake_runtime = tenant_user
required _ = tenant_admin

module _ {D : Type 0} (p : Platform D) (c : Crypto) (kek : Text) (settings : Settings) where
  dispatch-refused :
      (req : Request) (t : Uuid) (user : TokenPayload) (w : World D)
      → require_member t user (required req) w.session ≡ (err (http 403), w.session)
      → dispatch p c kek settings req t user w ≡ (err (http 403), w)
  unfolding dispatch TenantsRouter.show_tenant TenantsRouter.delete_tenant
      TenantsRouter.list_members TenantsRouter.update_tenant TenantsRouter.add_member
      TenantsRouter.remove_member RuntimeRouter.get_runtime RuntimeRouter.start_runtime
      RuntimeRouter.stop_runtime RuntimeRouter.pause_runtime RuntimeRouter.wake_runtime
      RuntimeRouter.get_logs SecretsRouter.list_secrets SecretsRouter.set_secret
      SecretsRouter.delete_secret SecretsRouter.rotate_secret
  dispatch-refused show_tenant t user w h = rw h
  dispatch-refused delete_tenant t user w h = rw h
  dispatch-refused list_members t user w h = rw h
  dispatch-refused (update_tenant n) t user w h = rw h
  dispatch-refused (add_member e r) t user w h = rw h
  dispatch-refused (remove_member v) t user w h = rw h
  dispatch-refused get_runtime t user w h = rw h
  dispatch-refused start_runtime t user w h = rw h
  dispatch-refused stop_runtime t user w h = rw h
  dispatch-refused pause_runtime t user w h = rw h
  dispatch-refused wake_runtime t user w h = rw h
  dispatch-refused (get_logs s n) t user w h = rw h
  dispatch-refused list_secrets t user w h = rw h
  dispatch-refused (set_secret n v ty e) t user w h = rw h
  dispatch-refused (delete_secret n) t user w h = rw h
  dispatch-refused (rotate_secret n v) t user w h = rw h

  -- Whoever lacks the role that a request on a tenant asks for is answered 403, with the committed
  -- database and the machine unchanged.
  pub serve-refused :
      (req : Request) (t : Uuid) (user : TokenPayload) (w : World D)
      → IsValid w.committed
      → verdict (required req) (role_in t user.user_id w.committed) ≡ err (http 403)
      → let (r, w') = serve p c kek settings req t user w in
        (r ≡ err (http 403)) × (w'.committed ≡ w.committed) × (w'.machine ≡ w.machine)
  unfolding serve
  serve-refused req t user w v h =
      let w0 : World D = record w { session = record w.session { db = w.committed } } in
      let e =
        dispatch-refused req t user w0
          (require_member-exact t user (required req) w0.session v ∙ ap (λ r. (r, w0.session)) h) in
      rw e (refl, refl, refl)
