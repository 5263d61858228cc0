-- ===== src/Tests/ApiCases.antt =====
-- Requests of the administrator and of the viewer of the sample, and the paths from there.
use octw.Prelude.{Text, ◌∷◌, codes, none, some, [], ◌≡◌, refl, has, find, keep, text_beq, arith}
use octw.Exec.{Result, err, http, integrity_error}
use octw.Config.{default_settings}
use octw.Models.Tenant.{tenant_user, Member}
use octw.Db.{Db, Session, IsValid}
use octw.World.{World}
use octw.Tenants.Roles.{role_in, add_member-role_in, remove_member-role_in}
use octw.Tenants.Members.{add_member, remove_member}
use octw.Api.Guard.{require_member}
use octw.Api.Requests.{Request, Answer, serve}
use octw.Api.Requests
use octw.Edge.Slugs.{admit}
use octw.Edge.Routed.{admit-slug_pattern}
use octw.Tenants.Rows.{row_to_tenant}
use octw.Tenants.Service.{list_tenants}
use octw.Tenants.Listing.{list_tenants-role_in}
use octw.Api.AuthRouter.{Site, login, verify}
use octw.Api.Login.{Meanwhile, at_once, logs_in, moves, Admitted, verify-once, verify-login}
use octw.Api.Access.{require_member-exact, serve-refused}
use octw.Api.Atomic.{serve-atomic}
use octw.Api.TenantsRouter
use octw.Hibernation.Scheduler.{at_time}
use octw.System.Secrets.{Reach-IsSound}
use octw.Vault.Sound.{IsSound}
use octw.Models.Secret.{env}
use octw.System.{Reach, here, next, request, tick, Reach-IsValid}
use octw.System.Audit.{Extends, Reach-Extends}
use octw.Tests.Machine.{Machine, boxes, marks, marks-CryptoLaws}
use octw.Tests.Wires.{open_tokens, open_tokens-TokenLaws}
use octw.Tests.Sample.{sample-IsSound, acme, sample, sample-IsValid, session, world, kek, ann, bob}

require_member-exact_example : require_member 1 bob tenant_user session ≡ (err (http 403), session)
unfolding find
require_member-exact_example = require_member-exact 1 bob tenant_user session sample-IsValid

abbrev refused : Result Answer × World Machine
refused = serve boxes marks kek default_settings Request.delete_tenant 1 bob world

serve-refused_example :
    (refused.0 ≡ err (http 403)) × (refused.1.committed ≡ sample) × (refused.1.machine ≡ [])
unfolding find
serve-refused_example =
    serve-refused boxes marks kek default_settings Request.delete_tenant 1 bob world sample-IsValid
      refl

abbrev missing : Result Answer × World Machine
missing =
    serve boxes marks kek default_settings (Request.add_member (codes "bob@acme") tenant_user) 1 ann
      world

-- Bob is a member already.
serve-atomic_example : missing.1.committed ≡ sample
unfolding serve Requests.dispatch TenantsRouter.add_member require_member
    octw.Tenants.Members.check_membership octw.Db.memberships_of keep add_member
    octw.Db.users_by_email text_beq octw.Tenants.Members.id_or_create
    octw.Tenants.Members.ensure_membership octw.Db.add_membership has
serve-atomic_example =
    serve-atomic boxes marks kek default_settings
      (Request.add_member (codes "bob@acme") tenant_user) 1 ann world integrity_error refl

-- The administrator starts the tenant, and hours later a pass of the scheduler stops it.
abbrev started : World Machine
started = (serve boxes marks kek default_settings Request.start_runtime 1 ann world).1

abbrev path :
    Reach boxes marks kek default_settings (λ k. k ≡ kek) world (at_time boxes 90000 started)
path = next (next here (request Request.start_runtime 1 ann world)) (tick 90000 started)

Reach-IsValid_example : IsValid started.committed
Reach-IsValid_example =
    Reach-IsValid boxes marks kek default_settings (λ k. k ≡ kek) path sample-IsValid

Reach-Extends_example : Extends [] started.committed.audit_events
Reach-Extends_example = Reach-Extends boxes marks kek default_settings (λ k. k ≡ kek) path

-- The administrator stores a secret of the tenant.
abbrev stored : World Machine
stored =
    (serve boxes marks kek default_settings
      (Request.set_secret (codes "token") (codes "new") env none) 1 ann world).1

Reach-IsSound_example : IsSound marks kek stored.committed
Reach-IsSound_example =
    Reach-IsSound boxes marks marks-CryptoLaws kek default_settings
      (next here (request (Request.set_secret (codes "token") (codes "new") env none) 1 ann world))
      sample-IsSound

abbrev added : Session
added = (add_member marks 2 (codes "bob@acme") tenant_user (some 10) session).1

abbrev bob_member : Member
bob_member = record {
  user_id = 11;
  tenant_id = 2;
  email = codes "bob@acme";
  role = tenant_user;
  created_at = 5000;
}

add_member-role_in_example : role_in 2 11 added.db ≡ some tenant_user
unfolding add_member octw.Db.users_by_email keep text_beq octw.Tenants.Members.id_or_create
    octw.Tenants.Members.ensure_membership octw.Db.add_membership has octw.Tenants.Rows.emit_audit
add_member-role_in_example =
    add_member-role_in marks 2 (codes "bob@acme") tenant_user (some 10) session bob_member 2 11 refl

remove_member-role_in_example :
    role_in 1 11 (remove_member marks 1 11 (some 10) session).1.db ≡ none
unfolding remove_member octw.Db.memberships_of keep octw.Tenants.Members.remove_found_member
    octw.Tenants.Rows.emit_audit
remove_member-role_in_example = remove_member-role_in marks 1 11 (some 10) session 1 11 refl

abbrev site : Site Machine
site = record { world = world; pending = []; drawn = 7 }

abbrev ann_mail : Text
ann_mail = codes "ann@acme"

abbrev first_login : Site Machine
first_login = (login open_tokens ann_mail site).1

abbrev second_login : Site Machine
second_login = (login open_tokens (codes "bob@acme") first_login).1

abbrev ten_minutes : World Machine
ten_minutes = record world { session = record session { now = 5600 } }

-- The site after a login of ann, one of bob, and ten minutes.
abbrev sent : Site Machine
sent = record second_login { world = ten_minutes }

meanwhile : Meanwhile open_tokens marks default_settings (7 ∷ []) first_login sent
unfolding login
meanwhile = moves ten_minutes (logs_in (codes "bob@acme") at_once (λ e. cc))

verify-login_example :
    Admitted open_tokens marks default_settings ann_mail 6000
      (verify open_tokens marks default_settings (7 ∷ []) sent).0
      (verify open_tokens marks default_settings (7 ∷ []) sent).1.world
unfolding has
verify-login_example =
    verify-login open_tokens marks default_settings open_tokens-TokenLaws ann_mail site sent 6000
      meanwhile sample-IsValid (omega arith, (omega arith, tt)) (omega arith) refl (omega arith)
      (omega arith)

abbrev used : Site Machine
used = (verify open_tokens marks default_settings (7 ∷ []) sent).1

verify-once_example :
    ((verify open_tokens marks default_settings (7 ∷ []) used).0 ≡ err (http 401))
    × ((verify open_tokens marks default_settings (7 ∷ []) used).1.world ≡ used.world)
verify-once_example = verify-once open_tokens marks default_settings (7 ∷ []) sent

-- A tenant may be called api, and the proxy does not route to it.
admit-slug_pattern_example : admit (codes "api") (some ann) ≡ err (http 404)
unfolding octw.Edge.Slugs.slug_pattern octw.Edge.Slugs.slug_tail has text_beq
admit-slug_pattern_example = admit-slug_pattern (codes "api") (some ann) refl

list_tenants-role_in_example : list_tenants (some 11) session ≡ row_to_tenant acme ∷ []
unfolding keep find
list_tenants-role_in_example = list_tenants-role_in 11 session sample-IsValid
