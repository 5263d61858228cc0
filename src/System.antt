-- ===== src/System.antt =====
-- The whole control plane as a step relation: requests of clients to the routes and to the proxy, the
-- internal requests, commands of the operator, passes of the scheduler, and time, in any order.
pub mod Audit
pub mod Secrets
use octw.Prelude.{ℕ, Text, Option, none, some, List, [], ◌≡◌, refl, arith, map, subst, sym}
use octw.Exec.{Exc, Result, ok, err, Op, ⊤, ◌>>=◌, ◌>>◌, continue}
use octw.Config.{Settings}
use octw.Models.Tenant.{Uuid, Time, TenantCreate, Tenant}
use octw.Platform.{Platform}
use octw.Db.{
  Db, TenantRow, Invariant, IsValid, IsValid-Invariant, everywhere, IsValid-SecretInvariant,
  SweepInvariant, IsValid-SweepInvariant,
}
use octw.Vault.Envelope.{Crypto}
use octw.Vault.Kek.{load_kek}
use octw.Vault.Keeps.{VaultInvariant, SecretInvariant-VaultInvariant}
use octw.World.{World}
use octw.Tenants.Keeps.{create_tenant-keeps}
use octw.Tenants.Service
use octw.Hibernation.Scheduler.{check_idle_tenants, at_time, last_active}
use octw.Hibernation.Policy.{Decision, stay, pause, stop, carry_out, settle, decide}
use octw.Hibernation.Settles.{Outcome, settled, aborted, check_idle_tenants-Outcome}
use octw.Api.Guard.{TokenPayload}
use octw.Api.TenantsRouter.{create_tenant}
use octw.Api.Requests.{Request, in_request, serve}
use octw.Api.Keeps.{dispatch-keeps}
use octw.Api.Auth.{Tokens}
use octw.Api.AuthRouter.{Site}
use octw.Api.Signs.{verify_at, verified-keeps}
use octw.Cli.Runs.{Command, run_command}
use octw.Cli.Keeps.{run_command-keeps}
use octw.Api.ProvisionRouter.{ProvisionRequest, provision_tenant}
use octw.Api.ProvisionKeeps.{provision_tenant-keeps}
use octw.Api.Internals.{InternalRequest, serve_internal, serve_internal-keeps}
use octw.Edge.Proxy.{Client, Incoming, proxy_path}
use octw.Edge.Keeps.{proxy_path-keeps}
use octw.Api.Atomic.{create_tenant-Uncommitted}

-- The routes have the master key `kek`, and a command loads one of `keys`, if it loads any.
module _ {D : Type 0} (p : Platform D) (c : Crypto) (kek : Text) (cfg : Settings)
    (keys : Text → Type 0) where
  pub data Step : World D → World D → Type 0 where
    request :
        (req : Request) (t : Uuid) (u : TokenPayload) (w : World D)
        → Step w (serve p c kek cfg req t u w).1
    create :
        (req : TenantCreate) (u : TokenPayload) (w : World D)
        → Step w (in_request (create_tenant p c kek cfg req u) w).1
    provision :
        (req : ProvisionRequest) (u : TokenPayload) (w : World D)
        → Step w (in_request (provision_tenant p c kek cfg req u) w).1
    internal :
        (req : InternalRequest) (identifier : Text) (w : World D)
        → Step w (serve_internal p c kek cfg req identifier w).1
    proxied :
        (tokens : Tokens) (client : Client D) (slug path : Text) (request : Incoming) (w : World D)
        → Step w (proxy_path p c kek cfg tokens client slug path request w).1
    verified :
        (tokens : Tokens) (token : Text) (site : Site D) (w : World D)
        → Step w (in_request (verify_at c cfg tokens token site) w).1
    command :
        (kek_env : Option Text) (x : Command) (w : World D)
        → ((k : Text) → load_kek p cfg kek_env w.machine ≡ ok k → keys k)
        → Step w (run_command p c cfg kek_env x w).1
    check : (w : World D) → Step w (check_idle_tenants p cfg w).1
    tick : (now : Time) (w : World D) → Step w (at_time p now w)

  pub data Reach (w : World D) : World D → Type 0 where
    here : Reach w w
    next : {v u : World D} → Reach w v → Step v u → Reach w u

  module _ {P : Db → Type 0} (inv : Invariant everywhere P) (sweep : SweepInvariant P) where
    create-keeps :
        (req : TenantCreate) (u : TokenPayload) (w : World D)
        → P w.committed
        → P (in_request (create_tenant p c kek cfg req u) w).1.committed
    unfolding create_tenant
    create-keeps req u w v =
        grind (arith, create_tenant-keeps inv p c kek cfg, create_tenant-Uncommitted p c kek cfg)

    carry_out-keys :
        (now : Time) (d : Decision) (r : TenantRow)
        → ((carry_out now d r).tenant_id ≡ r.tenant_id) × ((carry_out now d r).slug ≡ r.slug)
    carry_out-keys now stay r = (refl, refl)
    carry_out-keys now pause r = (refl, refl)
    carry_out-keys now stop r = (refl, refl)

    outcome-keeps :
        {w w' : World D} {r : Result ⊤} → Outcome p cfg w w' r → P w.committed → P w'.committed
    outcome-keeps {w} (settled e) v = subst P (sym e) (
        sweep.maps_tenants (settle cfg w.session.now) w.committed
          (λ r. (carry_out-keys w.session.now _ r).0) (λ r. (carry_out-keys w.session.now _ r).1) v)
    outcome-keeps (aborted x e) v = subst P (sym e) v

    module _ (vault : VaultInvariant everywhere c kek P)
        (vaults : (k : Text) → keys k → VaultInvariant everywhere c k P) where
      Step-keeps : {w u : World D} → Step w u → P w.committed → P u.committed
      unfolding serve
      Step-keeps (request req t u w) v = dispatch-keeps inv p c kek cfg vault req t u _ refl v v
      Step-keeps (create req u w) v = create-keeps req u w v
      Step-keeps (provision req u w) v = provision_tenant-keeps inv p c kek cfg vault req u w v
      Step-keeps (internal req i w) v = serve_internal-keeps p c kek cfg inv vault req i w v
      Step-keeps (proxied tokens client slug path q w) v =
          proxy_path-keeps inv p c kek cfg tokens client vault slug path q w v
      Step-keeps (verified tokens token site w) v = verified-keeps c cfg inv tokens token site w v
      Step-keeps (command kek_env x w allowed) v =
          run_command-keeps p c cfg kek_env inv x w v (λ k q. vaults k (allowed k q))
      Step-keeps (check w) v = outcome-keeps (check_idle_tenants-Outcome p cfg w) v
      Step-keeps (tick now w) v = v

      pub Reach-keeps : {w u : World D} → Reach w u → P w.committed → P u.committed
      Reach-keeps here v = v
      Reach-keeps (next r s) v = Step-keeps s (Reach-keeps r v)

  -- From a database that meets the unique constraints and foreign keys of its tables, no sequence
  -- of requests, proxied, internal and provisioning ones among them, tenant creations, logins,
  -- commands of the operator, with whatever master keys, scheduler passes and time steps commits
  -- one that does not.
  pub Reach-IsValid : {w u : World D} → Reach w u → IsValid w.committed → IsValid u.committed
  Reach-IsValid r v =
      Reach-keeps IsValid-Invariant IsValid-SweepInvariant
        (SecretInvariant-VaultInvariant IsValid-SecretInvariant c kek)
        (λ k _. SecretInvariant-VaultInvariant IsValid-SecretInvariant c k) r v
