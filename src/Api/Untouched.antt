-- ===== src/Api/Untouched.antt =====
-- src/octw/api/routers: a request on one tenant against the container of another.
use octw.Prelude.{
  Text, Bool, true, none, some, ◌≡◌, ◌≢◌, ◌<◌, ◌^◌, Bool-cases, inl, inr, refl, ◌==◌, text_eq,
  text_beq_iff, arith,
}
use octw.Config.{Settings}
use octw.Models.Tenant.{Uuid}
use octw.Platform.{Platform}
use octw.Vault.Envelope.{Crypto}
use octw.World.{World}
use octw.Orchestrator.Names.{container_name}
use octw.Orchestrator.Keeps.{MachineInvariant}
use octw.Orchestrator.Apart.{ApartLaws, Found-MachineInvariant, other_names}
use octw.Orchestrator.Containers.{get_container_logs}
use octw.Tenants.Machine.{
  start_tenant-keeps_machine, stop_tenant-keeps_machine, pause_tenant-keeps_machine,
  delete_tenant-keeps_machine, wake_tenant-keeps_machine, get_runtime_info-keeps_machine,
}
use octw.Orchestrator.Isolation.{names-Distinct}
use octw.Api.Isolation.{belongings, serve-isolated}
use octw.Api.Guard.{TokenPayload}
use octw.Api.TenantsRouter
use octw.Api.RuntimeRouter
use octw.Api.SecretsRouter
use octw.Api.Requests.{
  Request, show_tenant, delete_tenant, list_members, update_tenant, add_member, remove_member,
  get_runtime, start_runtime, stop_runtime, pause_runtime, wake_runtime, get_logs, list_secrets,
  set_secret, delete_secret, rotate_secret, dispatch, serve,
}

module _ {D : Type 0} (p : Platform D) {names : Text → Bool} {Q : D → Type 0}
    (inv : MachineInvariant p names Q) (c : Crypto) (kek : Text) (settings : Settings) where
  dispatch-keeps_machine :
      (req : Request) (t : Uuid) (user : TokenPayload) (w : World D)
      → names (container_name t) ≡ true
      → Q w.machine
      → Q (dispatch p c kek settings req t user w).1.machine
  unfolding dispatch TenantsRouter.show_tenant TenantsRouter.delete_tenant
      TenantsRouter.list_members TenantsRouter.update_tenant TenantsRouter.apply_updates
      TenantsRouter.add_member TenantsRouter.remove_member RuntimeRouter.get_runtime
      RuntimeRouter.start_runtime RuntimeRouter.stop_runtime RuntimeRouter.pause_runtime
      RuntimeRouter.wake_runtime RuntimeRouter.get_logs SecretsRouter.list_secrets
      SecretsRouter.set_secret SecretsRouter.delete_secret SecretsRouter.rotate_secret
      get_container_logs
  dispatch-keeps_machine show_tenant t user w i q = grind arith
  dispatch-keeps_machine delete_tenant t user w i q =
      grind (arith, delete_tenant-keeps_machine p inv c kek settings t i)
  dispatch-keeps_machine list_members t user w i q = grind arith
  dispatch-keeps_machine (update_tenant none) t user w i q = grind arith
  dispatch-keeps_machine (update_tenant (some n)) t user w i q = grind arith
  dispatch-keeps_machine (add_member m r) t user w i q = grind arith
  dispatch-keeps_machine (remove_member x) t user w i q = grind arith
  dispatch-keeps_machine get_runtime t user w i q =
      grind (arith, get_runtime_info-keeps_machine p inv c kek settings t)
  dispatch-keeps_machine start_runtime t user w i q =
      grind (arith, start_tenant-keeps_machine p inv c kek settings t i)
  dispatch-keeps_machine stop_runtime t user w i q =
      grind (arith, stop_tenant-keeps_machine p inv c kek settings t i)
  dispatch-keeps_machine pause_runtime t user w i q =
      grind (arith, pause_tenant-keeps_machine p inv c kek settings t i)
  dispatch-keeps_machine wake_runtime t user w i q =
      grind (arith, wake_tenant-keeps_machine p inv c kek settings t i)
  dispatch-keeps_machine (get_logs s n) t user w i q = grind arith
  dispatch-keeps_machine list_secrets t user w i q = grind arith
  dispatch-keeps_machine (set_secret n x ty y) t user w i q = grind arith
  dispatch-keeps_machine (delete_secret n) t user w i q = grind arith
  dispatch-keeps_machine (rotate_secret n x) t user w i q = grind arith

module _ {D : Type 0} (p : Platform D) (c : Crypto) (kek : Text) (settings : Settings) where
  other_container :
      (u t : Uuid)
      → u < 2 ^ 128
      → t < 2 ^ 128
      → u ≢ t
      → other_names (container_name t) (container_name u) ≡ true
  other_container u t small small' apart =
      let distinct = (names-Distinct settings u t small small').0 in
      elim (Bool-cases (container_name u == container_name t)) [
        | inl e ↦
            absurd (apart (distinct ((text_beq_iff (container_name u) (container_name t)).0 e)))
        | inr e ↦ rw e refl
      ]

  serve-found :
      (req : Request) (u t : Uuid) (user : TokenPayload) (w : World D)
      → u < 2 ^ 128
      → t < 2 ^ 128
      → u ≢ t
      → ApartLaws p (container_name t)
      → p.containers_get (container_name t) (serve p c kek settings req u user w).1.machine
        ≡ p.containers_get (container_name t) w.machine
  unfolding serve
  serve-found req u t user w small small' apart laws =
      dispatch-keeps_machine p
        (Found-MachineInvariant p (container_name t) laws
          (p.containers_get (container_name t) w.machine))
        c kek settings req u user _ (other_container u t small small' apart) refl

  -- A request on one tenant, whoever makes it and whatever it ends with, leaves the committed row
  -- of every other tenant, its members, its secrets and its key as they were, and what Docker
  -- answers for its container, if Docker keeps containers of different names apart, for UUIDs
  -- below 2 ^ 128.
  pub serve-untouched :
      (req : Request) (u t : Uuid) (user : TokenPayload) (w : World D)
      → u < 2 ^ 128
      → t < 2 ^ 128
      → u ≢ t
      → ApartLaws p (container_name t)
      → (belongings t (serve p c kek settings req u user w).1.committed ≡ belongings t w.committed)
        × (p.containers_get (container_name t) (serve p c kek settings req u user w).1.machine
            ≡ p.containers_get (container_name t) w.machine)
  serve-untouched req u t user w small small' apart laws = (
    serve-isolated p c kek settings req u t user w apart,
    serve-found req u t user w small small' apart laws,
  )
