-- ===== src/Edge/Reaches.antt =====
-- src/octw/edge/proxy.py with src/octw/api/routers/internal_router.py: the container that a request is
-- sent to.
use octw.Prelude.{
  Text, codes, Option, none, some, [], ◌∷◌, ◌≡◌, refl, sym, ap, subst, ◌∙◌, arith, ◌++◌, inl, inr,
}
use octw.Exec.{ok, continue, Result-cases}
use octw.Config.{Settings}
use octw.Models.Tenant.{Uuid, ContainerState}
use octw.Platform.{Platform}
use octw.Orchestrator.Names.{container_name}
use octw.Orchestrator.Laws.{DockerLaws}
use octw.Vault.Envelope.{Crypto}
use octw.World.{World}
use octw.Tenants.Wakes.{Runs, running-Runs}
use octw.Api.InternalRouter.{Status, ensure_running, get_status}
use octw.Edge.Fetches.{
  fetch-answered, Names, Read, Names-moves, fetch-status, Serving, Reached, ensure_running-Runs,
}
use octw.Edge.Proxy.{
  Client, fetch, answered, failed, crashed, ip_or_503, Next, next_of, there, wake, refuse,
  tenant_url, internal_api, anonymous_list, after_ensure, go_on, resolve_and_ensure,
}
use octw.Api.Auth.{Tokens}

module _ {D : Type 0} (p : Platform D) (laws : DockerLaws p) (c : Crypto) (kek : Text)
    (settings : Settings) where
  ip_or_503-some : (o : Option Text) (ip : Text) → ip_or_503 o ≡ ok ip → o ≡ some ip
  ip_or_503-some none ip h = absurd (ground arith)
  ip_or_503-some (some []) ip h = absurd (ground arith)
  ip_or_503-some (some (x ∷ s)) ip h = ground arith

  next_of-there :
      (s : ContainerState) (o : Option Text) (ip : Text)
      → next_of s o ≡ there ip
      → (s ≡ ContainerState.running) × (o ≡ some ip)
  unfolding next_of
  next_of-there ContainerState.running none ip h = absurd (ground arith)
  next_of-there ContainerState.running (some []) ip h = absurd (ground arith)
  next_of-there ContainerState.running (some (x ∷ a)) ip h = ground arith
  next_of-there ContainerState.error o ip h = absurd (ground arith)
  next_of-there ContainerState.paused o ip h = absurd (ground arith)
  next_of-there ContainerState.stopped o ip h = absurd (ground arith)
  next_of-there ContainerState.not_found o ip h = absurd (ground arith)

  module _ (tokens : Tokens) (client : Client D) (slug : Text) where
    after_ensure-state :
        (id : Text) (w : World D)
        → (after_ensure p c kek settings tokens client slug (answered id) w).1
          ≡ (fetch client (tenant_url slug (codes "/status")) (get_status p slug) w).1
    unfolding after_ensure
    after_ensure-state id w = ground arith

    after_ensure-Reached :
        (id ip : Text) (w : World D) (t : Uuid)
        → Names p slug w t
        → Runs (p.containers_get (container_name t) w.machine)
        → let (r, w') = after_ensure p c kek settings tokens client slug (answered id) w in
          r ≡ ok ip → Reached p slug ip w'
    unfolding after_ensure
    after_ensure-Reached id ip w t n runs h =
        elim (Result-cases
          (fetch client (tenant_url slug (codes "/status")) (get_status p slug) w).0) [
            | inl (answered s, q) ↦
                let (slugs, (machine, (u, (names, (state, address))))) =
                  fetch-status p client (tenant_url slug (codes "/status")) slug w s q in
                let w' =
                  (fetch client (tenant_url slug (codes "/status")) (get_status p slug) w).1 in
                let found = ip_or_503-some s.ip ip (ground arith) in
                let same : u ≡ t = ground arith in
                let serving : Serving p u ip w.machine = (
                  subst (λ v. Runs (p.containers_get (container_name v) w.machine)) (sym same) runs,
                  address ∙ ap ok found,
                ) in
                subst (Reached p slug ip) (sym (after_ensure-state id w)) (
                  u,
                  (
                    Names-moves p slug w w' u slugs names,
                    subst (Serving p u ip) (sym machine) serving,
                  ),
                )
            | inl (failed k, q) ↦ absurd (ground arith)
            | inl (crashed, q) ↦ absurd (ground arith)
            | inr (x, q) ↦ absurd (ground arith)
          ]

    -- The container that is woken runs, and the slug names its tenant still.
    wake-Reached :
        (ip : Text) (w : World D)
        → let (r, w') = go_on p c kek settings tokens client slug wake w in
          r ≡ ok ip → Reached p slug ip w'
    unfolding go_on after_ensure
    wake-Reached ip w h =
        let url = tenant_url slug (codes "/ensure-running") in
        let w0 : World D = record w { session = record w.session { db = w.committed } } in
        let w' = (fetch client url (ensure_running p c kek settings slug) w).1 in
        elim (Result-cases (fetch client url (ensure_running p c kek settings slug) w).0) [
          | inl (answered id, q) ↦
              let (r, e) =
                fetch-answered client url (ensure_running p c kek settings slug) w id q in
              let (t, (names, (runs, slugs))) =
                ensure_running-Runs p laws c kek settings slug id w0 r in
              rw (q, continue)
                (after_ensure-Reached id ip w' t (Names-moves p slug w w' t (rw e slugs) names)
                  (rw e runs) (rw (q, continue) at h))
          | inl (failed k, q) ↦ absurd (ground arith)
          | inl (crashed, q) ↦ absurd (ground arith)
          | inr (x, q) ↦ absurd (ground arith)
        ]

    go_on-Reached :
        (n : Next) (s : Status) (ip : Text) (w : World D) (t : Uuid)
        → next_of s.state s.ip ≡ n
        → Names p slug w t
        → Read p t s w.machine
        → let (r, w') = go_on p c kek settings tokens client slug n w in
          r ≡ ok ip → Reached p slug ip w'
    unfolding go_on
    go_on-Reached (there a) s ip w t e names (state, address) h =
        let (running, found) = next_of-there s.state s.ip a e in
        let same : a ≡ ip = ground arith in
        (
          t,
          (
            names,
            (
              running-Runs p laws t w.machine (state ∙ ap ok running),
              address ∙ ap ok (found ∙ ap some same),
            ),
          ),
        )
    go_on-Reached wake s ip w t e names read h = wake-Reached ip w h
    go_on-Reached refuse s ip w t e names read h = absurd (ground arith)

    -- Under the Docker laws, an address that `_resolve_and_ensure` returns for a slug is the
    -- address of the container of the tenant that the slug names, and this container runs, whether
    -- it had to be woken or not.
    pub resolve_and_ensure-Reached :
        (ip : Text) (w : World D)
        → let (r, w') = resolve_and_ensure p c kek settings tokens client slug w in
          r ≡ ok ip → Reached p slug ip w'
    unfolding resolve_and_ensure
    resolve_and_ensure-Reached ip w h =
        let listed =
          fetch client (internal_api ++ codes "/api/v1/tenants") (anonymous_list tokens settings)
            w in
        let w1 = listed.1 in
        let url = tenant_url slug (codes "/status") in
        let w' = (fetch client url (get_status p slug) w1).1 in
        elim (Result-cases listed.0) [
          | inr (x, q) ↦ absurd (ground arith)
          | inl (l, q) ↦ elim (Result-cases (fetch client url (get_status p slug) w1).0) [
            | inl (answered s, r) ↦
                let (slugs, (machine, (t, (names, read)))) =
                  fetch-status p client url slug w1 s r in
                rw (q, r, continue)
                  (go_on-Reached (next_of s.state s.ip) s ip w' t refl
                    (Names-moves p slug w1 w' t slugs names) (subst (Read p t s) (sym machine) read)
                    (rw (q, r, continue) at h))
            | inl (failed k, r) ↦ absurd (ground arith)
            | inl (crashed, r) ↦ absurd (ground arith)
            | inr (x, r) ↦ absurd (ground arith)
          ]
        ]
