-- ===== src/Edge/Keeps.antt =====
-- Every request to src/octw/edge/proxy.py keeps each invariant of the committed database.
use octw.Prelude.{Text, arith}
use octw.Exec.{Op}
use octw.Config.{Settings}
use octw.Platform.{Platform}
use octw.Db.{Db, Invariant, everywhere}
use octw.Vault.Envelope.{Crypto}
use octw.Vault.Keeps.{VaultInvariant}
use octw.World.{World}
use octw.Api.Guard.{TokenPayload}
use octw.Api.Auth.{Tokens, get_current_user}
use octw.Api.InternalRouter.{ensure_running, get_status}
use octw.Api.Internals.{ensure_running-keeps, get_status-keeps}
use octw.Edge.Proxy.{
  Client, Incoming, Response, answered, failed, crashed, Next, there, wake, refuse, fetch,
  anonymous_list, after_ensure, go_on, resolve_and_ensure, forward, proxy_path,
}
use octw.Edge.Refuses.{authenticate-same}

module _ {P : Db → Type 0} (inv : Invariant everywhere P) {D : Type 0} where
  -- A handler that keeps what is committed, from a session that has what is committed.
  abbrev Kept : {A : Type 0} → Op (World D) A → Type 0
  Kept m = (w : World D) → P w.session.db → P w.committed → P (m w).1.committed

  abbrev Stays : {A : Type 0} → Op (World D) A → Type 0
  Stays m = (w : World D) → P w.committed → P (m w).1.committed

  fetch-keeps :
      {A : Type 0} (client : Client D) (url : Text) (m : Op (World D) A)
      → Kept m
      → Stays (fetch client url m)
  fetch-keeps client url m h w v =
      let w0 : World D = record w { session = record w.session { db = w.committed } } in
      ground (arith, h w0 v v)

  module _ (p : Platform D) (c : Crypto) (kek : Text) (settings : Settings) (tokens : Tokens)
      (client : Client D) (vault : VaultInvariant everywhere c kek P) where
    status-keeps : (url slug : Text) → Stays (fetch client url (get_status p slug))
    status-keeps url slug =
        fetch-keeps client url (get_status p slug)
          (λ w v k. get_status-keeps p c kek settings inv vault slug w k)

    ensure-keeps :
        (url slug : Text) → Stays (fetch client url (ensure_running p c kek settings slug))
    ensure-keeps url slug =
        fetch-keeps client url (ensure_running p c kek settings slug)
          (ensure_running-keeps p c kek settings inv vault slug)

    listed-keeps : (url : Text) → Stays (fetch client url (anonymous_list tokens settings))
    unfolding get_current_user
    listed-keeps url = fetch-keeps client url (anonymous_list tokens settings) (λ w v k. k)

    after_ensure-keeps :
        (slug : Text) (r : Response Text)
        → Stays (after_ensure p c kek settings tokens client slug r)
    unfolding after_ensure
    after_ensure-keeps slug (answered id) w k = grind (arith, status-keeps)
    after_ensure-keeps slug (failed n) w k = k
    after_ensure-keeps slug crashed w k = k

    go_on-keeps : (slug : Text) (n : Next) → Stays (go_on p c kek settings tokens client slug n)
    unfolding go_on
    go_on-keeps slug (there ip) w k = k
    go_on-keeps slug wake w k = grind (arith, ensure-keeps, after_ensure-keeps)
    go_on-keeps slug refuse w k = k

    resolve_and_ensure-keeps :
        (slug : Text) → Stays (resolve_and_ensure p c kek settings tokens client slug)
    unfolding resolve_and_ensure
    resolve_and_ensure-keeps slug w k = grind (arith, listed-keeps, status-keeps, go_on-keeps)

    forward-keeps :
        (slug path : Text) (request : Incoming) (user : TokenPayload)
        → Stays (forward p c kek settings tokens client slug path request user)
    unfolding forward
    forward-keeps slug path request user w k = grind (arith, resolve_and_ensure-keeps)

    pub proxy_path-keeps :
        (slug path : Text) (request : Incoming)
        → Stays (proxy_path p c kek settings tokens client slug path request)
    unfolding proxy_path
    proxy_path-keeps slug path request w k =
        grind (arith, authenticate-same tokens settings request w, forward-keeps)
