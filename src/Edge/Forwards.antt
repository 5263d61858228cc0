-- ===== src/Edge/Forwards.antt =====
-- src/octw/edge/proxy.py: a request that is let through, up to the answer of the tenant's container.
use octw.Prelude.{
  ℕ, ◌<◌, Text, codes, true, false, Option, some, [], ◌∷◌, ◌++◌, ◌≡◌, refl, ap, ◌∙◌, inl, inr,
  text_beq, arith, has, text_eq, lookup,
}
use octw.Exec.{Result, ok, err, continue, Result-cases}
use octw.Config.{Settings}
use octw.Models.Tenant.{Uuid, Time, ContainerState}
use octw.Platform.{Platform}
use octw.Uuid.{uuid_text}
use octw.Uuid.Distinct.{pow16}
use octw.Orchestrator.Names.{gateway_port}
use octw.Orchestrator.Containers.{get_container_state, get_container_ip}
use octw.Vault.Envelope.{Crypto}
use octw.World.{World}
use octw.Api.Guard.{TokenPayload}
use octw.Api.Auth.{Tokens, ℤ, minutes_or, after_minutes, create_access_token, get_current_user}
use octw.Api.Tokens.{TokenLaws, IsUuid, decode_token-create_access_token}
use octw.Api.InternalRouter.{resolve_tenant_id, get_status}
use octw.Edge.Slugs.{slug_pattern, reserved_paths, admit, admit_root}
use octw.Edge.Routed.{pattern-routes}
use octw.Edge.Urls.{ClientLaws, takes_list, takes_tenant}
use octw.Edge.Headers.{upstream_headers-told}
use octw.Edge.Refuses.{authenticate-bearer}
use octw.Edge.Fetches.{Names}
use octw.Edge.Proxy.{
  Incoming, Outgoing, Reply, Client, next_of, go_on, resolve_and_ensure, forward, upstream_url,
  upstream_headers, proxy_path,
}

-- The URL of a path and a query at the gateway of an address.
abbrev pub gateway_url : Text → Text → Text → Text
gateway_url ip path [] = codes "http://" ++ ip ++ codes ":" ++ gateway_port ++ codes "/" ++ path
gateway_url ip path (c ∷ q) =
    codes "http://" ++ ip ++ codes ":" ++ gateway_port ++ codes "/" ++ path ++ codes "?" ++ c ∷ q

upstream_url-gateway : (ip path q : Text) → upstream_url ip path q ≡ gateway_url ip path q
unfolding upstream_url
upstream_url-gateway ip path [] = refl
upstream_url-gateway ip path (c ∷ q) = refl

-- A request that tells the container who the user is.
pub record Tells (slug : Text) (user : TokenPayload) (ip path : Text) (request : Incoming)
    (out : Outgoing) : Type 0 where
  pub method : out.method ≡ request.method
  pub url : out.url ≡ gateway_url ip path request.query
  pub content : out.content ≡ request.body
  pub tenant : lookup (codes "x-octw-tenant-slug") out.headers ≡ some slug
  pub user_id : lookup (codes "x-octw-user-id") out.headers ≡ some (uuid_text user.user_id)
  pub email : lookup (codes "x-octw-user-email") out.headers ≡ some user.email

module _ {D : Type 0} (client : Client D) where
  -- What the client gets for an answer of the container, or for a request that failed.
  abbrev pub sent_back : Result Reply → Result Reply
  sent_back (err e) = err e
  sent_back (ok reply) = ok (record reply { headers = client.headers_dict reply.headers })

  -- The container is asked once, as `Tells` says, and nothing else changes.
  abbrev pub Served :
      (slug : Text) (user : TokenPayload) (ip path : Text) (request : Incoming) (w : World D)
      → Result Reply
      → World D
      → Type 0
  Served slug user ip path request w r w' =
      (out : Outgoing) × Tells slug user ip path request out
      × (r ≡ sent_back (client.request out w.machine).0)
      × (w'.machine ≡ (client.request out w.machine).1)
      × (w'.committed ≡ w.committed)

module _ {D : Type 0} (p : Platform D) (c : Crypto) (kek : Text) (settings : Settings)
    (tokens : Tokens) (client : Client D) (laws : ClientLaws client) where
  get_status-running :
      (slug : Text) (t : Uuid) (ip : Text) (w : World D)
      → resolve_tenant_id slug w.session ≡ ok t
      → get_container_state p t w.machine ≡ ok ContainerState.running
      → get_container_ip p t w.machine ≡ ok (some ip)
      → get_status p slug w ≡ (ok (record { state = ContainerState.running; ip = some ip }), w)
  unfolding get_status
  get_status-running slug t ip w n s a = rw (n, continue, s, a) refl

  -- A tenant whose container runs at an address is not woken.
  resolve_and_ensure-there :
      (slug : Text) (t : Uuid) (x : ℕ) (ip : Text) (w : World D)
      → slug_pattern slug ≡ true
      → Names p slug w t
      → get_container_state p t w.machine ≡ ok ContainerState.running
      → get_container_ip p t w.machine ≡ ok (some (x ∷ ip))
      → resolve_and_ensure p c kek settings tokens client slug w
        ≡ (ok (x ∷ ip), record w { session = record w.session { db = w.committed } })
  unfolding resolve_and_ensure octw.Edge.Urls.plain get_current_user go_on next_of
  resolve_and_ensure-there slug t x ip w s n r a =
      let w0 : World D = record w { session = record w.session { db = w.committed } } in
      let status = get_status-running slug t (x ∷ ip) w0 n r a in
      let first = takes_list client laws in
      let second = takes_tenant client laws slug (codes "/status") s refl (omega arith) in
      rw (continue, first, second, status) refl

  module _ (slug path : Text) (user : TokenPayload) (request : Incoming) (x : ℕ) (ip : Text) where
    abbrev asked : Outgoing
    asked = record {
      method = request.method;
      url = upstream_url (x ∷ ip) path request.query;
      headers = upstream_headers slug user request.client request.headers;
      content = request.body;
    }

    asked-Tells : Tells slug user (x ∷ ip) path request asked
    unfolding text_beq
    asked-Tells =
        let told = upstream_headers-told slug user request.client request.headers in
        record {
          method = refl;
          url = upstream_url-gateway (x ∷ ip) path request.query;
          content = refl;
          tenant = told (codes "x-octw-tenant-slug");
          user_id = told (codes "x-octw-user-id");
          email = told (codes "x-octw-user-email");
        }

    forward-Served :
        (t : Uuid) (w : World D)
        → slug_pattern slug ≡ true
        → Names p slug w t
        → get_container_state p t w.machine ≡ ok ContainerState.running
        → get_container_ip p t w.machine ≡ ok (some (x ∷ ip))
        → client.url_ok (gateway_url (x ∷ ip) path request.query) ≡ true
        → let (r, w') = forward p c kek settings tokens client slug path request user w in
          Served client slug user (x ∷ ip) path request w r w'
    unfolding forward
    forward-Served t w s n r a u =
        let there = resolve_and_ensure-there slug t x ip w s n r a in
        let taken : client.url_ok (upstream_url (x ∷ ip) path request.query) ≡ true =
          ap client.url_ok (upstream_url-gateway (x ∷ ip) path request.query) ∙ u in
        elim (Result-cases (client.request asked w.machine).0) [
          | inl (reply, q) ↦ (
            asked,
            asked-Tells,
            rw (there, continue, taken, q),
            rw (there, continue, taken, q),
            rw (there, continue, taken, q),
          )
          | inr (e, q) ↦ (
            asked,
            asked-Tells,
            rw (there, continue, taken, q),
            rw (there, continue, taken, q),
            rw (there, continue, taken, q),
          )
        ]

  -- Under the laws of PyJWT and httpx, a request with a token that was made for a user of a UUID
  -- below 2 ^ 128, in the header and before it expires, and with a slug that `TenantCreate`
  -- accepts, that is not reserved and that names a tenant whose container runs and has an address,
  -- is answered with what this container answers, or with its error, if httpx takes the URL: it is
  -- asked at its gateway for the path and the query, with the method and the body, and is told the
  -- tenant and the user; the machine is changed by this call alone and the committed database is
  -- not.
  pub proxy_path-Served :
      TokenLaws tokens
      → (slug path : Text) (made : Time) (user : TokenPayload) (m : Option ℤ) (request : Incoming)
        (t : Uuid) (x : ℕ) (ip : Text) (w : World D)
      → slug_pattern slug ≡ true
      → has slug reserved_paths ≡ false
      → user.user_id < pow16 32
      → IsUuid user.tid
      → w.session.now < after_minutes made (minutes_or m settings.jwt_expire_minutes)
      → lookup (codes "authorization") request.headers
        ≡ some (
            codes "Bearer "
            ++ create_access_token tokens settings made user.user_id user.email user.tid m)
      → Names p slug w t
      → get_container_state p t w.machine ≡ ok ContainerState.running
      → get_container_ip p t w.machine ≡ ok (some (x ∷ ip))
      → client.url_ok (gateway_url (x ∷ ip) path request.query) ≡ true
      → let (r, w') = proxy_path p c kek settings tokens client slug path request w in
        Served client slug user (x ∷ ip) path request w r w'
  unfolding proxy_path admit admit_root
  proxy_path-Served token_laws slug path made user m request t x ip w s r u tid n h names run a
        ok_url =
      let token = create_access_token tokens settings made user.user_id user.email user.tid m in
      let reads =
        decode_token-create_access_token tokens token_laws settings made w.session.now user.user_id
          user.email user.tid m w u tid n in
      rw
        (r, pattern-routes slug s, authenticate-bearer tokens settings token user request w h reads)
        (forward-Served slug path user request x ip t w s names run a ok_url)
