-- ===== src/Edge/Proxy.antt =====
-- src/octw/edge/proxy.py: a request to a tenant's path, from the guards to the answer of its container.
-- The calls of the internal routes are requests of the same control plane; httpx and the container
-- that answers are a parameter.
use octw.Prelude.{
  ℕ, Text, codes, Bool, not, Option, none, some, List, [], ◌∷◌, ◌++◌, Dict, lookup, insert, remove,
  drop, starts_with, or_text, truthy, if◌then◌else◌,
}
use octw.Exec.{
  Result, ok, err, http, value_error, invalid_url, Op, pure, raise, lift, gets, raise_if, ◌>>=◌,
  ◌>>◌, except_exception,
}
use octw.Config.{Settings}
use octw.Models.Tenant.{Tenant, ContainerState}
use octw.Uuid.{uuid_text}
use octw.Platform.{Platform}
use octw.Orchestrator.Names.{gateway_port}
use octw.Vault.Envelope.{Crypto}
use octw.World.{World, in_machine}
use octw.Api.Guard.{TokenPayload}
use octw.Api.Auth.{Tokens, decode_token, get_current_user}
use octw.Api.TenantsRouter.{list_tenants}
use octw.Api.InternalRouter.{Status, ensure_running, get_status}
use octw.Api.Requests.{in_request}
use octw.Edge.Slugs.{admit, admit_root}

-- A request of a client; `headers` has the keys in lower case and may repeat one, and `client` is its
-- address.
pub record Incoming : Type 0 where
  pub method : Text
  pub query : Text
  pub headers : Dict Text
  pub cookies : Dict Text
  pub client : Option Text
  pub body : Text

-- The arguments of `client.request`.
pub record Outgoing : Type 0 where
  pub method : Text
  pub url : Text
  pub headers : Dict Text
  pub content : Text

pub record Reply : Type 0 where
  pub status_code : ℕ
  pub headers : Dict Text
  pub content : Text

-- Whether httpx takes a URL, a request to a container, which may change the machine, and `dict(headers)`
-- of the headers of its answer.
pub record Client (D : Type 0) : Type 0 where
  pub url_ok : Text → Bool
  pub request : Outgoing → D → Result Reply × D
  pub headers_dict : Dict Text → Dict Text

-- An answer of the control plane: 200 with a value, the code of an `HTTPException` with its detail, or
-- a 500 that is no JSON.
pub data Response (A : Type 0) : Type 0 where
  answered : A → Response A
  failed : ℕ → Response A
  crashed : Response A

abbrev pub respond : {A : Type 0} → Result A → Response A
respond (ok a) = answered a
respond (err (http n)) = failed n
respond (err e) = crashed

-- `if status_resp.status_code != 200: raise`
abbrev pub body_or_404 : {A : Type 0} → Response A → Result A
body_or_404 (answered a) = ok a
body_or_404 _ = err (http 404)

-- `resp.json().get("ip")`
abbrev pub ip_of : Response Status → Result (Option Text)
ip_of (answered s) = ok s.ip
ip_of (failed n) = ok none
ip_of crashed = err value_error

-- `if ip: return ip`
abbrev pub ip_or_503 : Option Text → Result Text
ip_or_503 none = err (http 503)
ip_or_503 (some []) = err (http 503)
ip_or_503 (some (c ∷ s)) = ok (c ∷ s)

-- The branches on the first status.
pub data Next : Type 0 where
  there : Text → Next
  wake refuse : Next

unfoldable pub next_of : ContainerState → Option Text → Next
next_of ContainerState.running (some (c ∷ a)) = there (c ∷ a)
next_of ContainerState.running _ = refuse
next_of ContainerState.error ip = refuse
next_of _ ip = wake

-- `_INTERNAL_API`
abbrev pub internal_api : Text
internal_api = codes "http://127.0.0.1:8000"

abbrev pub tenant_url : Text → Text → Text
tenant_url slug action = internal_api ++ codes "/internal/v1/tenants/" ++ slug ++ action

-- `dict(request.headers)`: the first value of each key.
unfoldable pub first_values : Dict Text → Dict Text
first_values [] = []
first_values ((k, v) ∷ d) = (k, v) ∷ remove k (first_values d)

abbrev pub host_of : Option Text → Text
host_of none = codes "unknown"
host_of (some host) = host

-- The headers that are sent on.
unfoldable pub upstream_headers : Text → TokenPayload → Option Text → Dict Text → Dict Text
upstream_headers slug user client raw =
    let all = remove (codes "host") (first_values raw) in
    let named = insert (codes "x-octw-tenant-slug") slug all in
    let identified = insert (codes "x-octw-user-id") (uuid_text user.user_id) named in
    let addressed = insert (codes "x-octw-user-email") user.email identified in
    let bare = remove (codes "x-forwarded-for") addressed in
    let forwarded = insert (codes "x-forwarded-for") (host_of client) bare in
    insert (codes "x-forwarded-proto") (codes "https") forwarded

-- The URL of the gateway, whose port is `OPENCLAW_GATEWAY_PORT`.
unfoldable pub upstream_url : Text → Text → Text → Text
upstream_url ip path query =
    let url = codes "http://" ++ ip ++ codes ":" ++ gateway_port ++ codes "/" ++ path in
    if truthy (some query) then url ++ codes "?" ++ query else url

module _ {D : Type 0} (client : Client D) where
  -- A request to the control plane, with a session of its own.
  abbrev pub fetch : {A : Type 0} → Text → Op (World D) A → Op (World D) (Response A)
  fetch url handler = do
    raise_if (not (client.url_ok url)) invalid_url
    λ w. let (r, w') = in_request handler w in (ok (respond r), w')

module _ {D : Type 0} (tokens : Tokens) (settings : Settings) where
  -- `try: return decode_token(token)`, `except Exception: pass`
  abbrev pub attempt : Text → Op (World D) (Option TokenPayload)
  attempt token =
      except_exception
        (do
          now ← gets (λ w. w.session.now)
          user ← decode_token tokens settings now token
          pure (some user))
        (pure none)

  abbrev pub from_header : Text → Op (World D) (Option TokenPayload)
  from_header auth s =
      if starts_with (codes "Bearer ") auth then attempt (drop 7 auth) s else pure none s

  abbrev pub from_cookie : Option Text → Op (World D) (Option TokenPayload)
  from_cookie none = pure none
  from_cookie (some []) = pure none
  from_cookie (some (c ∷ s)) = attempt (c ∷ s)

  abbrev pub or_cookie : Option Text → Option TokenPayload → Op (World D) (Option TokenPayload)
  or_cookie cookie none = from_cookie cookie
  or_cookie cookie (some user) = pure (some user)

  -- `_authenticate`
  unfoldable pub authenticate : Incoming → Op (World D) (Option TokenPayload)
  authenticate request = do
    user ← from_header (or_text (lookup (codes "authorization") request.headers) [])
    or_cookie (lookup (codes "octw_session") request.cookies) user

  -- The route of the tenants, without a token.
  abbrev pub anonymous_list : Op (World D) (List Tenant)
  anonymous_list = do
    now ← gets (λ w. w.session.now)
    user ← get_current_user tokens settings now none
    list_tenants user

module _ {D : Type 0} (p : Platform D) (c : Crypto) (kek : Text) (settings : Settings)
    (tokens : Tokens) (client : Client D) where
  unfoldable pub after_ensure : Text → Response Text → Op (World D) Text
  after_ensure slug (answered id) = do
    status ← fetch client (tenant_url slug (codes "/status")) (get_status p slug)
    ip ← lift (ip_of status)
    lift (ip_or_503 ip)
  after_ensure slug _ = raise (http 503)

  unfoldable pub go_on : Text → Next → Op (World D) Text
  go_on slug (there ip) = pure ip
  go_on slug wake = do
    ensure ←
        fetch client (tenant_url slug (codes "/ensure-running"))
          (ensure_running p c kek settings slug)
    after_ensure slug ensure
  go_on slug refuse = raise (http 503)

  -- `_resolve_and_ensure`
  unfoldable pub resolve_and_ensure : Text → Op (World D) Text
  resolve_and_ensure slug = do
    fetch client (internal_api ++ codes "/api/v1/tenants") (anonymous_list tokens settings)
    status ← fetch client (tenant_url slug (codes "/status")) (get_status p slug)
    state ← lift (body_or_404 status)
    go_on slug (next_of state.state state.ip)

  -- `proxy_path` behind its guards.
  unfoldable pub forward : Text → Text → Incoming → TokenPayload → Op (World D) Reply
  forward slug path request user = do
    ip ← resolve_and_ensure slug
    let url = upstream_url ip path request.query
    raise_if (not (client.url_ok url)) invalid_url
    resp ← in_machine (
        client.request (record {
          method = request.method;
          url = url;
          headers = upstream_headers slug user request.client request.headers;
          content = request.body;
        }))
    pure (record resp { headers = client.headers_dict resp.headers })

  unfoldable pub proxy_path : Text → Text → Incoming → Op (World D) Reply
  proxy_path slug path request = do
    lift (admit_root slug)
    found ← authenticate tokens settings request
    user ← lift (admit slug found)
    forward slug path request user

  unfoldable pub proxy_slug_root : Text → Incoming → Op (World D) Reply
  proxy_slug_root slug request = do lift (admit_root slug); proxy_path slug [] request
