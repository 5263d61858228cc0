-- ===== src/Edge/Refuses.antt =====
-- src/octw/edge/proxy.py: a request that is not let through does not reach the tenant.
use octw.Prelude.{
  Text, codes, none, some, ◌++◌, ◌≡◌, refl, arith, not, ◌||◌, has, text_eq, lookup, starts_with,
  if◌then◌else◌,
}
use octw.Exec.{ok, err, http, Result, continue}
use octw.Config.{Settings}
use octw.Platform.{Platform}
use octw.Vault.Envelope.{Crypto}
use octw.World.{World}
use octw.Api.Guard.{TokenPayload}
use octw.Api.Auth.{Tokens, decode_token}
use octw.Edge.Slugs.{slug_re, reserved_paths, admit, admit_root}
use octw.Edge.Proxy.{Incoming, Client, Reply, attempt, from_header, authenticate, proxy_path}

module _ {D : Type 0} (tokens : Tokens) (settings : Settings) where
  attempt-same : (token : Text) (w : World D) → (attempt tokens settings token w).1 ≡ w
  unfolding decode_token
  attempt-same token w = ground arith

  -- `_authenticate` changes nothing.
  pub authenticate-same :
      (request : Incoming) (w : World D) → (authenticate tokens settings request w).1 ≡ w
  unfolding authenticate
  authenticate-same request w = grind (arith, attempt-same)

  -- The token of an `Authorization` header that is read.
  attempt-reads :
      (token : Text) (user : TokenPayload) (w : World D)
      → decode_token tokens settings w.session.now token w ≡ (ok user, w)
      → attempt tokens settings token w ≡ (ok (some user), w)
  attempt-reads token user w h = rw (continue, h) refl

  from_header-bearer :
      (token : Text) (w : World D)
      → from_header tokens settings (codes "Bearer " ++ token) w ≡ attempt tokens settings token w
  unfolding starts_with
  from_header-bearer token w = refl

  pub authenticate-bearer :
      (token : Text) (user : TokenPayload) (request : Incoming) (w : World D)
      → lookup (codes "authorization") request.headers ≡ some (codes "Bearer " ++ token)
      → decode_token tokens settings w.session.now token w ≡ (ok user, w)
      → authenticate tokens settings request w ≡ (ok (some user), w)
  unfolding authenticate
  authenticate-bearer token user request w h k =
      rw (h, from_header-bearer token w, attempt-reads token user w k) refl

module _ {D : Type 0} (p : Platform D) (c : Crypto) (kek : Text) (settings : Settings)
    (tokens : Tokens) (client : Client D) where
  -- What is answered to a request without a user.
  abbrev pub turned_away : Text → Result Reply
  turned_away slug =
      if has slug reserved_paths || not (slug_re slug) then err (http 404) else err (http 401)

  -- A request that `_authenticate` finds no user for is answered 404 if its slug is not routed and
  -- 401 otherwise, and changes nothing: no container is woken and none is asked.
  pub proxy_path-refused :
      (slug path : Text) (request : Incoming) (w : World D)
      → (authenticate tokens settings request w).0 ≡ ok none
      → proxy_path p c kek settings tokens client slug path request w ≡ (turned_away slug, w)
  unfolding proxy_path admit admit_root
  proxy_path-refused slug path request w h =
      ground (arith, authenticate-same tokens settings request w)
