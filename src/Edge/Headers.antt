-- ===== src/Edge/Headers.antt =====
-- The headers that src/octw/edge/proxy.py sends on, whatever the client sent.
use octw.Prelude.{
  Text, codes, Option, none, some, [], ◌∷◌, ◌≡◌, refl, ap, ◌∙◌, arith, Dict, lookup, insert, remove,
  lookup-insert, lookup-remove, text_eq, ◌==◌, if◌then◌else◌,
}
use octw.Uuid.{uuid_text}
use octw.Api.Guard.{TokenPayload}
use octw.Edge.Proxy.{first_values, host_of, upstream_headers}

lookup-first_values : (k : Text) (d : Dict Text) → lookup k (first_values d) ≡ lookup k d
unfolding first_values lookup
lookup-first_values k [] = refl
lookup-first_values k ((j, v) ∷ d) =
    ground (arith, lookup-first_values k d, lookup-remove j k (first_values d))

-- One more header, or one less.
lookup-with :
    (k j v : Text) (d : Dict Text) (o : Option Text)
    → lookup k d ≡ o
    → lookup k (insert j v d) ≡ (if j == k then some v else o)
lookup-with k j v d o h = lookup-insert j k v d ∙ ap (λ x. if j == k then some v else x) h

lookup-without :
    (k j : Text) (d : Dict Text) (o : Option Text)
    → lookup k d ≡ o
    → lookup k (remove j d) ≡ (if j == k then none else o)
lookup-without k j d o h = lookup-remove j k d ∙ ap (λ x. if j == k then none else x) h

-- A header that is replaced.
lookup-replaced :
    (k j v : Text) (d : Dict Text) (o : Option Text)
    → lookup k d ≡ o
    → lookup k (insert j v (remove j d)) ≡ (if j == k then some v else o)
lookup-replaced k j v d o h =
    ground (arith, lookup-with k j v (remove j d) _ (lookup-without k j d o h))

-- What the container is told under each name.
abbrev pub told : Text → TokenPayload → Option Text → Dict Text → Text → Option Text
told slug user client raw k =
    if codes "x-forwarded-proto" == k
    then some (codes "https")
    else if codes "x-forwarded-for" == k
    then some (host_of client)
    else if codes "x-octw-user-email" == k
    then some user.email
    else if codes "x-octw-user-id" == k
    then some (uuid_text user.user_id)
    else if codes "x-octw-tenant-slug" == k
    then some slug
    else if codes "host" == k
    then none
    else lookup k raw

-- Whatever headers the client sent, those that name the tenant, the user, the address and the
-- protocol are the proxy's own, there is no host, and every other one is the client's first of its
-- name.
pub upstream_headers-told :
    (slug : Text) (user : TokenPayload) (client : Option Text) (raw : Dict Text) (k : Text)
    → lookup k (upstream_headers slug user client raw) ≡ told slug user client raw k
unfolding upstream_headers
upstream_headers-told slug user client raw k =
    let e0 = lookup-without k (codes "host") _ _ (lookup-first_values k raw) in
    let e1 = lookup-with k (codes "x-octw-tenant-slug") slug _ _ e0 in
    let e2 = lookup-with k (codes "x-octw-user-id") (uuid_text user.user_id) _ _ e1 in
    let e3 = lookup-with k (codes "x-octw-user-email") user.email _ _ e2 in
    let e4 = lookup-replaced k (codes "x-forwarded-for") (host_of client) _ _ e3 in
    lookup-with k (codes "x-forwarded-proto") (codes "https") _ _ e4
