-- ===== src/Edge/Routed.antt =====
-- The proxy of src/octw/edge/proxy.py and the slugs that tenants may have.
use octw.Prelude.{Text, true, Option, none, some, [], ◌∷◌, ◌≡◌, arith, has, text_eq, if◌then◌else◌}
use octw.Exec.{Result, ok, err, http}
use octw.Api.Guard.{TokenPayload}
use octw.Edge.Slugs.{slug_tail, slug_pattern, route_tail, slug_re, reserved_paths, admit}

tail-routes : (s : Text) → slug_tail s ≡ true → route_tail s ≡ true
unfolding slug_tail route_tail
tail-routes [] h = h
tail-routes (c ∷ []) h = h
tail-routes (c ∷ d ∷ []) h = ground arith
tail-routes (c ∷ d ∷ e ∷ s) h = ground (arith, tail-routes (d ∷ e ∷ s))

-- What the proxy answers for a slug that a tenant may have: 404 if the slug is one of the reserved
-- paths, and otherwise it lets the user through, or asks for one with 401.
abbrev pub answer : Text → Option TokenPayload → Result TokenPayload
answer slug user =
    if has slug reserved_paths
    then err (http 404)
    else elim user [ none ↦ err (http 401) | some u ↦ ok u ]

pub pattern-routes : (slug : Text) → slug_pattern slug ≡ true → slug_re slug ≡ true
unfolding slug_pattern slug_re
pattern-routes [] h = h
pattern-routes (c ∷ s) h = ground (arith, tail-routes s)

-- For a slug that `TenantCreate` accepts, the guards of the proxy answer 404 exactly if it is a
-- reserved path, and otherwise let the user through, or answer 401 if there is none.
pub admit-slug_pattern :
    (slug : Text) (user : Option TokenPayload)
    → slug_pattern slug ≡ true
    → admit slug user ≡ answer slug user
unfolding admit
admit-slug_pattern slug user h = ground (arith, pattern-routes slug h)
