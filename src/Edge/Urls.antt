-- ===== src/Edge/Urls.antt =====
-- src/octw/edge/proxy.py: the URLs of the control plane, which httpx takes.
use octw.Prelude.{
  ◌+◌, ◌≤◌, Text, codes, Bool, true, [], ◌∷◌, ◌++◌, ◌≡◌, refl, ◌∙◌, arith, ◌&&◌, ◌||◌, leb, length,
}
use octw.Edge.Slugs.{slug_char, slug_tail, slug_pattern}
use octw.Edge.Proxy.{Client, internal_api, tenant_url}

-- Small letters, digits, hyphens and slashes only.
unfoldable pub plain : Text → Bool
plain [] = true
plain (c ∷ s) = (slug_char c || (leb b'/' c && leb c b'/')) && plain s

-- httpx takes a URL with a host, a port and a short path of such characters.
pub record ClientLaws {D : Type 0} (client : Client D) : Type 0 where
  pub takes :
      (path : Text)
      → plain path ≡ true
      → length path ≤ 1000
      → client.url_ok (internal_api ++ b'/' ∷ path) ≡ true

plain-append : (xs ys : Text) → plain (xs ++ ys) ≡ (plain xs && plain ys)
unfolding plain
plain-append [] ys = refl
plain-append (c ∷ xs) ys = ground (arith, plain-append xs ys)

pub length-append : (xs ys : Text) → length (xs ++ ys) ≡ length xs + length ys
length-append [] ys = omega arith
length-append (x ∷ xs) ys = omega (arith, length-append xs ys)

tail-plain : (s : Text) → slug_tail s ≡ true → plain s ≡ true
unfolding slug_tail plain
tail-plain [] h = cc
tail-plain (c ∷ []) h = ground arith
tail-plain (c ∷ d ∷ s) h = ground (arith, tail-plain (d ∷ s))

slug-plain : (s : Text) → slug_pattern s ≡ true → plain s ≡ true
unfolding slug_pattern plain
slug-plain [] h = cc
slug-plain (c ∷ s) h = ground (arith, tail-plain s)

length-slug : (s : Text) → slug_pattern s ≡ true → length s ≤ 50
unfolding slug_pattern
length-slug [] h = omega arith
length-slug (c ∷ s) h = ground arith

module _ {D : Type 0} (client : Client D) (laws : ClientLaws client) where
  pub takes_list : client.url_ok (internal_api ++ codes "/api/v1/tenants") ≡ true
  unfolding plain
  takes_list = laws.takes (codes "api/v1/tenants") refl (omega arith)

  -- The URL of an action on a tenant.
  pub takes_tenant :
      (slug action : Text)
      → slug_pattern slug ≡ true
      → plain action ≡ true
      → length action ≤ 900
      → client.url_ok (tenant_url slug action) ≡ true
  unfolding plain
  takes_tenant slug action s a n =
      let rest = slug ++ action in
      let size : length rest ≤ 950 = omega (arith, length-append slug action, length-slug slug s) in
      laws.takes (codes "internal/v1/tenants/" ++ rest)
        (plain-append slug action ∙ ground (arith, slug-plain slug s, a)) (omega arith)
