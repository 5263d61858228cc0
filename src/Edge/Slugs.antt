-- ===== src/Edge/Slugs.antt =====
-- The slugs that src/octw/models/tenant.py accepts, and the guards of `proxy_path` in
-- src/octw/edge/proxy.py.
use octw.Prelude.{
  ℕ, Text, codes, Bool, false, Option, none, some, List, [], ◌∷◌, ◌&&◌, ◌||◌, not, leb, length, has,
  text_eq, if◌then◌else◌,
}
use octw.Exec.{Result, ok, err, http, ⊤}
use octw.Api.Guard.{TokenPayload}

-- `[a-z0-9]`
abbrev pub alphanumeric : ℕ → Bool
alphanumeric c = (leb b'a' c && leb c b'z') || (leb b'0' c && leb c b'9')

-- `[a-z0-9\-]`
abbrev pub slug_char : ℕ → Bool
slug_char c = alphanumeric c || (leb b'-' c && leb c b'-')

-- `[a-z0-9\-]*[a-z0-9]` up to the end of the text
unfoldable pub slug_tail : Text → Bool
slug_tail [] = false
slug_tail (c ∷ []) = alphanumeric c
slug_tail (c ∷ d ∷ s) = slug_char c && slug_tail (d ∷ s)

-- The pattern of `TenantCreate.slug`.
unfoldable pub slug_pattern : Text → Bool
slug_pattern [] = false
slug_pattern (c ∷ s) =
    alphanumeric c && slug_tail s && leb 3 (length (c ∷ s)) && leb (length (c ∷ s)) 50

-- `[a-z0-9\-]*[a-z0-9]$`, whose end may stand before a last newline.
unfoldable pub route_tail : Text → Bool
route_tail [] = false
route_tail (c ∷ []) = alphanumeric c
route_tail (c ∷ d ∷ []) =
    (slug_char c && alphanumeric d) || (alphanumeric c && (leb 10 d && leb d 10))
route_tail (c ∷ d ∷ e ∷ s) = slug_char c && route_tail (d ∷ e ∷ s)

-- `_SLUG_RE.match`
unfoldable pub slug_re : Text → Bool
slug_re [] = false
slug_re (c ∷ s) = alphanumeric c && route_tail s

-- `_RESERVED_PATHS`
abbrev pub reserved_paths : List Text
reserved_paths = codes "api" ∷ codes "internal" ∷ codes "health" ∷ codes "metrics" ∷ []

-- The first guard of `proxy_path`, which `proxy_slug_root` has too.
unfoldable pub admit_root : Text → Result ⊤
admit_root slug = if has slug reserved_paths || not (slug_re slug) then err (http 404) else ok tt

-- The guards of `proxy_path`, before and after `_authenticate`.
unfoldable pub admit : Text → Option TokenPayload → Result TokenPayload
admit slug user =
    if has slug reserved_paths || not (slug_re slug)
    then err (http 404)
    else elim user [ none ↦ err (http 401) | some u ↦ ok u ]
