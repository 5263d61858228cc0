-- ===== src/Uuid/RoundTrip.antt =====
-- What `uuid.UUID` reads of the UUIDs that `str` writes, which the tokens and the routes carry.
use octw.Prelude.{
  ℕ, zero, suc, ◌+◌, ◌*◌, ◌/◌, ◌%◌, ◌^◌, ◌<◌, ◌≤◌, Text, codes, Bool, true, false, some, [], ◌∷◌,
  ◌++◌, ◌≡◌, refl, sym, ap, ◌∙◌, ◌⊎◌, inl, inr, arith, All, take, drop, length, keep, has, nat_eq,
  lt→ltb, starts_with,
}
use mathlib.Core.List.{append-nil}
use octw.Models.Tenant.{Uuid}
use octw.Uuid.{hex_digit, hex, uuid_text}
use octw.Uuid.Distinct.{pow16, dash, dashed, plain-dashed, hex-no_dash}
use octw.Uuid.Parse.{
  replace_all, removed, strip_left, strip_right, strip, digit_value, scan, int_16, hex_of,
  uuid_of_text, is_brace, is_space, no_dash, after_sign, after_prefix,
}

-- A digit in base 16, as `str` writes it.
abbrev IsDigit : ℕ → Type 0
IsDigit c = ((48 ≤ c) × (c ≤ 57)) ⊎ ((97 ≤ c) × (c ≤ 102))

-- A character of a UUID.
abbrev IsUuidChar : ℕ → Type 0
IsUuidChar c = IsDigit c ⊎ (c ≡ 45)

hex_digit-IsDigit : (d : ℕ) → d < 16 → IsDigit (hex_digit d)
unfolding hex_digit
hex_digit-IsDigit d h = ground arith

module _ (P : ℕ → Type 0) where
  All-join : (xs ys : Text) → All P xs → All P ys → All P (xs ++ ys)
  All-join [] ys h k = k
  All-join (x ∷ xs) ys h k = (h.0, All-join xs ys h.1 k)

  All-take : (n : ℕ) (xs : Text) → All P xs → All P (take n xs)
  All-take zero xs h = tt
  All-take (suc n) [] h = tt
  All-take (suc n) (x ∷ xs) h = (h.0, All-take n xs h.1)

  All-drop : (n : ℕ) (xs : Text) → All P xs → All P (drop n xs)
  All-drop zero xs h = h
  All-drop (suc n) [] h = tt
  All-drop (suc n) (x ∷ xs) h = All-drop n xs h.1

hex-IsDigit : (k n : ℕ) → All IsDigit (hex k n)
unfolding hex
hex-IsDigit zero n = tt
hex-IsDigit (suc k) n =
    All-join IsDigit (hex k (n / 16)) (hex_digit (n % 16) ∷ []) (hex-IsDigit k (n / 16))
      (hex_digit-IsDigit (n % 16) (omega arith), tt)

length-append_one : (xs : Text) (y : ℕ) → length (xs ++ y ∷ []) ≡ suc (length xs)
length-append_one [] y = refl
length-append_one (x ∷ xs) y = ap suc (length-append_one xs y)

length-hex : (k n : ℕ) → length (hex k n) ≡ k
unfolding hex
length-hex zero n = refl
length-hex (suc k) n =
    length-append_one (hex k (n / 16)) (hex_digit (n % 16)) ∙ ap suc (length-hex k (n / 16))

digits-IsUuidChar : (s : Text) → All IsDigit s → All IsUuidChar s
digits-IsUuidChar [] h = tt
digits-IsUuidChar (c ∷ s) h = (inl h.0, digits-IsUuidChar s h.1)

-- Two groups with the dash between them.
group-IsUuidChar :
    (xs ys : Text) → All IsUuidChar xs → All IsUuidChar ys → All IsUuidChar (xs ++ dash ++ ys)
group-IsUuidChar xs ys h k =
    All-join IsUuidChar (xs ++ dash) ys (All-join IsUuidChar xs dash h (inr refl, tt)) k

dashed-IsUuidChar : (ds : Text) → All IsUuidChar ds → All IsUuidChar (dashed ds)
dashed-IsUuidChar ds h =
    let part : (n : ℕ) → All IsUuidChar (take 4 (drop n ds)) =
      λ n. All-take IsUuidChar 4 (drop n ds) (All-drop IsUuidChar n ds h) in
    let first = All-take IsUuidChar 8 ds h in
    let second = group-IsUuidChar (take 8 ds) (take 4 (drop 8 ds)) first (part 8) in
    let third = group-IsUuidChar _ (take 4 (drop 12 ds)) second (part 12) in
    let fourth = group-IsUuidChar _ (take 4 (drop 16 ds)) third (part 16) in
    group-IsUuidChar _ (drop 20 ds) fourth (All-drop IsUuidChar 20 ds h)

-- Nothing is removed from a text that no match starts in.
replace_all-same : (n p : ℕ) (q s : Text) → 102 < p → All IsUuidChar s → replace_all n (p ∷ q) s ≡ s
unfolding replace_all starts_with
replace_all-same zero p q s l h = refl
replace_all-same (suc n) p q [] l h = refl
replace_all-same (suc n) p q (c ∷ s) l h = ground (arith, replace_all-same n p q s l h.1)

module _ (q : ℕ → Bool) (none_pass : (c : ℕ) → IsUuidChar c → q c ≡ false) where
  strip_left-same : (s : Text) → All IsUuidChar s → strip_left q s ≡ s
  unfolding strip_left
  strip_left-same [] h = refl
  strip_left-same (c ∷ s) h = rw (none_pass c h.0) refl

  strip_right-same : (s : Text) → All IsUuidChar s → strip_right q s ≡ s
  unfolding strip_right
  strip_right-same [] h = refl
  strip_right-same (c ∷ []) h = rw (none_pass c h.0) refl
  strip_right-same (c ∷ d ∷ s) h = rw (strip_right-same (d ∷ s) h.1) refl

  strip-same : (s : Text) → All IsUuidChar s → strip q s ≡ s
  strip-same s h = rw (strip_left-same s h) (strip_right-same s h)

digit_value-hex_digit : (d : ℕ) → d < 16 → digit_value (hex_digit d) ≡ some d
unfolding digit_value hex_digit
digit_value-hex_digit d h = ground arith

scan-hex_digit :
    (d m : ℕ) (b : Bool) (s : Text) → d < 16 → scan (hex_digit d ∷ s) b m ≡ scan s true (16 * m + d)
unfolding scan
scan-hex_digit d m b s h = rw (scan, digit_value-hex_digit d h) refl

append_one : (xs : Text) (x : ℕ) (ys : Text) → xs ++ x ∷ [] ++ ys ≡ xs ++ (x ∷ ys)
append_one [] x ys = refl
append_one (z ∷ xs) x ys = ap (λ zs. z ∷ zs) (append_one xs x ys)

place : (p m n : ℕ) → 16 * (p * m + n / 16) + n % 16 ≡ 16 * p * m + n
place p m n = grind arith

-- Whether a digit stands before the rest, once `k` digits are read.
abbrev read : ℕ → Bool → Bool
read zero b = b
read (suc k) b = true

-- The digits of `hex` are read behind what was read before.
scan-hex :
    (k n m : ℕ) (b : Bool) (s : Text)
    → n < pow16 k
    → scan (hex k n ++ s) b m ≡ scan s (read k b) (pow16 k * m + n)
unfolding hex
scan-hex zero n m b s h = ap (λ x. scan s b x) (omega arith)
scan-hex (suc k) n m b s h =
    ap (λ t. scan t b m) (append_one (hex k (n / 16)) (hex_digit (n % 16)) s)
    ∙ scan-hex k (n / 16) m b (hex_digit (n % 16) ∷ s) (omega arith)
    ∙ scan-hex_digit (n % 16) (pow16 k * m + n / 16) (read k b) s (omega arith)
    ∙ ap (λ x. scan s true x) (place (pow16 k) m n)

-- No sign and no prefix stands before digits.
digits-bare : (s : Text) → All IsDigit s → after_prefix (after_sign s) ≡ s
digits-bare [] h = refl
digits-bare (c ∷ []) h = ground arith
digits-bare (c ∷ d ∷ s) h = ground arith

char-no_space : (c : ℕ) → IsUuidChar c → is_space c ≡ false
char-no_space c h = ground arith

char-no_brace : (c : ℕ) → IsUuidChar c → is_brace c ≡ false
char-no_brace c h = ground arith

scan_end : (n : ℕ) → scan [] true (pow16 32 * 0 + n) ≡ some n
unfolding scan
scan_end n = ap some (omega arith)

int_16-hex : (n : ℕ) → n < pow16 32 → int_16 (hex 32 n) ≡ some n
unfolding int_16
int_16-hex n h =
    let digits = hex-IsDigit 32 n in
    ap (λ t. scan (after_prefix (after_sign t)) false 0)
      (strip-same is_space char-no_space (hex 32 n) (digits-IsUuidChar (hex 32 n) digits))
    ∙ ap (λ t. scan t false 0) (digits-bare (hex 32 n) digits ∙ sym (append-nil (hex 32 n)))
    ∙ scan-hex 32 n 0 false [] h
    ∙ scan_end n

hex_of-dashed : (ds : Text) → All IsDigit ds → has b'-' ds ≡ false → hex_of (dashed ds) ≡ ds
unfolding hex_of
hex_of-dashed ds h n =
    let chars = dashed-IsUuidChar ds (digits-IsUuidChar ds h) in
    let beyond : 102 < b'u' = omega arith in
    let no_urn = replace_all-same _ b'u' (codes "rn:") (dashed ds) beyond chars in
    let no_uuid = replace_all-same _ b'u' (codes "uid:") (dashed ds) beyond chars in
    let bare = strip-same is_brace char-no_brace (dashed ds) chars in
    ap (λ t. keep no_dash (strip is_brace (removed (codes "uuid:") t))) no_urn
    ∙ ap (λ t. keep no_dash (strip is_brace t)) no_uuid
    ∙ ap (keep no_dash) bare
    ∙ plain-dashed ds n

reads :
    (s digits : Text) (n : ℕ)
    → hex_of s ≡ digits
    → length digits ≡ 32
    → int_16 digits ≡ some n
    → n < 2 ^ 128
    → uuid_of_text s ≡ some n
unfolding uuid_of_text
reads s digits n h l i b = rw (h, l, i, lt→ltb n (2 ^ 128) b) refl

uuid_text-dashed : (u : Uuid) → uuid_text u ≡ dashed (hex 32 u)
unfolding uuid_text
uuid_text-dashed u = refl

-- `uuid.UUID` of the text of a UUID is that UUID.
pub uuid_of_text-uuid_text : (u : Uuid) → u < pow16 32 → uuid_of_text (uuid_text u) ≡ some u
uuid_of_text-uuid_text u h =
    ap uuid_of_text (uuid_text-dashed u)
    ∙ reads (dashed (hex 32 u)) (hex 32 u) u
        (hex_of-dashed (hex 32 u) (hex-IsDigit 32 u) (hex-no_dash 32 u)) (length-hex 32 u)
        (int_16-hex u h) h
