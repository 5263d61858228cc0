-- ===== src/Uuid/Parse.antt =====
-- `uuid.UUID(text)`: the forms of a UUID that the routes accept. Digits and spaces outside ASCII, which
-- `int` would accept too, are refused here.
use octw.Prelude.{
  ℕ, zero, suc, ◌+◌, ◌-◌, ◌*◌, ◌^◌, ◌≤◌, arith, Text, codes, Bool, false, true, not, ◌&&◌, ◌||◌,
  Option, none, some, [], ◌∷◌, ◌≡◌, refl, leb, ltb, nat_beq, if◌then◌else◌, drop, length, keep,
  starts_with,
}
use octw.Models.Tenant.{Uuid}

-- `s.replace(p, "")` for a text `p` that is not empty; `n` bounds the length of `s`.
unfoldable pub replace_all : ℕ → Text → Text → Text
replace_all zero p s = s
replace_all (suc n) p [] = []
replace_all (suc n) p (x ∷ s) =
    let rest = replace_all n p s in
    let after = replace_all n p (drop (length p) (x ∷ s)) in
    if starts_with p (x ∷ s) then after else x ∷ rest

abbrev pub removed : Text → Text → Text
removed p s = replace_all (length s) p s

-- The texts without the characters at their start, and at their end, that pass.
unfoldable pub strip_left : (ℕ → Bool) → Text → Text
strip_left q [] = []
strip_left q (x ∷ s) = let rest = strip_left q s in if q x then rest else x ∷ s

unfoldable pub strip_right : (ℕ → Bool) → Text → Text
strip_right q [] = []
strip_right q (x ∷ s) = elim (strip_right q s) [
  | [] ↦ if q x then [] else x ∷ []
  | y ∷ rest ↦ x ∷ y ∷ rest
]

abbrev pub strip : (ℕ → Bool) → Text → Text
strip q s = strip_right q (strip_left q s)

abbrev pub is_brace : ℕ → Bool
is_brace c = nat_beq c b'{' || nat_beq c b'}'

abbrev pub no_dash : ℕ → Bool
no_dash c = not (nat_beq c b'-')

abbrev pub is_space : ℕ → Bool
is_space c = (leb 9 c && leb c 13) || nat_beq c 32

-- The value of a digit in base 16.
unfoldable pub digit_value : ℕ → Option ℕ
digit_value c =
    if leb 48 c && leb c 57
    then some (c - 48)
    else if leb 97 c && leb c 102
    then some (c - 87)
    else if leb 65 c && leb c 70
    then some (c - 55)
    else none

-- The digits of `int(s, 16)` behind the value `n`; an underscore stands between two digits only.
-- `after_digit` says whether the character before was a digit.
unfoldable pub scan : Text → Bool → ℕ → Option ℕ
scan [] after_digit n = if after_digit then some n else none
scan (c ∷ s) after_digit n = elim (digit_value c) [
  | some d ↦ scan s true (16 * n + d)
  | none ↦ if after_digit && nat_beq c b'_' then scan s false n else none
]

-- A sign; the minus has been removed before.
abbrev pub after_sign : Text → Text
after_sign [] = []
after_sign (c ∷ s) = if nat_beq c b'+' then s else c ∷ s

abbrev pub after_underscore : Text → Text
after_underscore [] = []
after_underscore (c ∷ s) = if nat_beq c b'_' then s else c ∷ s

-- The prefix `0x`, behind which one underscore is allowed.
abbrev pub after_prefix : Text → Text
after_prefix (c ∷ x ∷ s) =
    if nat_beq c b'0' && (nat_beq x b'x' || nat_beq x b'X') then after_underscore s else c ∷ x ∷ s
after_prefix s = s

-- `int(s, 16)`
unfoldable pub int_16 : Text → Option ℕ
int_16 s = scan (after_prefix (after_sign (strip is_space s))) false 0

-- What is left of a text before its digits are read.
unfoldable pub hex_of : Text → Text
hex_of s =
    let hex = removed (codes "uuid:") (removed (codes "urn:") s) in
    keep no_dash (strip is_brace hex)

abbrev pub in_range : Option ℕ → Option Uuid
in_range none = none
in_range (some n) = if ltb n (2 ^ 128) then some n else none

-- `uuid.UUID(s)`; `none` is its `ValueError`.
unfoldable pub uuid_of_text : Text → Option Uuid
uuid_of_text s =
    let hex = hex_of s in if nat_beq (length hex) 32 then in_range (int_16 hex) else none

pub uuid_of_text-nil : uuid_of_text [] ≡ none
unfolding uuid_of_text hex_of keep strip_right strip_left replace_all
uuid_of_text-nil = refl

pub length-drop : (k : ℕ) (s : Text) → length (drop k s) ≤ length s
length-drop zero s = omega arith
length-drop (suc k) [] = omega arith
length-drop (suc k) (x ∷ s) = omega (arith, length-drop k s)

-- The length of a text is fuel enough: more changes nothing.
replace_all-enough :
    (n m c : ℕ) (p s : Text)
    → length s ≤ n
    → length s ≤ m
    → replace_all n (c ∷ p) s ≡ replace_all m (c ∷ p) s
unfolding replace_all
replace_all-enough zero zero c p s h k = refl
replace_all-enough zero (suc m) c p [] h k = refl
replace_all-enough zero (suc m) c p (x ∷ s) h k = absurd (omega arith)
replace_all-enough (suc n) zero c p [] h k = refl
replace_all-enough (suc n) zero c p (x ∷ s) h k = absurd (omega arith)
replace_all-enough (suc n) (suc m) c p [] h k = refl
replace_all-enough (suc n) (suc m) c p (x ∷ s) h k = ground (
  arith,
  replace_all-enough n m c p s,
  replace_all-enough n m c p (drop (length p) s),
  length-drop (length p) s,
)
