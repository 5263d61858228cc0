-- ===== src/Uuid/Distinct.antt =====
-- Two UUIDs are never written the same, so that no two tenants share a container, a network or a
-- directory.
use octw.Prelude.{
  ℕ, zero, suc, ◌+◌, ◌*◌, ◌/◌, ◌%◌, ◌<◌, Text, codes, false, [], ◌∷◌, ◌++◌, ◌≡◌, refl, sym, ap, ◌∙◌,
  arith, ◌==◌, nat_eq, not, has, has-append, keep, take, drop,
}
use mathlib.Core.List.{append-nil}
use octw.Models.Tenant.{Uuid}
use octw.Uuid.{hex_digit, hex, uuid_text}

append_one-inj : (xs ys : Text) (x y : ℕ) → xs ++ x ∷ [] ≡ ys ++ y ∷ [] → (xs ≡ ys) × (x ≡ y)
append_one-inj [] [] x y h = ground arith
append_one-inj [] (b ∷ []) x y h = absurd (ground arith)
append_one-inj [] (b ∷ c ∷ ys) x y h = absurd (ground arith)
append_one-inj (a ∷ []) [] x y h = absurd (ground arith)
append_one-inj (a ∷ c ∷ xs) [] x y h = absurd (ground arith)
append_one-inj (a ∷ xs) (b ∷ ys) x y h = ground (arith, append_one-inj xs ys x y)

hex_digit-inj : (d e : ℕ) → d < 16 → e < 16 → hex_digit d ≡ hex_digit e → d ≡ e
unfolding hex_digit
hex_digit-inj d e p q h = ground arith

-- Sixteen to the power of `k`.
abbrev pub pow16 : ℕ → ℕ
pow16 zero = 1
pow16 (suc k) = 16 * pow16 k

-- A number below 16 ^ k is determined by its last `k` digits.
hex-inj : (k m n : ℕ) → m < pow16 k → n < pow16 k → hex k m ≡ hex k n → m ≡ n
unfolding hex
hex-inj zero m n p q h = omega arith
hex-inj (suc k) m n p q h =
    let (low, high) = append_one-inj (hex k (m / 16)) (hex k (n / 16)) _ _ h in
    let a = hex-inj k (m / 16) (n / 16) (omega arith) (omega arith) low in
    let b = hex_digit-inj (m % 16) (n % 16) (omega arith) (omega arith) high in omega arith

pub hex-no_dash : (k n : ℕ) → has b'-' (hex k n) ≡ false
unfolding hex has hex_digit
hex-no_dash zero n = refl
hex-no_dash (suc k) n =
    ground (arith, hex-no_dash k (n / 16), has-append b'-' (hex_digit (n % 16)) (hex k (n / 16)))

-- A text without its dashes.
abbrev pub plain : Text → Text
plain = keep (λ x. not (x == b'-'))

plain-append : (xs ys : Text) → plain (xs ++ ys) ≡ plain xs ++ plain ys
unfolding keep
plain-append [] ys = refl
plain-append (x ∷ xs) ys = ground (arith, plain-append xs ys)

plain-same : (xs : Text) → has b'-' xs ≡ false → plain xs ≡ xs
unfolding keep has
plain-same [] h = refl
plain-same (x ∷ xs) h = ground (arith, plain-same xs)

has-take : (n : ℕ) (xs : Text) → has b'-' xs ≡ false → has b'-' (take n xs) ≡ false
unfolding has
has-take zero xs h = refl
has-take (suc n) [] h = refl
has-take (suc n) (x ∷ xs) h = ground (arith, has-take n xs)

has-drop : (n : ℕ) (xs : Text) → has b'-' xs ≡ false → has b'-' (drop n xs) ≡ false
unfolding has
has-drop zero xs h = h
has-drop (suc n) [] h = refl
has-drop (suc n) (x ∷ xs) h = has-drop n xs (ground arith)

take-same : (k l : ℕ) (xs : Text) → k ≡ l → take k xs ≡ take l xs
take-same k l xs e = ap (λ n. take n xs) e

take-nil : (k : ℕ) → take {A = ℕ} k [] ≡ []
take-nil zero = refl
take-nil (suc k) = refl

take-add : (n m : ℕ) (xs : Text) → take n xs ++ take m (drop n xs) ≡ take (n + m) xs
take-add zero m xs = take-same m (0 + m) xs (omega arith)
take-add (suc n) m [] = take-nil m ∙ sym (take-nil (suc n + m))
take-add (suc n) m (x ∷ xs) =
    ap (λ ys. x ∷ ys) (take-add n m xs) ∙ take-same (suc (n + m)) (suc n + m) (x ∷ xs) (omega arith)

take-drop : (n : ℕ) (xs : Text) → take n xs ++ drop n xs ≡ xs
take-drop zero xs = refl
take-drop (suc n) [] = refl
take-drop (suc n) (x ∷ xs) = ap (λ ys. x ∷ ys) (take-drop n xs)

abbrev pub dash : Text
dash = codes "-"

-- The groups of `uuid_text`.
abbrev pub dashed : Text → Text
dashed ds =
    take 8 ds
    ++ dash
    ++ take 4 (drop 8 ds)
    ++ dash
    ++ take 4 (drop 12 ds)
    ++ dash
    ++ take 4 (drop 16 ds)
    ++ dash
    ++ drop 20 ds

plain-dash : (xs ys : Text) → has b'-' ys ≡ false → plain (xs ++ dash ++ ys) ≡ plain xs ++ ys
unfolding keep
plain-dash xs ys h =
    plain-append (xs ++ dash) ys
    ∙ ap (λ zs. zs ++ plain ys) (plain-append xs dash ∙ append-nil (plain xs))
    ∙ ap (λ zs. plain xs ++ zs) (plain-same ys h)

pub plain-dashed : (ds : Text) → has b'-' ds ≡ false → plain (dashed ds) ≡ ds
plain-dashed ds h =
    let part : (n : ℕ) → has b'-' (take 4 (drop n ds)) ≡ false =
      λ n. has-take 4 (drop n ds) (has-drop n ds h) in
    rw
      (
        plain-dash _ (drop 20 ds) (has-drop 20 ds h),
        plain-dash _ (take 4 (drop 16 ds)) (part 16),
        plain-dash _ (take 4 (drop 12 ds)) (part 12),
        plain-dash (take 8 ds) (take 4 (drop 8 ds)) (part 8),
        plain-same (take 8 ds) (has-take 8 ds h),
        take-add 8 4 ds,
        take-add 12 4 ds,
        take-add 16 4 ds,
      )
      (take-drop 20 ds)

same-text : (u v : Uuid) → uuid_text u ≡ uuid_text v → hex 32 u ≡ hex 32 v
unfolding uuid_text
same-text u v h =
    sym (plain-dashed (hex 32 u) (hex-no_dash 32 u))
    ∙ ap plain h
    ∙ plain-dashed (hex 32 v) (hex-no_dash 32 v)

-- UUIDs, which are below 2 ^ 128, that are written the same are the same.
pub uuid_text-inj : (u v : Uuid) → u < pow16 32 → v < pow16 32 → uuid_text u ≡ uuid_text v → u ≡ v
uuid_text-inj u v p q h = hex-inj 32 u v p q (same-text u v h)
