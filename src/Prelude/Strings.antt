-- ===== src/Prelude/Strings.antt =====
-- A Python `str` is the list of its UTF-8 bytes, so that `.encode()` and `.decode()` are the
-- identity; `bytes` are such a list too.
use Prim.Native.Nat.{ℕ}
use Prim.Native.Char.{code}
use Prim.Native.String.{String}
use mathlib.Core.Path.{◌≡◌, refl}
use mathlib.Core.Logic.{◌↔◌}
use mathlib.Core.Bool.{Bool, true, false, ◌&&◌, ◌||◌}
use mathlib.Core.List.{List, [], ◌∷◌}
use mathlib.Core.Option.{Option, none, some}
use native.Mathlib.Omega.{arith}
use octw.Prelude.Tests.{nat_beq, nat_beq_iff}

abbrev pub Text : Type 0
Text = List ℕ

-- The bytes of an ASCII literal.
abbrev pub codes : String → Text
codes String.[] = []
codes (String.◌∷◌ c s) = code c ∷ codes s

unfoldable pub text_beq : Text → Text → Bool
text_beq [] [] = true
text_beq [] (y ∷ ys) = false
text_beq (x ∷ xs) [] = false
text_beq (x ∷ xs) (y ∷ ys) = nat_beq x y && text_beq xs ys

text_beq→ : (s t : Text) → text_beq s t ≡ true → s ≡ t
unfolding text_beq
text_beq→ [] [] h = refl
text_beq→ [] (y ∷ ys) h = cc
text_beq→ (x ∷ xs) [] h = cc
text_beq→ (x ∷ xs) (y ∷ ys) h = ground (arith, text_beq→ xs ys)

text_beq_refl : (s : Text) → text_beq s s ≡ true
unfolding text_beq
text_beq_refl [] = refl
text_beq_refl (x ∷ xs) = ground (arith, text_beq_refl xs)

pub text_beq_iff : (s t : Text) → (text_beq s t ≡ true) ↔ (s ≡ t)
text_beq_iff s t = (text_beq→ s t, λ e. ground (arith, text_beq_refl s))

infix 50 ◌==◌
-- A type whose values the program compares.
pub record Eq {ℓ} (K : Type ℓ) : Type ℓ where
  pub equal : K → K → Bool
  pub equal_iff : (x y : K) → (equal x y ≡ true) ↔ (x ≡ y)

module _ {ℓ} {K : Type ℓ} where
  abbrev pub ◌==◌ : ⦃keys : Eq K⦄ → K → K → Bool
  ◌==◌ ⦃keys⦄ x y = keys.equal x y

instance abbrev pub text_eq : Eq Text
text_eq = record { equal_iff = text_beq_iff; equal = text_beq }

instance abbrev pub nat_eq : Eq ℕ
nat_eq = record { equal_iff = nat_beq_iff; equal = nat_beq }

module _ {ℓ κ} {A : Type ℓ} {B : Type κ} ⦃a : Eq A⦄ ⦃b : Eq B⦄ where
  abbrev pair_beq : A × B → A × B → Bool
  pair_beq (x, y) (z, w) = a.equal x z && b.equal y w

  pub pair_beq_iff : (p q : A × B) → (pair_beq p q ≡ true) ↔ (p ≡ q)
  pair_beq_iff (x, y) (z, w) = ground (arith, a.equal_iff x z, b.equal_iff y w)

  instance abbrev pub pair_eq : Eq (A × B)
  pair_eq = record { equal_iff = pair_beq_iff; equal = pair_beq }

-- Python's truth of an optional text: `None` and `""` are false.
abbrev pub truthy : Option Text → Bool
truthy none = false
truthy (some []) = false
truthy (some (c ∷ s)) = true

-- `a or b`
abbrev pub or_text : Option Text → Text → Text
or_text none d = d
or_text (some []) d = d
or_text (some (c ∷ s)) d = c ∷ s

-- `s.split(c)[0]`
unfoldable pub before : ℕ → Text → Text
before c [] = []
before c (x ∷ s) = let rest = before c s in elim (nat_beq x c) [ true ↦ [] | false ↦ x ∷ rest ]

unfoldable pub starts_with : Text → Text → Bool
starts_with [] s = true
starts_with (c ∷ p) [] = false
starts_with (c ∷ p) (x ∷ s) = nat_beq c x && starts_with p s

-- `p in s`
unfoldable pub contains : Text → Text → Bool
unfolding starts_with
contains p [] = starts_with p []
contains p (x ∷ s) = starts_with p (x ∷ s) || contains p s
