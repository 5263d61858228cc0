-- ===== src/Prelude/Sorting.antt =====
-- The order of Python's `str`, which is also that of the UTF-8 bytes, and `sorted(…, reverse=True)`.
use Prim.Native.Nat.{ℕ, ◌+◌, ◌≤◌}
use mathlib.Core.Path.{◌≡◌, refl, ap, ◌∙◌}
use mathlib.Core.Logic.{inl, inr}
use mathlib.Core.Bool.{Bool, true, false}
use mathlib.Core.List.{List, [], ◌∷◌, ◌++◌, map}
use native.Mathlib.Omega.{arith}
use octw.Prelude.Tests.{ltb, leb, if◌then◌else◌, Bool-cases, leb→le}
use octw.Prelude.Strings.{Text, Eq, ◌==◌}
use octw.Prelude.Lists.{All}

-- `s <= t`
unfoldable pub text_leb : Text → Text → Bool
text_leb [] t = true
text_leb (c ∷ s) [] = false
text_leb (c ∷ s) (d ∷ t) = if ltb c d then true else if ltb d c then false else text_leb s t

pub text_leb_refl : (s : Text) → text_leb s s ≡ true
unfolding text_leb
text_leb_refl [] = refl
text_leb_refl (c ∷ s) = ground (arith, text_leb_refl s)

-- A common front is passed over.
pub text_leb-append : (p s t : Text) → text_leb (p ++ s) (p ++ t) ≡ text_leb s t
unfolding text_leb
text_leb-append [] s t = refl
text_leb-append (c ∷ p) s t = ground (arith, text_leb-append p s t)

module _ {ℓ} {A : Type ℓ} (le : A → A → Bool) where
  unfoldable pub insert_before : A → List A → List A
  insert_before x [] = x ∷ []
  insert_before x (y ∷ ys) = if le y x then x ∷ y ∷ ys else y ∷ insert_before x ys

  -- Largest first, and equal ones in the order in which they came.
  unfoldable pub sorted_reverse : List A → List A
  sorted_reverse [] = []
  sorted_reverse (x ∷ xs) = insert_before x (sorted_reverse xs)

  insert_before-All {κ} :
      (P : A → Type κ) (x : A) (xs : List A) → P x → All P xs → All P (insert_before x xs)
  unfolding insert_before
  insert_before-All P x [] p h = (p, tt)
  insert_before-All P x (y ∷ ys) p h = elim (Bool-cases (le y x)) [
    | inl e ↦ rw e (p, h)
    | inr e ↦ rw e (h.0, insert_before-All P x ys p h.1)
  ]

  pub sorted_reverse-All {κ} : (P : A → Type κ) (xs : List A) → All P xs → All P (sorted_reverse xs)
  unfolding sorted_reverse
  sorted_reverse-All P [] h = tt
  sorted_reverse-All P (x ∷ xs) h =
      insert_before-All P x (sorted_reverse xs) h.0 (sorted_reverse-All P xs h.1)

-- A sort of images by a function that keeps the order is the image of a sort.
module _ {ℓ κ μ} {A : Type ℓ} {B : Type κ} (le : A → A → Bool) (le' : B → B → Bool) (f : A → B)
    (P : A → Type μ) (same : (x y : A) → P x → P y → le' (f x) (f y) ≡ le x y) where
  insert_before-map :
      (x : A) (xs : List A)
      → P x
      → All P xs
      → insert_before le' (f x) (map f xs) ≡ map f (insert_before le x xs)
  unfolding insert_before
  insert_before-map x [] p h = refl
  insert_before-map x (y ∷ ys) p h = elim (Bool-cases (le y x)) [
    | inl e ↦ rw (same y x h.0 p, e) refl
    | inr e ↦ rw (same y x h.0 p, e) (ap (◌∷◌ (f y)) (insert_before-map x ys p h.1))
  ]

  pub sorted_reverse-map :
      (xs : List A) → All P xs → sorted_reverse le' (map f xs) ≡ map f (sorted_reverse le xs)
  unfolding sorted_reverse
  sorted_reverse-map [] h = refl
  sorted_reverse-map (x ∷ xs) h =
      ap (insert_before le' (f x)) (sorted_reverse-map xs h.1)
      ∙ insert_before-map x (sorted_reverse le xs) h.0 (sorted_reverse-All le P xs h.1)

abbrev pub IsDescending : List ℕ → Type 0
IsDescending [] = Unit
IsDescending (x ∷ xs) = All (λ y. y ≤ x) xs × IsDescending xs

All-le : (x y : ℕ) (xs : List ℕ) → y ≤ x → All (λ z. z ≤ y) xs → All (λ z. z ≤ x) xs
All-le x y [] h k = tt
All-le x y (z ∷ xs) h k = (omega arith, All-le x y xs h k.1)

insert_before-IsDescending :
    (x : ℕ) (xs : List ℕ) → IsDescending xs → IsDescending (insert_before leb x xs)
unfolding insert_before
insert_before-IsDescending x [] h = (tt, tt)
insert_before-IsDescending x (y ∷ ys) h = elim (Bool-cases (leb y x)) [
  | inl e ↦ rw e ((leb→le y x e, All-le x y ys (leb→le y x e) h.0), h)
  | inr e ↦ rw e (
    insert_before-All leb (λ z. z ≤ y) x ys (ground arith) h.0,
    insert_before-IsDescending x ys h.1,
  )
]

pub sorted_reverse-IsDescending : (xs : List ℕ) → IsDescending (sorted_reverse leb xs)
unfolding sorted_reverse
sorted_reverse-IsDescending [] = tt
sorted_reverse-IsDescending (x ∷ xs) =
    insert_before-IsDescending x (sorted_reverse leb xs) (sorted_reverse-IsDescending xs)

module _ {ℓ} {A : Type ℓ} ⦃e : Eq A⦄ where
  abbrev pub count : A → List A → ℕ
  count a [] = 0
  count a (x ∷ xs) = (if x == a then 1 else 0) + count a xs

  module _ (le : A → A → Bool) where
    count-insert_before :
        (a x : A) (xs : List A) → count a (insert_before le x xs) ≡ count a (x ∷ xs)
    unfolding insert_before
    count-insert_before a x [] = refl
    count-insert_before a x (y ∷ ys) = ground (arith, count-insert_before a x ys)

    pub count-sorted_reverse : (a : A) (xs : List A) → count a (sorted_reverse le xs) ≡ count a xs
    unfolding sorted_reverse
    count-sorted_reverse a [] = refl
    count-sorted_reverse a (x ∷ xs) =
        omega (arith, count-insert_before a x (sorted_reverse le xs), count-sorted_reverse a xs)
