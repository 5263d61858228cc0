-- ===== src/Prelude/Lists.antt =====
-- Searches and updates of lists of rows, keys that occur once, and predicates over rows.
use Prim.Native.Nat.{ℕ, zero, suc}
use mathlib.Core.Path.{◌≡◌, refl, sym, subst}
use mathlib.Core.Bool.{Bool, false, true, ◌||◌}
use mathlib.Core.List.{List, [], ◌∷◌, ◌++◌, map}
use mathlib.Core.Option.{Option, none, some}
use native.Mathlib.Omega.{arith}
use octw.Prelude.Tests.{if◌then◌else◌}
use octw.Prelude.Strings.{Eq, ◌==◌}

module _ {ℓ} {A : Type ℓ} where
  abbrev pub length : List A → ℕ
  length [] = 0
  length (x ∷ xs) = suc (length xs)

  -- The first row that passes.
  unfoldable pub find : (A → Bool) → List A → Option A
  find p [] = none
  find p (x ∷ xs) = if p x then some x else find p xs

  -- The rows that pass.
  unfoldable pub keep : (A → Bool) → List A → List A
  keep p [] = []
  keep p (x ∷ xs) = let rest = keep p xs in if p x then x ∷ rest else rest

  -- `f` at the rows that pass.
  unfoldable pub update_where : (A → Bool) → (A → A) → List A → List A
  update_where p f [] = []
  update_where p f (x ∷ xs) = (if p x then f x else x) ∷ update_where p f xs

  abbrev pub All {κ} : (A → Type κ) → List A → Type κ
  All P [] = Unit
  All P (x ∷ xs) = P x × All P xs

module _ {ℓ} {K : Type ℓ} ⦃e : Eq K⦄ where
  -- Whether `k` is one of the keys.
  unfoldable pub has : K → List K → Bool
  has k [] = false
  has k (j ∷ ks) = k == j || has k ks

  -- No key occurs twice.
  abbrev pub Distinct : List K → Type 0
  Distinct [] = Unit
  Distinct (k ∷ ks) = (has k ks ≡ false) × Distinct ks

  pub has-append : (k j : K) (ks : List K) → has k (ks ++ j ∷ []) ≡ (has k ks || k == j)
  unfolding has
  has-append k j [] = ground arith
  has-append k j (i ∷ ks) = ground (arith, has-append k j ks)

  pub Distinct-append :
      (k : K) (ks : List K) → Distinct ks → has k ks ≡ false → Distinct (ks ++ k ∷ [])
  unfolding has
  Distinct-append k [] d h = (refl, tt)
  Distinct-append k (j ∷ ks) d h = (
    ground (arith, has-append j k ks, e.equal_iff k j, e.equal_iff j k),
    Distinct-append k ks d.1 (ground arith),
  )

module _ {ℓ κ} {A : Type ℓ} {K : Type κ} ⦃e : Eq K⦄ (key : A → K) where
  has-map-keep :
      (k : K) (p : A → Bool) (xs : List A)
      → has k (map key xs) ≡ false
      → has k (map key (keep p xs)) ≡ false
  unfolding has keep
  has-map-keep k p [] h = refl
  has-map-keep k p (x ∷ xs) h = ground (arith, has-map-keep k p xs)

  pub Distinct-keep :
      (p : A → Bool) (xs : List A) → Distinct (map key xs) → Distinct (map key (keep p xs))
  unfolding keep
  Distinct-keep p [] d = tt
  Distinct-keep p (x ∷ xs) d = ground (arith, Distinct-keep p xs d.1, has-map-keep (key x) p xs d.0)

  -- An update that keeps the key of each row keeps the list of keys.
  pub map-update_where :
      (p : A → Bool) (f : A → A) (xs : List A)
      → ((x : A) → key (f x) ≡ key x)
      → map key (update_where p f xs) ≡ map key xs
  unfolding update_where
  map-update_where p f [] h = refl
  map-update_where p f (x ∷ xs) h = ground (arith, h x, map-update_where p f xs h)

pub map-append_one {ℓ κ} :
    {A : Type ℓ} {B : Type κ} (f : A → B) (xs : List A) (y : A)
    → map f (xs ++ y ∷ []) ≡ map f xs ++ f y ∷ []
map-append_one f [] y = refl
map-append_one f (x ∷ xs) y = cc (map-append_one f xs y)

module _ {ℓ κ} {A : Type ℓ} {K : Type κ} ⦃e : Eq K⦄ where
  -- A row with a new key is added.
  pub Distinct-add :
      (key : A → K) (xs : List A) (x : A)
      → Distinct (map key xs)
      → has (key x) (map key xs) ≡ false
      → Distinct (map key (xs ++ x ∷ []))
  Distinct-add key xs x d h =
      subst Distinct (sym (map-append_one key xs x)) (Distinct-append (key x) (map key xs) d h)

  pub has-add :
      (key : A → K) (xs : List A) (x : A) (k : K)
      → has k (map key xs) ≡ true
      → has k (map key (xs ++ x ∷ [])) ≡ true
  has-add key xs x k h = rw (map-append_one key xs x, has-append k (key x) (map key xs), h)

module _ {ℓ} {A : Type ℓ} where
  abbrev pub take : ℕ → List A → List A
  take zero xs = []
  take (suc n) [] = []
  take (suc n) (x ∷ xs) = x ∷ take n xs

  abbrev pub drop : ℕ → List A → List A
  drop zero xs = xs
  drop (suc n) [] = []
  drop (suc n) (x ∷ xs) = drop n xs

-- A function that keeps the key of each row keeps the list of keys.
pub map-map {ℓ κ} :
    {A : Type ℓ} {K : Type κ} (key : A → K) (f : A → A) (xs : List A)
    → ((x : A) → key (f x) ≡ key x)
    → map key (map f xs) ≡ map key xs
map-map key f [] h = refl
map-map key f (x ∷ xs) h = cc (h x, map-map key f xs h)
