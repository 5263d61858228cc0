-- ===== src/Prelude/Rows.antt =====
-- What holds of all rows, under each change of a list of rows.
use mathlib.Core.Path.{◌≡◌, refl}
use mathlib.Core.Bool.{Bool, true, false}
use mathlib.Core.List.{List, [], ◌∷◌, ◌++◌}
use native.Mathlib.Omega.{arith}
use octw.Prelude.Lists.{All, keep, update_where}

module _ {ℓ} {A : Type ℓ} where
  pub All-weaken : {P Q : A → Type 0} (xs : List A) → ((x : A) → P x → Q x) → All P xs → All Q xs
  All-weaken [] f h = tt
  All-weaken (x ∷ xs) f h = (f x h.0, All-weaken xs f h.1)

  pub All-append : (P : A → Type 0) (xs : List A) (y : A) → All P xs → P y → All P (xs ++ y ∷ [])
  All-append P [] y h p = (p, tt)
  All-append P (x ∷ xs) y h p = (h.0, All-append P xs y h.1 p)

  pub All-keep : (P : A → Type 0) (p : A → Bool) (xs : List A) → All P xs → All P (keep p xs)
  unfolding keep
  All-keep P p [] h = tt
  All-keep P p (x ∷ xs) h = ground (arith, All-keep P p xs h.1)

  -- What holds of the rows that pass need be shown of them alone.
  pub All-keep_where :
      (P Q : A → Type 0) (p : A → Bool) (xs : List A)
      → ((x : A) → p x ≡ true → P x → Q x)
      → All P xs
      → All Q (keep p xs)
  unfolding keep
  All-keep_where P Q p [] f h = tt
  All-keep_where P Q p (x ∷ xs) f h = ground (arith, f x, All-keep_where P Q p xs f h.1)

  pub All-update :
      (P : A → Type 0) (p : A → Bool) (f : A → A) (xs : List A)
      → ((x : A) → p x ≡ true → P x → P (f x))
      → All P xs
      → All P (update_where p f xs)
  unfolding update_where
  All-update P p f [] g h = tt
  All-update P p f (x ∷ xs) g h = ground (arith, g x, All-update P p f xs g h.1)

-- What passes is the same where rows that do not pass are added, taken away or changed.
module _ {ℓ} {A : Type ℓ} (p : A → Bool) where
  pub keep-append : (xs : List A) (y : A) → p y ≡ false → keep p (xs ++ y ∷ []) ≡ keep p xs
  unfolding keep
  keep-append [] y h = ground arith
  keep-append (x ∷ xs) y h = ground (arith, keep-append xs y)

  pub keep-keep :
      (q : A → Bool) (xs : List A)
      → ((x : A) → p x ≡ true → q x ≡ true)
      → keep p (keep q xs) ≡ keep p xs
  unfolding keep
  keep-keep q [] h = refl
  keep-keep q (x ∷ xs) h = ground (arith, h x, keep-keep q xs h)

  pub keep-update_where :
      (q : A → Bool) (f : A → A) (xs : List A)
      → ((x : A) → q x ≡ true → (p x ≡ false) × (p (f x) ≡ false))
      → keep p (update_where q f xs) ≡ keep p xs
  unfolding keep update_where
  keep-update_where q f [] h = refl
  keep-update_where q f (x ∷ xs) h = ground (arith, h x, keep-update_where q f xs h)
