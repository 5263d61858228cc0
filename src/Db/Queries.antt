-- ===== src/Db/Queries.antt =====
-- The query for one row against the search for a row.
use octw.Prelude.{
  Eq, ◌==◌, refl, has, map, Distinct, Bool, false, Option, none, some, List, [], ◌∷◌, ◌≡◌, arith,
  find, keep, Bool-cases, inl, inr,
}
use octw.Exec.{ok}
use octw.Db.Statements.{scalar_one_or_none}

module _ {A : Type 0} where
  one-of : (x : A) (ys : List A) (o : Option A) → scalar_one_or_none (x ∷ ys) ≡ ok o → some x ≡ o
  one-of x [] o h = cc
  one-of x (y ∷ ys) o h = cc

  -- A query for one row that returns has found the first row that passes, if there is one.
  pub found-one :
      (p : A → Bool) (xs : List A) (o : Option A)
      → scalar_one_or_none (keep p xs) ≡ ok o
      → find p xs ≡ o
  unfolding find keep
  found-one p [] o h = cc
  found-one p (x ∷ xs) o h = elim (Bool-cases (p x)) [
    | inl e ↦ rw (e, find) (one-of x (keep p xs) o (rw (e, keep) at h))
    | inr e ↦ rw (e, find) (found-one p xs o (rw (e, keep) at h))
  ]

module _ {A K : Type 0} ⦃e : Eq K⦄ (key : A → K) (k : K) where
  pub keep-nil : (xs : List A) → has k (map key xs) ≡ false → keep (λ r. key r == k) xs ≡ []
  unfolding keep has
  keep-nil [] h = refl
  keep-nil (x ∷ xs) h = ground (arith, keep-nil xs, e.equal_iff k (key x), e.equal_iff (key x) k)

  -- Where a key is unique, a query for one row by that key never finds two.
  pub one-found :
      (xs : List A)
      → Distinct (map key xs)
      → scalar_one_or_none (keep (λ r. key r == k) xs) ≡ ok (find (λ r. key r == k) xs)
  unfolding keep find
  one-found [] d = refl
  one-found (x ∷ xs) d = elim (Bool-cases (key x == k)) [
    | inl q ↦ let same = (e.equal_iff (key x) k).0 q in rw (q, keep-nil xs (rw (← same) d.0))
    | inr q ↦ rw q (one-found xs d.1)
  ]

  -- A key that no row has is not found.
  pub find-none : (xs : List A) → has k (map key xs) ≡ false → find (λ r. key r == k) xs ≡ none
  unfolding find has
  find-none [] h = refl
  find-none (x ∷ xs) h = ground (arith, find-none xs, e.equal_iff k (key x), e.equal_iff (key x) k)
