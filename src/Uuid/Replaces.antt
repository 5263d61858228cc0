-- ===== src/Uuid/Replaces.antt =====
-- `s.replace(p, "")` against a description of what it removes.
use octw.Prelude.{
  ℕ, zero, suc, ◌≤◌, Text, Bool-cases, inl, inr, true, false, [], ◌∷◌, ◌≡◌, arith, starts_with,
  drop, length,
}
use octw.Uuid.Parse.{replace_all, removed, length-drop}

-- From the left, what the text begins with is taken away if it is `p`, and one character is passed
-- over if not, until the text is at its end.
pub data Replaced (p : Text) : Text → Text → Type 0 where
  ends : Replaced p [] []
  cuts : {s r : Text} → starts_with p s ≡ true → Replaced p (drop (length p) s) r → Replaced p s r
  passes :
      {x : ℕ} {s r : Text}
      → starts_with p (x ∷ s) ≡ false
      → Replaced p s r
      → Replaced p (x ∷ s) (x ∷ r)

replace_all-Replaced :
    (n c : ℕ) (p s : Text) → length s ≤ n → Replaced (c ∷ p) s (replace_all n (c ∷ p) s)
unfolding replace_all
replace_all-Replaced zero c p [] h = ends
replace_all-Replaced zero c p (x ∷ s) h = absurd (omega arith)
replace_all-Replaced (suc n) c p [] h = ends
replace_all-Replaced (suc n) c p (x ∷ s) h = elim (Bool-cases (starts_with (c ∷ p) (x ∷ s))) [
  | inl e ↦ rw e (
      cuts e
        (replace_all-Replaced n c p (drop (length p) s) (omega (arith, length-drop (length p) s))))
  | inr e ↦ rw e (passes e (replace_all-Replaced n c p s (omega arith)))
]

-- The fuel of `removed`, the length of the text, lets it come to the end of every text: what it returns
-- is the text without the occurrences of a text that is not empty.
removed-Replaced : (c : ℕ) (p s : Text) → Replaced (c ∷ p) s (removed (c ∷ p) s)
removed-Replaced c p s = replace_all-Replaced (length s) c p s (omega arith)
