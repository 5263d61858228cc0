-- ===== src/Prelude/Dicts.antt =====
-- A Python `dict` with text keys, in insertion order.
use mathlib.Core.Path.{◌≡◌, refl}
use mathlib.Core.List.{List, [], ◌∷◌}
use mathlib.Core.Option.{Option, none, some}
use native.Mathlib.Omega.{arith}
use octw.Prelude.Tests.{if◌then◌else◌}
use octw.Prelude.Strings.{Text, text_eq, text_beq_iff, ◌==◌}

abbrev pub Dict {ℓ} : Type ℓ → Type ℓ
Dict V = List (Text × V)

module _ {ℓ} {V : Type ℓ} where
  -- `d.get(k)`
  unfoldable pub lookup : Text → Dict V → Option V
  lookup k [] = none
  lookup k ((j, v) ∷ d) = if j == k then some v else lookup k d

  -- `d[k] = v`
  unfoldable pub insert : Text → V → Dict V → Dict V
  insert k v [] = (k, v) ∷ []
  insert k v ((j, w) ∷ d) = if j == k then (k, v) ∷ d else (j, w) ∷ insert k v d

  -- `d.update(e)`
  unfoldable pub update : Dict V → Dict V → Dict V
  update d [] = d
  update d ((k, v) ∷ e) = update (insert k v d) e

  pub lookup-insert :
      (k j : Text) (v : V) (d : Dict V)
      → lookup j (insert k v d) ≡ (if k == j then some v else lookup j d)
  unfolding lookup insert
  lookup-insert k j v [] = refl
  lookup-insert k j v ((i, w) ∷ d) =
      ground (arith, text_beq_iff k j, text_beq_iff i k, text_beq_iff i j, lookup-insert k j v d)

  -- The last entry of a list for a key, which is the one that `update` leaves.
  unfoldable pub last_of : Text → Dict V → Option V → Option V
  last_of k [] found = found
  last_of k ((j, v) ∷ e) found = last_of k e (if j == k then some v else found)

  pub lookup-update : (k : Text) (e d : Dict V) → lookup k (update d e) ≡ last_of k e (lookup k d)
  unfolding update last_of
  lookup-update k [] d = refl
  lookup-update k ((j, v) ∷ e) d =
      ground (arith, lookup-update k e (insert j v d), lookup-insert j k v d)

  -- `d.pop(k, None)`, as it changes `d`
  unfoldable pub remove : Text → Dict V → Dict V
  remove k [] = []
  remove k ((j, v) ∷ d) = let rest = remove k d in if j == k then rest else (j, v) ∷ rest

  pub lookup-remove :
      (k j : Text) (d : Dict V) → lookup j (remove k d) ≡ (if k == j then none else lookup j d)
  unfolding lookup remove
  lookup-remove k j [] = ground arith
  lookup-remove k j ((i, w) ∷ d) =
      ground (arith, text_beq_iff k j, text_beq_iff i k, text_beq_iff i j, lookup-remove k j d)
