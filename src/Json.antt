-- ===== src/Json.antt =====
-- The values of Python's `json`, of which src/octw/orchestrator/docker_orch.py rewrites a file.
use octw.Prelude.{
  Text, Bool, true, false, not, ◌&&◌, ◌||◌, nat_eq, Option, none, some, List, [], ◌∷◌, ◌≡◌, ◌≢◌,
  refl, arith, ◌==◌, text_eq, text_beq_iff, if◌then◌else◌,
}
use octw.Exec.{Exc, Result, ok, err}

mutual
  -- A number is the text that it is written as.
  pub data Value : Type 0 where
    null : Value
    bool : Bool → Value
    number : Text → Value
    string : Text → Value
    array : Items → Value
    object : Fields → Value

  pub data Items : Type 0 where
    nil : Items
    cons : Value → Items → Items

  -- A `dict`, in insertion order.
  pub data Fields : Type 0 where
    end : Fields
    field : Text → Value → Fields → Fields

-- `d.get(k)`
unfoldable pub get : Text → Fields → Option Value
get k end = none
get k (field j v d) = if j == k then some v else get k d

-- `d[k] = v`
unfoldable pub set : Text → Value → Fields → Fields
set k v end = field k v end
set k v (field j w d) = if j == k then field k v d else field j w (set k v d)

-- `d.pop(k, None)`
unfoldable pub pop : Text → Fields → Fields
pop k end = end
pop k (field j w d) = if j == k then d else field j w (pop k d)

-- `d.get(k, {})`
unfoldable pub get_or_empty : Text → Fields → Value
get_or_empty k d = elim (get k d) [ none ↦ object end | some v ↦ v ]

-- Whether the text of a number is of zero: no digit but 0 up to its exponent, if it has one.
unfoldable pub is_zero : Text → Bool
is_zero [] = true
is_zero (c ∷ s) =
    let rest = is_zero s in
    c == b'e' || c == b'E' || ((c == b'0' || c == b'.' || c == b'-') && rest)

-- `bool(v)`, where a missing key is None.
abbrev pub truthy_value : Option Value → Bool
truthy_value none = false
truthy_value (some null) = false
truthy_value (some (bool b)) = b
truthy_value (some (number n)) = not (is_zero n)
truthy_value (some (string [])) = false
truthy_value (some (string (c ∷ s))) = true
truthy_value (some (array nil)) = false
truthy_value (some (array (cons v vs))) = true
truthy_value (some (object end)) = false
truthy_value (some (object (field k v d))) = true

-- A text; another value raises.
abbrev pub text_or : Exc → Option Value → Result Text
text_or e (some (string s)) = ok s
text_or e _ = err e

-- The fields of a `dict`; another value raises.
abbrev pub fields_or : Exc → Value → Result Fields
fields_or e (object d) = ok d
fields_or e _ = err e

-- What stands at a path of keys.
unfoldable pub at : List Text → Value → Option Value
at [] v = some v
at (k ∷ ks) (object d) = elim (get k d) [ none ↦ none | some v ↦ at ks v ]
at (k ∷ ks) _ = none

pub get-set :
    (k j : Text) (v : Value) (d : Fields) → get j (set k v d) ≡ (if k == j then some v else get j d)
unfolding get set
get-set k j v end = refl
get-set k j v (field i w d) =
    ground (arith, text_beq_iff k j, text_beq_iff i k, text_beq_iff i j, get-set k j v d)

pub get-pop_other : (k j : Text) (d : Fields) → k ≢ j → get j (pop k d) ≡ get j d
unfolding get pop
get-pop_other k j end n = refl
get-pop_other k j (field i w d) n =
    ground (arith, text_beq_iff i k, text_beq_iff i j, get-pop_other k j d n)

-- What stands below a key that has been set, and below another one.
pub at-set :
    (k : Text) (ks : List Text) (v : Value) (d : Fields)
    → at (k ∷ ks) (object (set k v d)) ≡ at ks v
unfolding at
at-set k ks v d = ground (arith, get-set k k v d, text_beq_iff k k)

pub get-set_other :
    (k j : Text) (v : Value) (d : Fields) → (k == j) ≡ false → get j (set k v d) ≡ get j d
get-set_other k j v d h = ground (arith, get-set k j v d)

pub at-get :
    (k : Text) (ks : List Text) (d e : Fields)
    → get k d ≡ get k e
    → at (k ∷ ks) (object d) ≡ at (k ∷ ks) (object e)
unfolding at
at-get k ks d e h = ground (arith, h)

pub at-set_other :
    (k j : Text) (ks : List Text) (v : Value) (d : Fields)
    → (k == j) ≡ false
    → at (j ∷ ks) (object (set k v d)) ≡ at (j ∷ ks) (object d)
at-set_other k j ks v d h = at-get j ks (set k v d) d (get-set_other k j v d h)

pub at-found :
    (k : Text) (ks : List Text) (v : Value) (d : Fields)
    → get k d ≡ some v
    → at (k ∷ ks) (object d) ≡ at ks v
unfolding at
at-found k ks v d h = ground (arith, h)
