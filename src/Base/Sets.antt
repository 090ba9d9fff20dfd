-- ===== src/Base/Sets.antt =====
-- Python's sets and dicts of texts, as lists that are read only by membership and by key.
use Prim.Native.Nat.{Ordering}
use Prim.Native.String.{String, compare}
use mathlib.Core.Path.{◌≡◌}
use mathlib.Core.Logic.{inl, inr}
use mathlib.Core.Bool.{Bool, true, false, not, ◌&&◌, ◌||◌}
use mathlib.Core.Option.{Option, none, some}
use mathlib.Core.List.{List, [], ◌∷◌}
use native.Mathlib.Omega.{arith}
use text.Mathlib.Text.{◌==◌}
use text.Mathlib.TextEquality.{eq_iff}
use nexvary_panel.Base.Tests.{if◌then◌else◌, Bool-cases}

-- `x in s`
unfoldable pub contains : List String → String → Bool
contains [] x = false
contains (y ∷ s) x = y == x || contains s x

-- `s.add(x)`
unfoldable pub add : String → List String → List String
unfolding contains
add x s = if contains s x then s else x ∷ s

-- `s.discard(x)`
unfoldable pub discard : String → List String → List String
discard x [] = []
discard x (y ∷ s) = let rest = discard x s in if y == x then rest else y ∷ rest

-- `len(s) == len(set(s))`
unfoldable pub distinct : List String → Bool
unfolding contains
distinct [] = true
distinct (x ∷ s) = not (contains s x) && distinct s

-- `a <= b`
abbrev pub text_leb : String → String → Bool
text_leb a b = elim (compare a b) [ Ordering.gt ↦ false | _ ↦ true ]

-- `x` among the sorted texts, once
unfoldable pub insert_text : String → List String → List String
insert_text x [] = x ∷ []
insert_text x (y ∷ l) =
    let rest = insert_text x l in
    elim (compare x y) [ Ordering.lt ↦ x ∷ y ∷ l | Ordering.eq ↦ y ∷ l | Ordering.gt ↦ y ∷ rest ]

contains-old :
    (x y : String) (s : List String) → contains s x ≡ true → contains s y ≡ (x == y || contains s y)
unfolding contains
contains-old x y [] h = cc
contains-old x y (z ∷ s) h = ground (arith, eq_iff z x, eq_iff z y, eq_iff x y, contains-old x y s)

pub contains-add :
    (x y : String) (s : List String) → contains (add x s) y ≡ (x == y || contains s y)
unfolding add contains
contains-add x y s = elim (Bool-cases (contains s x)) [
  | inl old ↦ rw old (contains-old x y s old)
  | inr new ↦ rw new
]

pub contains-discard :
    (x y : String) (s : List String) → contains (discard x s) y ≡ (not (x == y) && contains s y)
unfolding discard contains
contains-discard x y [] = ground arith
contains-discard x y (z ∷ s) =
    ground (arith, eq_iff z x, eq_iff z y, eq_iff x y, contains-discard x y s)

module _ {ℓ} {V : Type ℓ} where
  -- `d.get(k)`
  unfoldable pub lookup : String → List (String × V) → Option V
  lookup k [] = none
  lookup k ((j, v) ∷ d) = if j == k then some v else lookup k d

  -- `d[k] = v`
  unfoldable pub insert : String → V → List (String × V) → List (String × V)
  insert k v [] = (k, v) ∷ []
  insert k v ((j, w) ∷ d) = if j == k then (j, v) ∷ d else (j, w) ∷ insert k v d

  -- `d.pop(k, None)`
  unfoldable pub remove : String → List (String × V) → List (String × V)
  remove k [] = []
  remove k ((j, v) ∷ d) = let rest = remove k d in if j == k then rest else (j, v) ∷ rest

  pub lookup-insert :
      (k j : String) (v : V) (d : List (String × V))
      → lookup j (insert k v d) ≡ (if k == j then some v else lookup j d)
  unfolding lookup insert
  lookup-insert k j v [] = ground arith
  lookup-insert k j v ((i, w) ∷ d) =
      ground (arith, eq_iff k j, eq_iff i k, eq_iff i j, lookup-insert k j v d)

  pub lookup-remove :
      (k j : String) (d : List (String × V))
      → lookup j (remove k d) ≡ (if k == j then none else lookup j d)
  unfolding lookup remove
  lookup-remove k j [] = ground arith
  lookup-remove k j ((i, w) ∷ d) =
      ground (arith, eq_iff k j, eq_iff i k, eq_iff i j, lookup-remove k j d)
