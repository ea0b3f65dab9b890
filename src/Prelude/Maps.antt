-- ===== src/Prelude/Maps.antt =====
-- `BTreeMap<String, V>`: an association list in the order of its keys.
use Prim.Native.Nat.{suc, Ordering}
use Prim.Native.String.{String, compare}
use mathlib.Core.Path.{◌≡◌, refl, ap}
use mathlib.Core.Logic.{◌⊎◌, inl, inr}
use mathlib.Core.Bool.{Bool, true, false}
use mathlib.Core.List.{List, [], ◌∷◌}
use mathlib.Core.Option.{Option, none, some}
use text.Mathlib.TextEquality.{path_by_compare}
use text.Mathlib.TextPositions.{compare_refl}
use vergil.Prelude.Tests.{if◌then◌else◌}
use vergil.Prelude.Text.{str_eq, str_eq_iff, str_eq_refl}
use vergil.Prelude.Lists.{length}

abbrev pub TreeMap {ℓ} : Type ℓ → Type ℓ
TreeMap V = List (String × V)

unfoldable pub Ordering-cases :
    (o : Ordering) → (o ≡ Ordering.lt) ⊎ ((o ≡ Ordering.eq) ⊎ (o ≡ Ordering.gt))
Ordering-cases Ordering.lt = inl refl
Ordering-cases Ordering.eq = inr (inl refl)
Ordering-cases Ordering.gt = inr (inr refl)

module _ {ℓ} {V : Type ℓ} where
  unfoldable pub lookup : String → TreeMap V → Option V
  lookup k [] = none
  lookup k ((j, v) ∷ m) = if str_eq j k then some v else lookup k m

  unfoldable pub insert : String → V → TreeMap V → TreeMap V
  insert k v [] = (k, v) ∷ []
  insert k v ((j, w) ∷ m) = elim (compare k j) [
    | Ordering.lt ↦ (k, v) ∷ (j, w) ∷ m
    | Ordering.eq ↦ (k, v) ∷ m
    | Ordering.gt ↦ (j, w) ∷ insert k v m
  ]

  abbrev pub values : TreeMap V → List V
  values [] = []
  values ((k, v) ∷ m) = v ∷ values m

  shadowed :
      (b : Bool) (x y z : Option V) → (if b then x else z) ≡ (if b then x else (if b then y else z))
  shadowed true x y z = refl
  shadowed false x y z = refl

  swap :
      (a b : Bool) (x y z : Option V)
      → (a ≡ true → b ≡ true → ⊥)
      → (if a then x else (if b then y else z)) ≡ (if b then y else (if a then x else z))
  swap true true x y z h = elim (h refl refl) [ ]
  swap true false x y z h = refl
  swap false true x y z h = refl
  swap false false x y z h = refl

  swapped :
      (i k j : String) (x y z : Option V)
      → compare k i ≡ Ordering.gt
      → (if str_eq i j then x else (if str_eq k j then y else z))
        ≡ (if str_eq k j then y else (if str_eq i j then x else z))
  swapped i k j x y z g =
      swap (str_eq i j) (str_eq k j) x y z
        (λ a b. cc (rw ((str_eq_iff k j).0 b, (str_eq_iff i j).0 a, compare_refl j) at g))

  not_first : (b : Bool) (w : V) {o : Option V} → (if b then some w else o) ≡ none → o ≡ none
  not_first true w h = cc h
  not_first false w h = h

  pub lookup-insert :
      (j k : String) (v : V) (m : TreeMap V)
      → lookup j (insert k v m) ≡ (if str_eq k j then some v else lookup j m)
  unfolding lookup insert
  lookup-insert j k v [] = refl
  lookup-insert j k v ((i, w) ∷ m) = elim (Ordering-cases (compare k i)) [
    | inl l ↦ rw (insert, l) refl
    | inr (inl e) ↦ rw (insert, e, path_by_compare k i e) (shadowed (str_eq i j) _ _ _)
    | inr (inr g) ↦ rw (insert, g, lookup-insert j k v m) (swapped i k j _ _ _ g)
  ]

  pub length-insert :
      (k : String) (v : V) (m : TreeMap V)
      → lookup k m ≡ none
      → length (insert k v m) ≡ suc (length m)
  unfolding lookup insert
  length-insert k v [] h = refl
  length-insert k v ((i, w) ∷ m) h = elim (Ordering-cases (compare k i)) [
    | inl l ↦ rw (insert, l) refl
    | inr (inl e) ↦ cc (rw (path_by_compare k i e, str_eq_refl i) at h)
    | inr (inr g) ↦ rw (insert, g) (ap suc (length-insert k v m (not_first (str_eq i k) w h)))
  ]
