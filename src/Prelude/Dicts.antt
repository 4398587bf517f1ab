-- ===== src/Prelude/Dicts.antt =====
-- A `Map` or plain object keyed by texts: an association list in insertion order.
use Prim.Native.String.{String}
use mathlib.Core.Path.{◌≡◌, refl, sym, subst}
use mathlib.Core.Logic.{◌≢◌, inl, inr}
use mathlib.Core.Bool.{Bool, true, false}
use mathlib.Core.List.{List, [], ◌∷◌}
use mathlib.Core.Option.{Option, none, some}
use native.Mathlib.Omega.{arith}
use text.Mathlib.TextEquality.{eq_iff}
use text.Mathlib.TextPositions.{eq_refl}
use vsc_node.Prelude.Lists.{All}
use vsc_node.Prelude.Tests.{str_eq, if◌then◌else◌, str_eq_ne, Bool-cases}

abbrev pub Dict {ℓ} : Type ℓ → Type ℓ
Dict V = List (String × V)

module _ {ℓ} {V : Type ℓ} where
  unfoldable pub lookup : String → Dict V → Option V
  lookup key [] = none
  lookup key ((k, val) ∷ rest) = if str_eq k key then some val else lookup key rest

  unfoldable pub insert : String → V → Dict V → Dict V
  insert key val [] = (key, val) ∷ []
  insert key val ((k, old) ∷ rest) =
      if str_eq k key then (k, val) ∷ rest else (k, old) ∷ insert key val rest

  -- `map.has(k)`
  unfoldable pub contains : String → Dict V → Bool
  contains k m = elim (lookup k m) [ none ↦ false | some _ ↦ true ]

  pub lookup-insert :
      (key other : String) (val : V) (dict : Dict V)
      → lookup other (insert key val dict)
        ≡ (if str_eq key other then some val else lookup other dict)
  unfolding lookup insert
  lookup-insert key other val [] = refl
  lookup-insert key other val ((k, old) ∷ rest) =
      ground
        (arith, lookup-insert key other val rest, eq_iff key other, eq_iff k other, eq_iff k key)

  pub lookup-insert_self : (k : String) (v : V) (m : Dict V) → lookup k (insert k v m) ≡ some v
  lookup-insert_self k v m = rw (lookup-insert k k v m, eq_refl k)

  pub lookup-insert_ne :
      (k j : String) (v : V) (m : Dict V) → k ≢ j → lookup j (insert k v m) ≡ lookup j m
  lookup-insert_ne k j v m h = rw (lookup-insert k j v m, str_eq_ne k j h)

  -- No key stands twice.
  unfoldable pub IsObject : Dict V → Type ℓ
  IsObject [] = Unit
  IsObject ((k, val) ∷ rest) = (lookup k rest ≡ none) × IsObject rest

  pub insert-IsObject :
      (key : String) (val : V) (dict : Dict V) → IsObject dict → IsObject (insert key val dict)
  unfolding IsObject insert lookup
  insert-IsObject key val [] h = (refl, tt)
  insert-IsObject key val ((k, old) ∷ rest) (h, hs) = elim (Bool-cases (str_eq k key)) [
    | inl same ↦ rw (same, IsObject) (h, hs)
    | inr other ↦
        rw (other, IsObject)
          (
            ground (arith, lookup-insert key k val rest, eq_iff key k, eq_iff k key),
            insert-IsObject key val rest hs,
          )
  ]

-- What holds of every entry holds of the one that a lookup finds, and is kept by an insertion.
module _ {ℓ κ} {V : Type ℓ} (Holds : String → V → Type κ) where
  pub All-lookup :
      (dict : Dict V) (key : String) (val : V)
      → All (λ e. Holds e.0 e.1) dict
      → lookup key dict ≡ some val
      → Holds key val
  unfolding lookup
  All-lookup [] key val all found = ground arith
  All-lookup ((k, v) ∷ rest) key val (here, later) found = elim (Bool-cases (str_eq k key)) [
    | inl same ↦
        let is_val : v ≡ val = ground arith in
        subst (Holds key) is_val (subst (λ x. Holds x v) ((eq_iff k key).0 same) here)
    | inr other ↦ All-lookup rest key val later (ground arith)
  ]

  pub All-insert :
      (dict : Dict V) (key : String) (val : V)
      → Holds key val
      → All (λ e. Holds e.0 e.1) dict
      → All (λ e. Holds e.0 e.1) (insert key val dict)
  unfolding insert
  All-insert [] key val new all = (new, tt)
  All-insert ((k, v) ∷ rest) key val new (here, later) = elim (Bool-cases (str_eq k key)) [
    | inl same ↦ rw same (subst (λ x. Holds x val) (sym ((eq_iff k key).0 same)) new, later)
    | inr other ↦ rw other (here, All-insert rest key val new later)
  ]
