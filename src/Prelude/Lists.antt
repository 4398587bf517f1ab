-- ===== src/Prelude/Lists.antt =====
-- Lists measured and indexed by native numbers, under the library's names.
use Prim.Native.Nat.{ℕ, zero, suc, ◌+◌, ◌≤◌, ◌<◌}
use mathlib.Core.Path.{◌≡◌, refl, ap, fun_ext, ◌∙◌}
use native.Mathlib.Numerals.{add-one}
use mathlib.Core.Bool.{Bool}
use mathlib.Core.List.{List, [], ◌∷◌, ◌++◌, map}
use mathlib.Core.Option.{Option, none, some}
use native.Mathlib.Omega.{arith}
use vsc_node.Prelude.Tests.{if◌then◌else◌}

module _ {ℓ} {A : Type ℓ} where
  abbrev pub length : List A → ℕ
  length [] = 0
  length (x ∷ xs) = suc (length xs)

  abbrev pub get_elem? : List A → ℕ → Option A
  get_elem? [] i = none
  get_elem? (x ∷ xs) zero = some x
  get_elem? (x ∷ xs) (suc i) = get_elem? xs i

  -- `xs.splice(i, 1)`
  abbrev pub erase_idx : List A → ℕ → List A
  erase_idx [] i = []
  erase_idx (x ∷ xs) zero = xs
  erase_idx (x ∷ xs) (suc i) = x ∷ erase_idx xs i

  -- `xs.slice(0, n)`
  abbrev pub take : ℕ → List A → List A
  take zero xs = []
  take (suc n) [] = []
  take (suc n) (x ∷ xs) = x ∷ take n xs

  -- `xs.find(test)`
  abbrev pub find : (A → Bool) → List A → Option A
  find p [] = none
  find p (x ∷ xs) = if p x then some x else find p xs

  -- `xs.filter(test)`
  abbrev pub filter : (A → Bool) → List A → List A
  filter p [] = []
  filter p (x ∷ xs) = if p x then x ∷ filter p xs else filter p xs

  pub length-append : (xs ys : List A) → length (xs ++ ys) ≡ length xs + length ys
  length-append [] ys = omega arith
  length-append (x ∷ xs) ys = omega (arith, length-append xs ys)

  pub length-take-le : (n : ℕ) (xs : List A) → length (take n xs) ≤ n
  length-take-le zero xs = omega arith
  length-take-le (suc n) [] = omega arith
  length-take-le (suc n) (x ∷ xs) = omega (arith, length-take-le n xs)

  pub get_elem?-some : (xs : List A) (i : ℕ) → i < length xs → (a : A) × (get_elem? xs i ≡ some a)
  get_elem?-some [] i h = elim h [ ]
  get_elem?-some (x ∷ xs) zero h = (x, refl)
  get_elem?-some (x ∷ xs) (suc i) h = get_elem?-some xs i (omega arith)

pub length-map {ℓ κ} :
    {A : Type ℓ} {B : Type κ} (f : A → B) (xs : List A) → length (map f xs) ≡ length xs
length-map f [] = refl
length-map f (x ∷ xs) = ap suc (length-map f xs)

-- `start, start + 1, …`, n numbers.
abbrev pub range : ℕ → ℕ → List ℕ
range start zero = []
range start (suc n) = start ∷ range (start + 1) n

pub length-range : (s n : ℕ) → length (range s n) ≡ n
length-range s zero = refl
length-range s (suc n) = ap suc (length-range (s + 1) n)

pub zero_add : (n : ℕ) → 0 + n ≡ n
zero_add n = omega arith

pub range-append : (s n m : ℕ) → range s n ++ range (s + n) m ≡ range s (n + m)
range-append s zero m = let e : s + 0 ≡ s = omega arith in rw (e, zero_add m)
range-append s (suc n) m =
    let e : s + suc n ≡ s + 1 + n = omega arith in
    let e' : suc n + m ≡ suc (n + m) = omega arith in
    rw (e, e') (ap (λ xs. s ∷ xs) (range-append (s + 1) n m))

-- A predicate that holds of every element.
abbrev pub All {ℓ κ} : {Elem : Type ℓ} → (Elem → Type κ) → List Elem → Type κ
All Holds [] = Unit
All Holds (e ∷ es) = Holds e × All Holds es

module _ {ℓ κ} {Elem : Type ℓ} (Holds : Elem → Type κ) where
  pub All-append : (es fs : List Elem) → All Holds es → All Holds fs → All Holds (es ++ fs)
  All-append [] fs left right = right
  All-append (e ∷ es) fs (head, tail) right = (head, All-append es fs tail right)

map-range_suc {ℓ} :
    {B : Type ℓ} (f : ℕ → B) (s n : ℕ) → map f (range (s + 1) n) ≡ map (λ i. f (i + 1)) (range s n)
map-range_suc f s zero = refl
map-range_suc f s (suc n) = ap (λ xs. f (s + 1) ∷ xs) (map-range_suc f (s + 1) n)

get_elem?-add_one {ℓ} :
    {A : Type ℓ} (x : A) (xs : List A) (i : ℕ) → get_elem? (x ∷ xs) (i + 1) ≡ get_elem? xs i
get_elem?-add_one x xs i = rw add-one

pub map_get_range {ℓ} :
    {A : Type ℓ} (arr : List A) → map (get_elem? arr) (range 0 (length arr)) ≡ map some arr
map_get_range [] = refl
map_get_range (x ∷ xs) =
    ap (λ ys. some x ∷ ys)
      (map-range_suc (get_elem? (x ∷ xs)) 0 (length xs)
        ∙ rw (fun_ext (get_elem?-add_one x xs)) (map_get_range xs))
