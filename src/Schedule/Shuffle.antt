-- ===== src/Schedule/Shuffle.antt =====
-- The shuffle returns what it was given, in another order.
use mathlib.Core.List.{Perm}
use mathlib.Core.List.Perm
use native.Mathlib.Nat.{div-lt_iff_lt-mul}
use vsc_node.Prelude.{
  map_get_range, All, All-append, subst, length-append, ◌∙◌, length-range, ℕ, zero, suc, ◌+◌, ◌-◌,
  ◌*◌, ◌/◌, ◌<◌, ◌≤◌, ◌≡◌, sym, List, [], ◌∷◌, ◌++◌, map, append_assoc, append-nil, Option, some,
  length, get_elem?, get_elem?-some, erase_idx, range, arith,
}
use vsc_node.Schedule.Plan.{Draw, seed_rand, pick, shuffle_loop, shuffle}

-- A draw is in [0, 1).
abbrev pub IsDraw : Draw → Type 0
IsDraw d = d.num < d.den

-- The drawn index lies between the bounds, both included.
pub seed_rand_bounds :
    (d : Draw) (lo hi : ℕ)
    → IsDraw d
    → lo ≤ hi
    → (lo ≤ seed_rand d lo hi) × (seed_rand d lo hi ≤ hi)
unfolding seed_rand
seed_rand_bounds d lo hi h le =
    let n = hi - lo + 1 in
    let lt : d.num * n < n * d.den = grind arith in
    let drawn : d.num * n / d.den < n =
      (div-lt_iff_lt-mul {k = d.den} {x = d.num * n} {y = n} (omega arith)).1 lt in
    (omega arith, omega arith)

length-erase_idx {ℓ} :
    {A : Type ℓ} (xs : List A) (i : ℕ) → i < length xs → length (erase_idx xs i) + 1 ≡ length xs
length-erase_idx [] i h = elim h [ ]
length-erase_idx (x ∷ xs) zero h = omega arith
length-erase_idx (x ∷ xs) (suc i) h = omega (arith, length-erase_idx xs i)

erase_idx-perm {ℓ} :
    {A : Type ℓ} (xs : List A) (i : ℕ) (x : A)
    → get_elem? xs i ≡ some x
    → Perm (x ∷ erase_idx xs i) xs
erase_idx-perm [] i x h = ground arith
erase_idx-perm (y ∷ xs) zero x h = let e : y ≡ x = ground arith in rw e (Perm.refl (x ∷ xs))
erase_idx-perm (y ∷ xs) (suc i) x h =
    Perm.trans (Perm.swap y x _) (Perm.cons y (erase_idx-perm xs i x h))

picked {ℓ} :
    {A : Type ℓ} (arr : List A) (resp : List (Option A)) (ks : List ℕ) (o : Option ℕ) (g : ℕ)
    → o ≡ some g
    → (resp ++ pick arr o ∷ []) ++ map (get_elem? arr) ks ≡ resp ++ map (get_elem? arr) (g ∷ ks)
picked arr resp ks o g e = rw e (append_assoc resp (get_elem? arr g ∷ []) (map (get_elem? arr) ks))

module _ {ℓ} {A : Type ℓ} (rng : ℕ → Draw) (arr : List A) where
  -- The loop uses up its keys, each once.
  shuffle_loop-perm :
      (n i : ℕ) (keys : List ℕ) (resp : List (Option A))
      → ((k : ℕ) → IsDraw (rng k))
      → length keys ≡ n
      → (ks : List ℕ) × Perm ks keys
        × (shuffle_loop rng arr n i keys resp ≡ resp ++ map (get_elem? arr) ks)
  unfolding shuffle_loop
  shuffle_loop-perm zero i [] resp h e = ([], Perm.refl [], sym (append-nil resp))
  shuffle_loop-perm zero i (k ∷ keys) resp h e = absurd (omega arith)
  shuffle_loop-perm (suc n) i keys resp h e =
      let r = seed_rand (rng i) 0 (length keys - 1) in
      let lt : r < length keys =
        omega (arith, (seed_rand_bounds (rng i) 0 (length keys - 1) (h i) (omega arith)).1) in
      let (g, found) = get_elem?-some keys r lt in
      let (ks, perm, eq) =
        shuffle_loop-perm n (i + 1) (erase_idx keys r) (resp ++ pick arr (get_elem? keys r) ∷ []) h
          (omega (arith, length-erase_idx keys r lt)) in
      (
        g ∷ ks,
        Perm.trans (Perm.cons g perm) (erase_idx-perm keys r g found),
        eq ∙ picked arr resp ks (get_elem? keys r) g found,
      )

-- Whatever numbers in [0, 1) the generator draws, the shuffle returns every element of the array,
-- as often as it stands there, and no undefined one.
pub shuffle-perm {ℓ} :
    {A : Type ℓ} (rng : ℕ → Draw) (arr : List A)
    → ((k : ℕ) → IsDraw (rng k))
    → Perm (shuffle rng arr) (map some arr)
unfolding shuffle
shuffle-perm rng arr h =
    let (ks, perm, eq) =
      shuffle_loop-perm rng arr (length arr) 0 (range 0 (length arr)) [] h
        (length-range 0 (length arr)) in
    rw (eq, ← map_get_range arr) (Perm.map (get_elem? arr) perm)

-- A property of the elements that the keys name holds of all that the loop returns.
module _ {ℓ κ} {A : Type ℓ} (rng : ℕ → Draw) (arr : List A) (Q : Option A → Type κ) where
  get_elem?-All :
      (P : ℕ → Type κ) (keys : List ℕ) (r : ℕ) (g : ℕ)
      → All P keys
      → get_elem? keys r ≡ some g
      → P g
  get_elem?-All P [] r g h e = cc
  get_elem?-All P (k ∷ keys) zero g h e = let e' : k ≡ g = ground arith in subst P e' h.0
  get_elem?-All P (k ∷ keys) (suc r) g h e = get_elem?-All P keys r g h.1 e

  erase_idx-All : (P : ℕ → Type κ) (keys : List ℕ) (r : ℕ) → All P keys → All P (erase_idx keys r)
  erase_idx-All P [] r h = tt
  erase_idx-All P (k ∷ keys) zero h = h.1
  erase_idx-All P (k ∷ keys) (suc r) h = (h.0, erase_idx-All P keys r h.1)

  pub shuffle_loop-All :
      (n i : ℕ) (keys : List ℕ) (resp : List (Option A))
      → ((k : ℕ) → IsDraw (rng k))
      → length keys ≡ n
      → All (λ k. Q (get_elem? arr k)) keys
      → All Q resp
      → All Q (shuffle_loop rng arr n i keys resp)
  unfolding shuffle_loop
  shuffle_loop-All zero i keys resp h e hk hr = hr
  shuffle_loop-All (suc n) i keys resp h e hk hr =
      let r = seed_rand (rng i) 0 (length keys - 1) in
      let lt : r < length keys =
        omega (arith, (seed_rand_bounds (rng i) 0 (length keys - 1) (h i) (omega arith)).1) in
      let (g, found) = get_elem?-some keys r lt in
      shuffle_loop-All n (i + 1) (erase_idx keys r) (resp ++ pick arr (get_elem? keys r) ∷ []) h
        (omega (arith, length-erase_idx keys r lt))
        (erase_idx-All (λ k. Q (get_elem? arr k)) keys r hk)
        (All-append Q resp _ hr (
          subst (λ o. Q (pick arr o)) (sym found)
              (get_elem?-All (λ k. Q (get_elem? arr k)) keys r g hk found),
          tt,
        ))

  range-All :
      (s n : ℕ)
      → s + n ≤ length arr
      → ((k : ℕ) → k < length arr → Q (get_elem? arr k))
      → All (λ k. Q (get_elem? arr k)) (range s n)
  range-All s zero h q = tt
  range-All s (suc n) h q = (q s (omega arith), range-All (s + 1) n (omega arith) q)

  pub shuffle-All :
      ((k : ℕ) → IsDraw (rng k))
      → ((k : ℕ) → k < length arr → Q (get_elem? arr k))
      → All Q (shuffle rng arr)
  unfolding shuffle
  shuffle-All h q =
      shuffle_loop-All (length arr) 0 (range 0 (length arr)) [] h (length-range 0 (length arr))
        (range-All 0 (length arr) (omega arith) q) tt

pub length-shuffle_loop {ℓ} :
    {A : Type ℓ} (rng : ℕ → Draw) (arr : List A) (n i : ℕ) (keys : List ℕ) (resp : List (Option A))
    → length (shuffle_loop rng arr n i keys resp) ≡ length resp + n
unfolding shuffle_loop
length-shuffle_loop rng arr zero i keys resp = omega arith
length-shuffle_loop rng arr (suc n) i keys resp =
    let last = pick arr (get_elem? keys (seed_rand (rng i) 0 (length keys - 1))) ∷ [] in
    omega (
      arith,
      length-shuffle_loop rng arr n (i + 1) (erase_idx keys (seed_rand (rng i) 0 (length keys - 1)))
          (resp ++ last),
      length-append resp last,
    )

pub length-shuffle {ℓ} :
    {A : Type ℓ} (rng : ℕ → Draw) (arr : List A) → length (shuffle rng arr) ≡ length arr
unfolding shuffle
length-shuffle rng arr =
    omega (arith, length-shuffle_loop rng arr (length arr) 0 (range 0 (length arr)) [])
