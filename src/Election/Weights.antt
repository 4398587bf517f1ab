-- ===== src/Election/Weights.antt =====
-- The weight of a set of signers, as proposeBlock of services/new/witness/index.ts and
-- btIndexElection of services/new/witness/electionManager.ts add it up.
use vsc_node.Prelude.{
  ℕ, ◌+◌, String, List, [], ◌∷◌, ◌++◌, Option, none, some, Bool, false, get_elem?, if◌then◌else◌,
  str_eq, ◌||◌,
}
use vsc_node.Election.Store.{Member}

-- `keys.includes(key)`
unfoldable pub includes : String → List String → Bool
includes key [] = false
includes key (k ∷ keys) = str_eq k key || includes key keys

-- `aggPubKeys.set(key, true)` on a `Map`
unfoldable pub set_key : String → List String → List String
set_key key agg = if includes key agg then agg else agg ++ key ∷ []

-- The index of the first member with a key.
unfoldable pub index_of : String → List Member → Option ℕ
index_of key [] = none
index_of key (m ∷ members) =
    if str_eq m.key key
    then some 0
    else (elim (index_of key members) [ none ↦ none | some i ↦ some (i + 1) ])

-- What a signer adds to the voted weight: nothing if it is no member; `none` is NaN.
unfoldable pub share : List Member → List ℕ → String → Option ℕ
share members weights key = elim (index_of key members) [
  | none ↦ some 0
  | some i ↦ get_elem? weights i
]

unfoldable pub add_weight : Option ℕ → Option ℕ → Option ℕ
add_weight none b = none
add_weight (some a) none = none
add_weight (some a) (some b) = some (a + b)

unfoldable pub voted_weight : List Member → List ℕ → List String → Option ℕ
voted_weight members weights [] = some 0
voted_weight members weights (key ∷ agg) =
    add_weight (share members weights key) (voted_weight members weights agg)
