-- ===== src/Cbor/Typing.antt =====
-- services/new/utils/cbor/cbor_to_eip712_converter.ts: the types that convertCBORToEIP712TypedData
-- gives a message without arrays.
use Prim.Native.String.{◌++◌ as cat}
use vsc_node.Prelude.{
  ℕ, ◌≡◌, refl, inl, inr, String, false, List, [], ◌∷◌, ◌++◌, some, All, Bool-cases, Option-cases,
  subst, arith,
}
use vsc_node.Cbor.Values.{Value, Visit, shown_leaf, null}
use vsc_node.Cbor.Decode.{object_names}
use vsc_node.Election.Weights.{includes}
use vsc_node.Cbor.Encode.{tokens_of, IsPlain, leaves}
use vsc_node.Cbor.Roundtrip.{decode-tokens_of}
use vsc_node.Cbor.Types.{
  TypeField, PartialType, Types, join, is_arr_name, push_field, has_field, add_levels, add_partial,
  add_all, types_of, type_map_of, convert, visit, drop_last,
}
use vsc_node.Cbor.Covers.{
  Extends, Extends-refl, Extends-trans, push_field-Extends, has_field-Extends, LeadsTo, IsCovered,
  LeadsTo-Extends, push_field-Declares, push_field-has_field,
}

-- The field of an entry is no element of an array.
abbrev pub IsMember : PartialType → Type 0
IsMember partial = is_arr_name partial.val.name ≡ false

add_levels-LeadsTo :
    (type_map : List PartialType) (val : TypeField) (before after : List String) (types : Types)
    → is_arr_name val.name ≡ false
    → (types' : Types) × ((add_levels type_map val before after types ≡ some types')
        × (Extends types types' × LeadsTo types' before after val))
unfolding add_levels LeadsTo
add_levels-LeadsTo type_map val before [] types member = (
  push_field (join before) val types,
  (refl, (push_field-Extends (join before) val types, push_field-Declares (join before) val types)),
)
add_levels-LeadsTo type_map val before (name ∷ after) types member =
    elim (Bool-cases (has_field (join before) name types)) [
      | inl known ↦
          let (types', (ends, (more, leads))) =
            add_levels-LeadsTo type_map val (before ++ name ∷ []) after types member in
          (
            types',
            (
              rw known ends,
              (more, (has_field-Extends types types' (join before) name more known, leads)),
            ),
          )
      | inr new ↦
          let (types', (ends, (more, leads))) =
            add_levels-LeadsTo type_map val (before ++ name ∷ []) after
              (push_field (join before)
                record { name = some name; kind = cat (join before) (cat "." name) } types)
              member in
          (
            types',
            (
              rw (new, member) ends,
              (
                Extends-trans types
                    (push_field (join before)
                      record { name = some name; kind = cat (join before) (cat "." name) } types)
                    types'
                    (push_field-Extends (join before)
                      record { name = some name; kind = cat (join before) (cat "." name) } types)
                    more,
                (
                  has_field-Extends
                      (push_field (join before)
                        record { name = some name; kind = cat (join before) (cat "." name) } types)
                      types' (join before) name more
                      (push_field-has_field (join before) name (cat (join before) (cat "." name))
                        types),
                  leads,
                ),
              ),
            ),
          )
    ]

add_partial-IsCovered :
    (type_map : List PartialType) (primary : String) (after : List String) (val : TypeField)
    (types : Types)
    → includes primary object_names ≡ false
    → is_arr_name val.name ≡ false
    → (types' : Types) × ((add_partial type_map (primary ∷ after) val types ≡ some types')
        × (Extends types types' × IsCovered types' (primary ∷ after) val))
unfolding add_partial IsCovered
add_partial-IsCovered type_map primary after val types own member =
    rw own (add_levels-LeadsTo type_map val (primary ∷ []) after types member)

-- The type of an entry is the primary one or under it.
abbrev StartsWith : String → PartialType → Type 0
StartsWith primary partial = (after : List String) × (partial.type_name ≡ primary ∷ after)

visit-StartsWith :
    (primary : String) (v : Visit) (partial : PartialType)
    → visit primary v ≡ some partial
    → StartsWith primary partial
unfolding visit
visit-StartsWith primary (path, shown_leaf null) partial h = absurd (ground arith)
visit-StartsWith primary (path, shown) partial h = (drop_last path, cc)

type_map_of-StartsWith :
    (primary : String) (visits : List Visit) (type_map : List PartialType)
    → type_map_of primary visits ≡ some type_map
    → All (StartsWith primary) type_map
unfolding type_map_of
type_map_of-StartsWith primary [] type_map h =
    let same : [] ≡ type_map = ground arith in subst (All (StartsWith primary)) same tt
type_map_of-StartsWith primary (v ∷ visits) type_map h = elim (Option-cases (visit primary v)) [
  | inl refused ↦ absurd (ground arith)
  | inr (partial, shown) ↦ elim (Option-cases (type_map_of primary visits)) [
    | inl refused ↦ absurd (ground arith)
    | inr (later, mapped) ↦
        let same : partial ∷ later ≡ type_map = ground arith in
        subst (All (StartsWith primary)) same (
          visit-StartsWith primary v partial shown,
          type_map_of-StartsWith primary visits later mapped,
        )
  ]
]

IsCovered-Extends :
    (types types' : Types) (type_name : List String) (val : TypeField)
    → Extends types types'
    → IsCovered types type_name val
    → IsCovered types' type_name val
unfolding IsCovered
IsCovered-Extends types types' [] val more h = tt
IsCovered-Extends types types' (first ∷ after) val more h =
    LeadsTo-Extends types types' (first ∷ []) after val more h

abbrev pub AreCovered : Types → List PartialType → Type 0
AreCovered types = All (λ partial. IsCovered types partial.type_name partial.val)

add_all-IsCovered :
    (primary : String) (type_map later : List PartialType) (types : Types)
    → includes primary object_names ≡ false
    → All (StartsWith primary) later
    → All IsMember later
    → (types' : Types) × ((add_all type_map later types ≡ some types')
        × (Extends types types' × AreCovered types' later))
unfolding add_all
add_all-IsCovered primary type_map [] types own starts members =
    (types, (refl, (Extends-refl types, tt)))
add_all-IsCovered primary type_map (partial ∷ later) types own ((after, start), starts)
      (member, members) =
    let (mid, (first, (more, covered))) =
      add_partial-IsCovered type_map primary after partial.val types own member in
    let (types', (second, (most, all))) =
      add_all-IsCovered primary type_map later mid own starts members in
    (
      types',
      (
        rw (start, first) second,
        (
          Extends-trans types mid types' more most,
          (rw start (IsCovered-Extends mid types' (primary ∷ after) partial.val most covered), all),
        ),
      ),
    )

-- The conversion of the tokens of a value, whose objects have each key once and none of them a key
-- that every object has, succeeds when the primary type is no such name either, and the value holds
-- no null, and none of its leaves and empty arrays is an element of an array or has a key which reads
-- as an index, like `[0]`: the message is the value, and its types declare the field of each leaf
-- and empty array under the type of its path, which the types of the shorter paths lead to by
-- fields of its names.
pub convert-IsCovered :
    (decimal : ℕ → String) (domain primary : String) (v : Value) (type_map : List PartialType)
    → IsPlain v
    → includes primary object_names ≡ false
    → type_map_of primary (leaves decimal [] v) ≡ some type_map
    → All IsMember type_map
    → (types : Types) × ((convert decimal domain (tokens_of v) primary
          ≡ some
              record { domain_name = domain; message = v; primary_type = primary; types = types })
        × AreCovered types type_map)
unfolding convert types_of
convert-IsCovered decimal domain primary v type_map plain own mapped members =
    let starts = type_map_of-StartsWith primary (leaves decimal [] v) type_map mapped in
    let (types, (ends, (more, covered))) =
      add_all-IsCovered primary type_map type_map [] own starts members in
    (types, (rw (convert, decode-tokens_of decimal v plain, mapped, ends) refl, covered))
