-- ===== src/Cbor/Covers.antt =====
-- services/new/utils/cbor/cbor_to_eip712_converter.ts: the types that are made from a type map
-- declare each of its fields, and each type that leads to it.
use vsc_node.Prelude.{
  ◌≡◌, refl, sym, ap, ◌∙◌, inl, inr, String, true, List, [], ◌∷◌, ◌++◌, append-nil, append_assoc,
  Option, none, some, str_eq, eq_refl, eq_iff, if◌then◌else◌, lookup, lookup-insert, find,
  Bool-cases, Option-cases, arith,
}
use vsc_node.Cbor.Types.{TypeField, Types, join, is_some, push_field, is_named, has_field}

-- Every list of fields is kept, and can be longer.
unfoldable or_empty : Option (List TypeField) → List TypeField
or_empty none = []
or_empty (some fields) = fields

unfoldable pub Extends : Types → Types → Type 0
Extends types types' =
    (type_name : String) (fields : List TypeField)
    → lookup type_name types ≡ some fields
    → (more : List TypeField) × (lookup type_name types' ≡ some (fields ++ more))

unfoldable pub Declares : Types → String → TypeField → Type 0
Declares types type_name f =
    (before after : List TypeField) × (lookup type_name types ≡ some (before ++ f ∷ after))

-- Each type on the way to a field has the next one's name, and the last has the field.
unfoldable pub LeadsTo : Types → List String → List String → TypeField → Type 0
LeadsTo types before [] val = Declares types (join before) val
LeadsTo types before (name ∷ after) val =
    (has_field (join before) name types ≡ true) × LeadsTo types (before ++ name ∷ []) after val

unfoldable pub IsCovered : Types → List String → TypeField → Type 0
IsCovered types [] val = Unit
IsCovered types (first ∷ after) val = LeadsTo types (first ∷ []) after val

pub Extends-refl : (types : Types) → Extends types types
unfolding Extends
Extends-refl types type_name fields found = ([], found ∙ ap some (sym (append-nil fields)))

pub Extends-trans : (a b c : Types) → Extends a b → Extends b c → Extends a c
unfolding Extends
Extends-trans a b c ab bc type_name fields found =
    let (more, first) = ab type_name fields found in
    let (most, second) = bc type_name (fields ++ more) first in
    (more ++ most, second ∙ ap some (append_assoc fields more most))

-- What a push leaves in the list of a type.
push_field-lookup :
    (type_name other : String) (f : TypeField) (types : Types)
    → lookup other (push_field type_name f types) ≡ (
        if str_eq type_name other
        then some (or_empty (lookup type_name types) ++ f ∷ [])
        else lookup other types)
unfolding push_field or_empty
push_field-lookup type_name other f types = elim (Option-cases (lookup type_name types)) [
  | inl absent ↦ rw (absent, push_field) (lookup-insert type_name other (f ∷ []) types)
  | inr (fields, found) ↦
      rw (found, push_field) (lookup-insert type_name other (fields ++ f ∷ []) types)
]

pub push_field-Extends :
    (type_name : String) (f : TypeField) (types : Types)
    → Extends types (push_field type_name f types)
unfolding Extends or_empty
push_field-Extends type_name f types other fields found =
    elim (Bool-cases (str_eq type_name other)) [
      | inl same ↦
          let here : lookup type_name types ≡ some fields =
            ap (λ n. lookup n types) ((eq_iff type_name other).0 same) ∙ found in
          (f ∷ [], rw (push_field-lookup type_name other f types, same, here) refl)
      | inr differs ↦ (
        [],
        rw (push_field-lookup type_name other f types, differs, found)
            (ap some (sym (append-nil fields))),
      )
    ]

find-append :
    (name : String) (fields more : List TypeField)
    → is_some (find (is_named name) fields) ≡ true
    → is_some (find (is_named name) (fields ++ more)) ≡ true
unfolding is_some
find-append name [] more h = ground arith
find-append name (f ∷ fields) more h = elim (Bool-cases (is_named name f)) [
  | inl here ↦ rw here refl
  | inr other ↦ rw other (find-append name fields more (rw other at h))
]

find-last :
    (name : String) (fields : List TypeField) (kind : String)
    → is_some (find (is_named name) (fields ++ record { name = some name; kind = kind } ∷ []))
      ≡ true
unfolding is_some is_named
find-last name [] kind = rw (eq_refl name) refl
find-last name (f ∷ fields) kind = elim (Bool-cases (is_named name f)) [
  | inl here ↦ rw here refl
  | inr other ↦ rw other (find-last name fields kind)
]

pub has_field-Extends :
    (types types' : Types) (type_name name : String)
    → Extends types types'
    → has_field type_name name types ≡ true
    → has_field type_name name types' ≡ true
unfolding has_field Extends
has_field-Extends types types' type_name name more h =
    elim (Option-cases (lookup type_name types)) [
      | inl absent ↦ ground (arith, absent, h)
      | inr (fields, found) ↦
          let (extra, longer) = more type_name fields found in
          rw (longer, has_field) (find-append name fields extra (rw (found, has_field) at h))
    ]

Declares-Extends :
    (types types' : Types) (type_name : String) (f : TypeField)
    → Extends types types'
    → Declares types type_name f
    → Declares types' type_name f
unfolding Declares Extends
Declares-Extends types types' type_name f more (before, after, found) =
    let (extra, longer) = more type_name (before ++ f ∷ after) found in
    (before, after ++ extra, longer ∙ ap some (append_assoc before (f ∷ after) extra))

pub LeadsTo-Extends :
    (types types' : Types) (before after : List String) (val : TypeField)
    → Extends types types'
    → LeadsTo types before after val
    → LeadsTo types' before after val
unfolding LeadsTo
LeadsTo-Extends types types' before [] val more h =
    Declares-Extends types types' (join before) val more h
LeadsTo-Extends types types' before (name ∷ after) val more (h, hs) = (
  has_field-Extends types types' (join before) name more h,
  LeadsTo-Extends types types' (before ++ name ∷ []) after val more hs,
)

pub push_field-Declares :
    (type_name : String) (f : TypeField) (types : Types)
    → Declares (push_field type_name f types) type_name f
unfolding push_field Declares
push_field-Declares type_name f types =
    let found = rw (eq_refl type_name) at (push_field-lookup type_name type_name f types) in
    (or_empty (lookup type_name types), [], found)

pub push_field-has_field :
    (type_name name kind : String) (types : Types)
    → has_field type_name name (push_field type_name record { name = some name; kind = kind } types)
      ≡ true
unfolding has_field
push_field-has_field type_name name kind types =
    rw
      (
        push_field-lookup type_name type_name record { name = some name; kind = kind } types,
        eq_refl type_name,
        has_field,
      )
      (find-last name (or_empty (lookup type_name types)) kind)
