-- ===== src/Wasm/Meta/Last.antt =====
-- src/wasm/parser.rs: repeated keys in the metadata of a contract.
use Prim.Native.String.{String}
use mathlib.Core.List.{append-nil, append_assoc}
use soroban_cost_estimator.Prelude.{
  ◌≡◌, refl, Bool, true, false, Option, none, some, List, [], ◌∷◌, ◌++◌, arith, sym, ◌∙◌,
  if◌then◌else◌,
}
use soroban_cost_estimator.Report.Model.{ContractMeta}
use soroban_cost_estimator.Wasm.Meta.{
  MetaField, name, version, description, author, sdk_version, other, field_of, set_field, add_entry,
  parse_onto, parse_contract_meta, empty_meta,
}

-- The value of a field.
abbrev pub value_of : MetaField → ContractMeta → Option String
value_of name meta = meta.name
value_of version meta = meta.version
value_of description meta = meta.description
value_of author meta = meta.author
value_of sdk_version meta = meta.sdk_version
value_of other meta = none

abbrev pub same_field : MetaField → MetaField → Bool
same_field name name = true
same_field version version = true
same_field description description = true
same_field author author = true
same_field sdk_version sdk_version = true
same_field _ _ = false

abbrev pub or_else : Option String → Option String → Option String
or_else none v = v
or_else (some w) v = some w

-- The value of the last entry whose key belongs to the field.
abbrev pub last_value : MetaField → List (String × String) → Option String
last_value f [] = none
last_value f ((key, val) ∷ es) =
    or_else (last_value f es) (if same_field f (field_of key) then some val else none)

set_field-value :
    (f g : MetaField) (val : String) (meta : ContractMeta)
    → value_of f (set_field g val meta) ≡ (if same_field f g then some val else value_of f meta)
unfolding set_field
set_field-value name g val meta = ground arith
set_field-value version g val meta = ground arith
set_field-value description g val meta = ground arith
set_field-value author g val meta = ground arith
set_field-value sdk_version g val meta = ground arith
set_field-value other g val meta = ground arith

with_entries :
    (f : MetaField) (meta : ContractMeta) (es : List (String × String))
    → value_of f (record meta { entries = es }) ≡ value_of f meta
with_entries name meta es = refl
with_entries version meta es = refl
with_entries description meta es = refl
with_entries author meta es = refl
with_entries sdk_version meta es = refl
with_entries other meta es = refl

add_entry-value :
    (f : MetaField) (key val : String) (meta : ContractMeta)
    → value_of f (add_entry (key, val) meta)
      ≡ (if same_field f (field_of key) then some val else value_of f meta)
unfolding add_entry
add_entry-value f key val meta =
    rw
      (with_entries f (set_field (field_of key) val meta)
        ((set_field (field_of key) val meta).entries ++ (key, val) ∷ []))
      (set_field-value f (field_of key) val meta)

or_else_assoc :
    (a : Option String) (b : Bool) (val : String) (c : Option String)
    → or_else a (if b then some val else c) ≡ or_else (or_else a (if b then some val else none)) c
or_else_assoc none true val c = refl
or_else_assoc none false val c = refl
or_else_assoc (some w) b val c = refl

parse_onto-value :
    (f : MetaField) (es : List (String × String)) (meta : ContractMeta)
    → value_of f (parse_onto meta es) ≡ or_else (last_value f es) (value_of f meta)
unfolding parse_onto
parse_onto-value f [] meta = refl
parse_onto-value f ((key, val) ∷ es) meta =
    rw (parse_onto-value f es (add_entry (key, val) meta), add_entry-value f key val meta)
      (or_else_assoc (last_value f es) (same_field f (field_of key)) val (value_of f meta))

entries-set_field :
    (g : MetaField) (val : String) (meta : ContractMeta)
    → (set_field g val meta).entries ≡ meta.entries
unfolding set_field
entries-set_field g val meta = ground arith

parse_onto-entries :
    (es : List (String × String)) (meta : ContractMeta)
    → (parse_onto meta es).entries ≡ meta.entries ++ es
unfolding parse_onto add_entry
parse_onto-entries [] meta = sym (append-nil meta.entries)
parse_onto-entries ((key, val) ∷ es) meta =
    rw
      (parse_onto-entries es (add_entry (key, val) meta), entries-set_field (field_of key) val meta)
      (append_assoc meta.entries ((key, val) ∷ []) es)

-- Each field of the metadata holds the value of the last decoded pair whose key belongs to the field,
-- or nothing if there is none, and every decoded pair is kept, in order.
pub parse_contract_meta-last :
    (f : MetaField) (decoded : List (String × String))
    → (value_of f (parse_contract_meta decoded) ≡ last_value f decoded)
      × ((parse_contract_meta decoded).entries ≡ decoded)
unfolding parse_contract_meta
parse_contract_meta-last f decoded = (
  parse_onto-value f decoded empty_meta ∙ or_none f (last_value f decoded),
  parse_onto-entries decoded empty_meta,
)
  where
    or_none : (f : MetaField) (o : Option String) → or_else o (value_of f empty_meta) ≡ o
    or_none name none = refl
    or_none version none = refl
    or_none description none = refl
    or_none author none = refl
    or_none sdk_version none = refl
    or_none other none = refl
    or_none f (some v) = refl
