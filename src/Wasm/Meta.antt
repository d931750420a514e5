-- ===== src/Wasm/Meta.antt =====
-- src/wasm/parser.rs: the metadata of a contract. The key/value pairs are those that the crates
-- `wasmparser` and `stellar-xdr` decode, in the order of the section.
pub mod Last
use Prim.Native.String.{String}
use text.Mathlib.Text.{◌==◌ as str_eq}
use soroban_cost_estimator.Prelude.{
  ℕ, Bool, true, false, ◌||◌, if◌then◌else◌, Option, none, some, List, [], ◌∷◌, ◌++◌,
}
use soroban_cost_estimator.Text.{◌<>◌}
use soroban_cost_estimator.Report.Model.{ContractMeta}

-- The arms of the match on a key.
pub data MetaField : Type 0 where
  name version description author sdk_version other : MetaField

unfoldable pub field_of : String → MetaField
field_of key =
    if str_eq key "name"
    then name
    else if str_eq key "version"
    then version
    else if str_eq key "description" || str_eq key "desc"
    then description
    else if str_eq key "author" || str_eq key "authors"
    then author
    else if str_eq key "rs_sdk_version" || (str_eq key "rssdkver" || str_eq key "sdk_version")
    then sdk_version
    else other

-- `ContractMeta::default()`
abbrev pub empty_meta : ContractMeta
empty_meta = record {
  name = none;
  version = none;
  description = none;
  author = none;
  sdk_version = none;
  entries = [];
}

unfoldable pub set_field : MetaField → String → ContractMeta → ContractMeta
set_field name val meta = record meta { name = some val }
set_field version val meta = record meta { version = some val }
set_field description val meta = record meta { description = some val }
set_field author val meta = record meta { author = some val }
set_field sdk_version val meta = record meta { sdk_version = some val }
set_field other val meta = meta

-- One round of the loop over the decoded entries.
unfoldable pub add_entry : String × String → ContractMeta → ContractMeta
unfolding set_field field_of
add_entry (key, val) meta =
    let next = set_field (field_of key) val meta in
    record next { entries = next.entries ++ (key, val) ∷ [] }

unfoldable pub parse_onto : ContractMeta → List (String × String) → ContractMeta
unfolding add_entry
parse_onto meta [] = meta
parse_onto meta (e ∷ es) = parse_onto (add_entry e meta) es

unfoldable pub parse_contract_meta : List (String × String) → ContractMeta
unfolding parse_onto
parse_contract_meta decoded = parse_onto empty_meta decoded

abbrev pub no_entries : List (String × String) → Bool
no_entries [] = true
no_entries (e ∷ es) = false

unfoldable pub is_empty : ContractMeta → Bool
is_empty meta = no_entries meta.entries

unfoldable pub find_key : String → List (String × String) → Option String
find_key key [] = none
find_key key ((k, v) ∷ es) = let rest = find_key key es in if str_eq k key then some v else rest

unfoldable pub get : String → ContractMeta → Option String
unfolding find_key
get key meta = find_key key meta.entries

unfoldable pub is_recognized_meta_key : String → Bool
is_recognized_meta_key key =
    str_eq key "name"
    || (str_eq key "version"
        || (str_eq key "description"
            || (str_eq key "desc"
                || (str_eq key "author"
                    || (str_eq key "authors"
                        || (str_eq key "rs_sdk_version"
                            || (str_eq key "rssdkver" || str_eq key "sdk_version")))))))

abbrev pub field_line : String → Option String → List String
field_line label none = []
field_line label (some val) = ("  " <> label <> ": " <> val) ∷ []

-- The lines of the keys that have no field.
unfoldable pub other_lines : List (String × String) → List String
unfolding is_recognized_meta_key
other_lines [] = []
other_lines ((key, val) ∷ es) =
    let rest = other_lines es in
    if is_recognized_meta_key key then rest else ("  " <> key <> ": " <> val) ∷ rest

unfoldable pub join_lines : List String → String
join_lines [] = ""
join_lines (l ∷ []) = l
join_lines (l ∷ m ∷ ls) = l <> "\n" <> join_lines (m ∷ ls)

abbrev pub meta_lines : ContractMeta → List String
meta_lines meta =
    "Contract meta: present"
    ∷ (field_line "name" meta.name
        ++ (field_line "version" meta.version
            ++ (field_line "description" meta.description
                ++ (field_line "author" meta.author
                    ++ (field_line "sdk_version" meta.sdk_version ++ other_lines meta.entries)))))

unfoldable pub format_contract_meta : ContractMeta → String
unfolding other_lines join_lines is_empty
format_contract_meta meta =
    if is_empty meta then "Contract meta: absent" else join_lines (meta_lines meta)
