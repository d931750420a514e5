-- ===== src/Wasm/Sections.antt =====
-- src/wasm/parser.rs, `SectionSizeBreakdown`: the bytes of a WASM file by section. usize has 64 bits
-- and wraps as in a release build; the percentage in f64 is a parameter.
pub mod Accounted
use Prim.Native.Nat.{Ordering}
use Prim.Native.String
use Prim.Native.String.{String}
use soroban_cost_estimator.Prelude.{
  ℕ, zero, suc, ◌+◌, ◌-◌, ◌%◌, ◌^◌, max, Bool, true, false, ◌&&◌, ◌||◌, ltb, ◌==◌, if◌then◌else◌,
  Option, none, some, List, [], ◌∷◌, ◌++◌,
}
use soroban_cost_estimator.Report.Model.{SectionSize}
use soroban_cost_estimator.Snapshot.Payload.{is_greater}

abbrev pub wasm_module_header_size : ℕ
wasm_module_header_size = 8

abbrev pub module_header_label : String
module_header_label = "module header"

abbrev pub usize : ℕ → ℕ
usize n = n % 18446744073709551616

pub record SectionInfo : Type 0 where
  pub id : ℕ
  pub name : String
  pub custom : Bool
  pub offset : ℕ
  pub end_ : ℕ
  pub size : ℕ
  pub header_size : ℕ

-- `sort_by_key(|s| s.offset)`, which is stable
unfoldable pub insert_offset : SectionInfo → List SectionInfo → List SectionInfo
insert_offset s [] = s ∷ []
insert_offset s (t ∷ ts) =
    let rest = insert_offset s ts in if ltb t.offset s.offset then t ∷ rest else s ∷ t ∷ ts

unfoldable pub by_offset : List SectionInfo → List SectionInfo
unfolding insert_offset
by_offset [] = []
by_offset (s ∷ ss) = insert_offset s (by_offset ss)

module _ (F64 : Type 0) (percent_of : (bytes total_size : ℕ) → F64) where
  pub record SectionSizeBreakdown : Type 0 where
    pub total_size : ℕ
    pub header_size : ℕ
    pub sections : List (SectionSize F64)

  module _ (total_size : ℕ) where
    abbrev pub header_entry : SectionSize F64
    header_entry = record {
      name = module_header_label;
      id = none;
      offset = none;
      end_ = none;
      size = 0;
      header_size = wasm_module_header_size;
      total_size = wasm_module_header_size;
      percent = percent_of wasm_module_header_size total_size;
    }

    abbrev pub section_header : ℕ → SectionInfo → ℕ
    section_header cursor s = max (s.offset - cursor) s.header_size

    abbrev pub section_entry : ℕ → SectionInfo → SectionSize F64
    section_entry cursor s =
        let header_size = section_header cursor s in
        record {
          name = s.name;
          id = some s.id;
          offset = some s.offset;
          end_ = some s.end_;
          size = s.size;
          header_size = header_size;
          total_size = usize (header_size + s.size);
          percent = percent_of (usize (header_size + s.size)) total_size;
        }

    abbrev pub trailing_entry : ℕ → SectionSize F64
    trailing_entry end_ =
        let trailing = total_size - end_ in
        record {
          name = "trailing bytes";
          id = none;
          offset = some end_;
          end_ = some total_size;
          size = trailing;
          header_size = 0;
          total_size = trailing;
          percent = percent_of trailing total_size;
        }

    -- The entries behind a section that ends at the cursor, with the bytes behind the last one.
    unfoldable pub entries_from : ℕ → List SectionInfo → List (SectionSize F64)
    entries_from cursor [] = if ltb cursor total_size then trailing_entry cursor ∷ [] else []
    entries_from cursor (s ∷ ss) = section_entry cursor s ∷ entries_from s.end_ ss

    -- Without a section there is no last one, and no bytes behind it are reported.
    unfoldable pub entries : List SectionInfo → List (SectionSize F64)
    unfolding entries_from
    entries [] = header_entry ∷ []
    entries (s ∷ ss) = header_entry ∷ entries_from wasm_module_header_size (s ∷ ss)

  -- The comparator puts the second in front of the first: it is larger, or as large with a
  -- smaller name.
  abbrev pub goes_behind : SectionSize F64 → SectionSize F64 → Bool
  goes_behind a b =
      ltb a.total_size b.total_size
      || (a.total_size == b.total_size && is_greater (String.compare a.name b.name))

  unfoldable pub insert_entry : SectionSize F64 → List (SectionSize F64) → List (SectionSize F64)
  insert_entry a [] = a ∷ []
  insert_entry a (b ∷ bs) =
      let rest = insert_entry a bs in if goes_behind a b then b ∷ rest else a ∷ b ∷ bs

  unfoldable pub sort_entries : List (SectionSize F64) → List (SectionSize F64)
  unfolding insert_entry
  sort_entries [] = []
  sort_entries (a ∷ rest) = insert_entry a (sort_entries rest)

  unfoldable pub from_sections : List SectionInfo → ℕ → SectionSizeBreakdown
  unfolding by_offset entries sort_entries
  from_sections sections total_size = record {
    total_size = total_size;
    header_size = wasm_module_header_size;
    sections = sort_entries (entries total_size (by_offset sections));
  }

  unfoldable pub sum_from : ℕ → List (SectionSize F64) → ℕ
  sum_from n [] = n
  sum_from n (e ∷ es) = sum_from (usize (n + e.total_size)) es

  unfoldable pub accounted_bytes : SectionSizeBreakdown → ℕ
  unfolding sum_from
  accounted_bytes b = sum_from 0 b.sections

  abbrev pub is_section : Option ℕ → Bool
  is_section none = false
  is_section (some id) = true

  unfoldable pub only_sections : List (SectionSize F64) → List (SectionSize F64)
  only_sections [] = []
  only_sections (e ∷ es) = let rest = only_sections es in if is_section e.id then e ∷ rest else rest

  unfoldable pub section_bytes : SectionSizeBreakdown → ℕ
  unfolding sum_from only_sections
  section_bytes b = sum_from 0 (only_sections b.sections)
