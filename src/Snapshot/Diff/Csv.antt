-- ===== src/Snapshot/Diff/Csv.antt =====
-- src/config_snapshot/diff.rs, `csv_escape` and `format_diff_csv`. A text is the list of its
-- characters.
pub mod Reader
pub mod Read
use Prim.Native.Char.{Char, code}
use soroban_cost_estimator.Prelude.{
  Bool, true, false, ◌||◌, ◌==◌, ◌++◌, any, List, [], ◌∷◌, ℕ, if◌then◌else◌,
}
use soroban_cost_estimator.Text.{chars}
use soroban_cost_estimator.Snapshot.Diff.Field.{FieldDiff}
use soroban_cost_estimator.Snapshot.Diff.Report.{ConfigDiff}

abbrev pub comma : Char
comma = ","

abbrev pub quote : Char
quote = "\""

abbrev pub newline : Char
newline = "\n"

-- `value.contains(c)`
abbrev pub contains : Char → List Char → Bool
contains c value = any (λ d. code d == code c) value

-- `value.replace('"', "\"\"")`
unfoldable pub doubled : List Char → List Char
doubled [] = []
doubled (c ∷ s) = if code c == code quote then quote ∷ quote ∷ doubled s else c ∷ doubled s

unfoldable pub csv_escape : List Char → List Char
csv_escape value =
    if contains comma value || (contains quote value || contains newline value)
    then quote ∷ (doubled value ++ quote ∷ [])
    else value

abbrev pub bool_text : Bool → List Char
bool_text true = "t" ∷ "r" ∷ "u" ∷ "e" ∷ []
bool_text false = "f" ∷ "a" ∷ "l" ∷ "s" ∷ "e" ∷ []

-- One row, with the rest of the output behind it.
unfoldable pub csv_row : FieldDiff → List Char → List Char
csv_row change rest =
    csv_escape (chars change.field_path)
    ++ comma
      ∷ (csv_escape (chars change.old_value)
          ++ comma
            ∷ (csv_escape (chars change.new_value)
                ++ comma ∷ (bool_text change.is_pricing_change ++ newline ∷ rest)))

unfoldable pub csv_rows : List FieldDiff → List Char
csv_rows [] = []
csv_rows (c ∷ cs) = csv_row c (csv_rows cs)

unfoldable pub csv_header : List Char
csv_header = chars "field,old_value,new_value,is_pricing_change\n"

unfoldable pub format_diff_csv : ConfigDiff → List Char
format_diff_csv diff = csv_header ++ csv_rows diff.changes
