-- ===== src/Snapshot/Diff/Csv/Read.antt =====
-- The rows of the output of `format_diff_csv` (src/config_snapshot/diff.rs), read by RFC 4180.
use Prim.Native.Char.{Char}
use soroban_cost_estimator.Prelude.{ℕ, zero, suc, Bool, ◌||◌, List, [], ◌∷◌, Option, none, some}
use soroban_cost_estimator.Text.{chars}
use soroban_cost_estimator.Snapshot.Diff.Field.{FieldDiff}
use soroban_cost_estimator.Snapshot.Diff.Csv.{comma, newline, bool_text}
use soroban_cost_estimator.Snapshot.Diff.Csv.Reader.{Reading, cell, bare_return}

abbrev pub Row : Type 0
Row = List Char × List Char × List Char × List Char

-- A row of four fields, and the text behind it.
abbrev fourth : List Char → List Char → List Char → Reading → Option (Row × List Char)
fourth a b c none = none
fourth a b c (some (d, s)) = some ((a, b, c, d), s)

abbrev third : List Char → List Char → Reading → Option (Row × List Char)
third a b none = none
third a b (some (c, s)) = fourth a b c (cell newline s)

abbrev second : List Char → Reading → Option (Row × List Char)
second a none = none
second a (some (b, s)) = third a b (cell comma s)

abbrev first : Reading → Option (Row × List Char)
first none = none
first (some (a, s)) = second a (cell comma s)

unfoldable pub read_row : List Char → Option (Row × List Char)
unfolding cell
read_row s = first (cell comma s)

abbrev in_front : Row → Option (List Row) → Option (List Row)
in_front row none = none
in_front row (some rows) = some (row ∷ rows)

abbrev row_then : (List Char → Option (List Row)) → Option (Row × List Char) → Option (List Row)
row_then rows none = none
row_then rows (some (row, rest)) = in_front row (rows rest)

-- `n` rows, if each of them can be read.
unfoldable pub read_rows : ℕ → List Char → Option (List Row)
unfolding read_row
read_rows zero s = some []
read_rows (suc n) s = row_then (λ rest. read_rows n rest) (read_row s)

-- What a row says of a change.
abbrev pub columns : FieldDiff → Row
columns c =
    (chars c.field_path, chars c.old_value, chars c.new_value, bool_text c.is_pricing_change)

-- A path or a value of the change holds a bare carriage return.
abbrev pub unreadable : FieldDiff → Bool
unreadable c =
    bare_return (chars c.field_path)
    || (bare_return (chars c.old_value) || bare_return (chars c.new_value))

abbrev pub header : Row
header = (chars "field", chars "old_value", chars "new_value", chars "is_pricing_change")
