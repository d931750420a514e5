-- ===== src/Report/Compare.antt =====
-- src/report/diff.rs: the rows that compare two cost reports. The arithmetic and the print of f64
-- are parameters.
use Prim.Native.String.{String}
use soroban_cost_estimator.Prelude.{ℕ, if◌then◌else◌, Option, none, some, List, [], ◌∷◌}
use soroban_cost_estimator.Prelude.Int.{ℤ, pos, is_neg, eq_ℤ, ltb_ℤ, ◌-ℤ◌}
use soroban_cost_estimator.Prelude.Machine.{sat_sub}
use soroban_cost_estimator.Text.{◌<>◌, of_chars, show_ℤ}
use soroban_cost_estimator.Fee.Range.{as_i64}
use soroban_cost_estimator.Report.Model.{CostReport}
use soroban_cost_estimator.Report.Abi.{ContractAbiDiff}

pub data ChangeDirection : Type 0 where
  increase decrease unchanged : ChangeDirection

pub record ReportIdentity : Type 0 where
  pub function : String
  pub network : String
  pub old_wasm_hash : String
  pub new_wasm_hash : String
  pub old_ledger : ℕ
  pub new_ledger : ℕ

pub record DiffRow (F64 : Type 0) : Type 0 where
  pub resource : String
  pub old : ℤ
  pub new : ℤ
  pub delta : ℤ
  pub change_percent : Option F64
  pub direction : ChangeDirection

pub record CostReportDiff (F64 : Type 0) : Type 0 where
  pub identity : ReportIdentity
  pub rows : List (DiffRow F64)
  pub abi_diff : Option ContractAbiDiff

-- What the rows use of f64; `show_percent` prints with a sign and one decimal.
pub record PercentFloats : Type 1 where
  pub F64 : Type 0
  pub zero : F64
  pub hundred : F64
  pub of_i64 : ℤ → F64
  pub div : F64 → F64 → F64
  pub mul : F64 → F64 → F64
  pub show_percent : F64 → String

unfoldable pub direction_of : ℤ → ChangeDirection
direction_of delta =
    if ltb_ℤ (pos 0) delta
    then ChangeDirection.increase
    else if is_neg delta
    then ChangeDirection.decrease
    else ChangeDirection.unchanged

-- `{:+}`
unfoldable pub signed : ℤ → String
signed z = if is_neg z then of_chars (show_ℤ z) else "+" <> of_chars (show_ℤ z)

module _ (floats : PercentFloats) where
  -- The difference in i64 wraps as in a release build.
  unfoldable pub percent_change : ℤ → ℤ → Option floats.F64
  percent_change old new =
      if eq_ℤ old (pos 0)
      then (if eq_ℤ new (pos 0) then some floats.zero else none)
      else some (
          floats.mul (floats.div (floats.of_i64 (as_i64 (new -ℤ old))) (floats.of_i64 old))
            floats.hundred)

  unfoldable pub row : String → ℤ → ℤ → DiffRow floats.F64
  unfolding direction_of percent_change
  row resource old new =
      let delta = sat_sub new old in
      record {
        resource = resource;
        old = old;
        new = new;
        delta = delta;
        change_percent = percent_change old new;
        direction = direction_of delta;
      }

  -- A row of two unsigned values, cast to i64.
  abbrev counts : String → ℕ → ℕ → DiffRow floats.F64
  counts resource old new = row resource (as_i64 (pos old)) (as_i64 (pos new))

  unfoldable pub build_cost_report_diff :
      CostReport floats.F64 → CostReport floats.F64 → CostReportDiff floats.F64
  unfolding row
  build_cost_report_diff old new = record {
    identity = record {
      function = old.function;
      network = old.network;
      old_wasm_hash = old.wasm_hash;
      new_wasm_hash = new.wasm_hash;
      old_ledger = old.ledger;
      new_ledger = new.ledger;
    };
    rows =
        counts "WASM Size" old.wasm_size new.wasm_size
        ∷ counts "CPU Instructions" old.cpu_instructions new.cpu_instructions
        ∷ counts "RAM Bytes" old.memory_bytes new.memory_bytes
        ∷ counts "Read Entries" old.read_entries new.read_entries
        ∷ counts "Write Entries" old.write_entries new.write_entries
        ∷ counts "Read Bytes" old.read_bytes new.read_bytes
        ∷ counts "Write Bytes" old.write_bytes new.write_bytes
        ∷ row "Total Fee" old.fee.total_stroops new.fee.total_stroops
        ∷ [];
    abi_diff = none;
  }

  unfoldable pub build_cost_report_diff_with_abi :
      CostReport floats.F64
      → CostReport floats.F64
      → Option ContractAbiDiff
      → CostReportDiff floats.F64
  unfolding build_cost_report_diff
  build_cost_report_diff_with_abi old new abi_diff =
      let d = build_cost_report_diff old new in
      record { identity = d.identity; rows = d.rows; abi_diff = abi_diff }

  unfoldable pub change_text : DiffRow floats.F64 → String
  unfolding signed
  change_text r = text r.direction r.change_percent
    where
      text : ChangeDirection → Option floats.F64 → String
      text ChangeDirection.unchanged pct = of_chars (show_ℤ r.delta) <> " (0.0%)"
      text _ none = signed r.delta <> " (n/a)"
      text _ (some pct) = signed r.delta <> " (" <> floats.show_percent pct <> "%)"
