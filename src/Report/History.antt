-- ===== src/Report/History.antt =====
-- src/report/cost_report.rs, `build_history_entries`: earlier runs against the current one.
use Prim.Native.String.{String}
use soroban_cost_estimator.Prelude.{ℕ, if◌then◌else◌, Option, none, some, List, [], ◌∷◌}
use soroban_cost_estimator.Prelude.Int.{ℤ, pos, is_neg, ltb_ℤ, sub_ℕ}
use soroban_cost_estimator.Prelude.Machine.{sat_sub}
use soroban_cost_estimator.Fee.Xlm.{stroops_to_xlm}
use soroban_cost_estimator.Report.Model.{CostTrend, IoFootprint, FootprintDelta, HistoryEntry}

pub record HistoricalRun : Type 0 where
  pub timestamp : String
  pub ledger : ℕ
  pub cpu_instructions : ℕ
  pub total_stroops : ℤ
  pub io : Option IoFootprint

unfoldable pub for_delta : ℤ → CostTrend
for_delta delta_stroops =
    if ltb_ℤ (pos 0) delta_stroops
    then CostTrend.regression
    else if is_neg delta_stroops
    then CostTrend.improvement
    else CostTrend.unchanged

-- The differences of u32 values fit in i64.
unfoldable pub between : Option IoFootprint → Option IoFootprint → Option FootprintDelta
between (some previous) (some current) = some (record {
  read_entries = sub_ℕ previous.read_entries current.read_entries;
  write_entries = sub_ℕ previous.write_entries current.write_entries;
  read_bytes = sub_ℕ previous.read_bytes current.read_bytes;
  write_bytes = sub_ℕ previous.write_bytes current.write_bytes;
})
between none current = none
between (some previous) none = none

unfoldable pub build_history_entries :
    ℤ → ℕ → Option IoFootprint → List HistoricalRun → List HistoryEntry
unfolding for_delta between
build_history_entries current_total_stroops precision current_io [] = []
build_history_entries current_total_stroops precision current_io (run ∷ runs) =
    let delta_stroops = sat_sub run.total_stroops current_total_stroops in
    record {
      timestamp = run.timestamp;
      ledger = run.ledger;
      cpu_instructions = run.cpu_instructions;
      total_stroops = run.total_stroops;
      total_xlm = stroops_to_xlm run.total_stroops precision;
      delta_stroops = delta_stroops;
      trend = for_delta delta_stroops;
      footprint_delta = between run.io current_io;
    }
    ∷ build_history_entries current_total_stroops precision current_io runs
