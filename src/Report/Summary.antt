-- ===== src/Report/Summary.antt =====
-- src/report/cost_report.rs, `summarize_estimate_all`: the totals of an `estimate-all` batch. The
-- sums in i128 and u128 are exact, since a batch has fewer than 2^63 reports; the sums in u64 wrap
-- as in a release build.
pub mod Totals
use Prim.Native.Char.{Char}
use soroban_cost_estimator.Prelude.{
  ℕ, ◌+◌, ◌%◌, ◌^◌, ◌≡◌, refl, min, max, Option, none, some, List, [], ◌∷◌, length,
}
use soroban_cost_estimator.Prelude.Int.{ℤ, pos, trunc_div, ◌+ℤ◌}
use soroban_cost_estimator.Prelude.Machine.{max_ℤ, min_ℤ}
use soroban_cost_estimator.Fee.Range.{as_i64}
use soroban_cost_estimator.Fee.Xlm.{stroops_to_xlm}
use soroban_cost_estimator.Report.Model.{CostReport}

pub record EstimateAllSummary : Type 0 where
  pub functions_evaluated : ℕ
  pub min_fee_stroops : ℤ
  pub max_fee_stroops : ℤ
  pub avg_fee_stroops : ℤ
  pub total_fee_stroops : ℤ
  pub min_cpu_instructions : ℕ
  pub max_cpu_instructions : ℕ
  pub total_cpu_instructions : ℕ
  pub total_write_entries : ℕ
  pub total_read_entries : ℕ
  pub min_total_xlm : List Char
  pub max_total_xlm : List Char
  pub avg_total_xlm : List Char

-- The variables of the loop.
pub record BatchTotals : Type 0 where
  pub min_fee : ℤ
  pub max_fee : ℤ
  pub min_cpu : ℕ
  pub max_cpu : ℕ
  pub total_fee : ℤ
  pub total_cpu : ℕ
  pub total_writes : ℕ
  pub total_reads : ℕ

abbrev pub add_u64 : ℕ → ℕ → ℕ
add_u64 a b = (a + b) % 2 ^ 64

module _ {F64 : Type 0} where
  unfoldable pub add_report : BatchTotals → CostReport F64 → BatchTotals
  add_report t report = record {
    min_fee = min_ℤ t.min_fee report.fee.total_stroops;
    max_fee = max_ℤ t.max_fee report.fee.total_stroops;
    min_cpu = min t.min_cpu report.cpu_instructions;
    max_cpu = max t.max_cpu report.cpu_instructions;
    total_fee = t.total_fee +ℤ report.fee.total_stroops;
    total_cpu = t.total_cpu + report.cpu_instructions;
    total_writes = add_u64 t.total_writes report.write_entries;
    total_reads = add_u64 t.total_reads report.read_entries;
  }

  unfoldable pub add_reports : BatchTotals → List (CostReport F64) → BatchTotals
  unfolding add_report
  add_reports t [] = t
  add_reports t (report ∷ reports) = add_reports (add_report t report) reports

  abbrev pub start : CostReport F64 → BatchTotals
  start first = record {
    min_fee = first.fee.total_stroops;
    max_fee = first.fee.total_stroops;
    min_cpu = first.cpu_instructions;
    max_cpu = first.cpu_instructions;
    total_fee = pos 0;
    total_cpu = 0;
    total_writes = 0;
    total_reads = 0;
  }

  unfoldable pub summarize_estimate_all : List (CostReport F64) → ℕ → Option EstimateAllSummary
  unfolding add_reports
  summarize_estimate_all [] precision = none
  summarize_estimate_all (first ∷ rest) precision =
      let t = add_reports (start first) (first ∷ rest) in
      let count = length (first ∷ rest) in
      let avg_fee = as_i64 (trunc_div t.total_fee count) in
      some (record {
        functions_evaluated = count;
        min_fee_stroops = t.min_fee;
        max_fee_stroops = t.max_fee;
        avg_fee_stroops = avg_fee;
        total_fee_stroops = as_i64 t.total_fee;
        min_cpu_instructions = t.min_cpu;
        max_cpu_instructions = t.max_cpu;
        total_cpu_instructions = t.total_cpu % 2 ^ 64;
        total_write_entries = t.total_writes;
        total_read_entries = t.total_reads;
        min_total_xlm = stroops_to_xlm t.min_fee precision;
        max_total_xlm = stroops_to_xlm t.max_fee precision;
        avg_total_xlm = stroops_to_xlm avg_fee precision;
      })
