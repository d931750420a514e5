-- ===== src/Tests/ReportRuns.antt =====
-- The theorems on cost reports, at concrete reports.
use Prim.Native.String.{String}
use soroban_cost_estimator.Prelude.{ℕ, ◌≡◌, ◌↔◌, refl, arith, true, none, some, [], ◌∷◌, All}
use soroban_cost_estimator.Prelude.Int.{ℤ, pos, trunc_div, ◌+ℤ◌}
use soroban_cost_estimator.Text.{chars, split}
use soroban_cost_estimator.Text.Parse.{trim}
use soroban_cost_estimator.Error.{ok}
use soroban_cost_estimator.Wasm.{FunctionInfo}
use soroban_cost_estimator.Report.Model.{CostReport}
use soroban_cost_estimator.Report.Root.{isqrt_u128}
use soroban_cost_estimator.Report.Root.Floor.{IsRoot}
use soroban_cost_estimator.Report.Limits.{NetworkConfig, check_resource_limits_raw}
use soroban_cost_estimator.Report.Limits.Threshold.{Warned, check_resource_limits_raw-Warned}
use soroban_cost_estimator.Report.Projection.{
  UsdFloats, parse_projection_counts, calculate_projections,
}
use soroban_cost_estimator.Report.Projection.Parsed.{
  Spells, InRange, Distinct, parse_projection_counts_iff,
}
use soroban_cost_estimator.Report.Projection.Exact.{Outcome, calculate_projections-Outcome}
use soroban_cost_estimator.Report.Summary.{EstimateAllSummary, summarize_estimate_all}
use soroban_cost_estimator.Report.Summary.Totals.{Summarizes, summarize_estimate_all-Summarizes}
use soroban_cost_estimator.Report.Distribution.{from_samples}
use soroban_cost_estimator.Report.Distribution.Deviation.{
  paired, exact_variance, from_samples-IsRoot,
}
use soroban_cost_estimator.Report.Abi.{is_empty, compare_contract_abi}
use soroban_cost_estimator.Report.Abi.Names.{last_named}
use soroban_cost_estimator.Report.Abi.Unchanged.{SameFunction, compare_contract_abi-is_empty_iff}
use soroban_cost_estimator.Tests.Fixtures.{sample}

two_test : isqrt_u128 2 ≡ 2
unfolding isqrt_u128
two_test = refl

abbrev limits : NetworkConfig
limits = record {
  tx_max_instructions = some 100;
  tx_max_read_entries = some 0;
  tx_max_write_entries = none;
  tx_max_read_bytes = some 50;
  tx_max_write_bytes = some 1000;
  tx_max_size = some 10;
}

check_resource_limits_raw-Warned_example :
    Warned
      (("cpu_instructions", "CPU instructions", 90, some 100)
        ∷ ("read_entries", "Ledger read entries", 3, some 0)
        ∷ ("write_entries", "Ledger write entries", 4, none)
        ∷ ("read_bytes", "Ledger read bytes", 40, some 50)
        ∷ ("write_bytes", "Ledger write bytes", 40, some 1000)
        ∷ ("tx_size", "Transaction size", 70, some 10)
        ∷ [])
      (check_resource_limits_raw 90 3 4 40 40 70 limits)
check_resource_limits_raw-Warned_example =
    check_resource_limits_raw-Warned 90 3 4 40 40 70 limits (omega arith) (omega arith)
      (omega arith) (omega arith) (omega arith) (omega arith)

parse_projection_counts_iff_example :
    (parse_projection_counts {x = sample} (chars "1, 20,300") ≡ ok (1 ∷ 20 ∷ 300 ∷ [])) ↔ (
      Spells (split b',' (trim (chars "1, 20,300"))) (1 ∷ 20 ∷ 300 ∷ [])
      × All InRange (1 ∷ 20 ∷ 300 ∷ [])
      × Distinct (1 ∷ 20 ∷ 300 ∷ []))
parse_projection_counts_iff_example =
    parse_projection_counts_iff sample (chars "1, 20,300") (1 ∷ 20 ∷ 300 ∷ [])

-- Amounts in place of f64.
abbrev amounts : UsdFloats
amounts = record {
  F64 = ℤ;
  of_i64 = λ z. z;
  div = λ a b. a;
  mul = λ a b. b;
  stroops_per_xlm = pos 10000000;
}

calculate_projections-Outcome_example :
    Outcome
      (pos 5000)
      (10 ∷ 1000 ∷ [])
      (calculate_projections {x = sample} amounts (pos 5000) (10 ∷ 1000 ∷ []) 7 none)
calculate_projections-Outcome_example =
    calculate_projections-Outcome sample amounts (pos 5000) 7 none (10 ∷ 1000 ∷ [])

from_samples-IsRoot_example :
    (r : ℕ) × ((from_samples (pos 10 ∷ pos 30 ∷ []) (7 ∷ 8 ∷ [])).std_dev_fee_stroops ≡ pos r)
    × IsRoot (exact_variance (paired (pos 10 ∷ pos 30 ∷ []) (7 ∷ 8 ∷ []))) r
unfolding trunc_div ◌+ℤ◌
from_samples-IsRoot_example =
    from_samples-IsRoot 30 (pos 10 ∷ pos 30 ∷ []) (7 ∷ 8 ∷ []) (omega arith)
      (omega arith, (omega arith, tt)) (omega arith) (omega arith)

abbrev report : ℤ → ℕ → CostReport ℕ
report fee cpu = record {
  function = "transfer";
  wasm_hash = "9f";
  wasm_size = 4000;
  wasm_sections = [];
  cpu_instructions = cpu;
  memory_bytes = 900;
  tx_size = 300;
  read_entries = 2;
  write_entries = 1;
  read_bytes = 128;
  write_bytes = 64;
  fee = record {
    non_refundable_stroops = pos 0;
    refundable_stroops = pos 0;
    cpu_fee_stroops = fee;
    storage_fee_stroops = pos 0;
    bandwidth_fee_stroops = pos 0;
    base_fee_stroops = pos 0;
    total_stroops = fee;
    total_xlm = chars "0.0005";
    fee_percentages = [];
  };
  ledger = 100;
  network = "testnet";
  simulation_duration_ms = 12;
  rpc_endpoint = "https://rpc";
  rpc_role = "primary";
  rates = none;
  warnings = [];
  history = none;
  projections = none;
  contract_meta = record {
    name = none;
    version = none;
    description = none;
    author = none;
    sdk_version = none;
    entries = [];
  };
  diagnostics = none;
}

summarize_estimate_all-Summarizes_example :
    (s : EstimateAllSummary) × (summarize_estimate_all
        (report (pos 5000) 70 ∷ report (pos 9000) 20 ∷ [])
        7
      ≡ some s)
    × Summarizes (report (pos 5000) 70 ∷ report (pos 9000) 20 ∷ []) s
summarize_estimate_all-Summarizes_example =
    summarize_estimate_all-Summarizes (report (pos 5000) 70) (report (pos 9000) 20 ∷ []) 7
      (omega arith, omega arith)

abbrev function_taking : String → FunctionInfo ℕ
function_taking type_name = record {
  name = "increment";
  param_count = 1;
  result_count = 0;
  params = record { name = "step"; type_name = type_name; type_def = 0 } ∷ [];
  returns = [];
}

compare_contract_abi-is_empty_iff_example :
    (is_empty (compare_contract_abi (function_taking "i64" ∷ []) (function_taking "u32" ∷ []))
      ≡ true)
    ↔ ((name : String)
        → SameFunction
            (last_named name (function_taking "i64" ∷ []))
            (last_named name (function_taking "u32" ∷ [])))
compare_contract_abi-is_empty_iff_example =
    compare_contract_abi-is_empty_iff (function_taking "i64" ∷ []) (function_taking "u32" ∷ [])

abbrev priced : CostReport ℕ
priced = record (report (pos 5000) 70) {
  rates = some (record {
    fee_per_10k_insns = pos 25;
    fee_per_read_entry = pos 6250;
    fee_per_write_entry = pos 10000;
    fee_per_read_1kb = pos 0;
    fee_per_1kb = pos 1624;
  });
}
