-- ===== src/Report/Limits.antt =====
-- src/report/cost_report.rs, `NetworkConfig`, `check_resource_limits` and
-- `format_resource_warnings`: warnings near a protocol limit.
pub mod Threshold
use Prim.Native.String.{String}
use soroban_cost_estimator.Prelude.{
  ℕ, ◌*◌, ◌/◌, ◌^◌, ◌-◌, Bool, ltb, leb, ◌==◌, min, if◌then◌else◌, Option, none, some, List, [],
  ◌∷◌, ◌++◌,
}
use soroban_cost_estimator.Prelude.Int.{ℤ, pos, negsuc}
use soroban_cost_estimator.Prelude.Machine.{u64_max}
use soroban_cost_estimator.Text.{◌<>◌, of_chars, show}
use soroban_cost_estimator.Snapshot.Model.{
  ConfigSnapshot, ContractComputeV0, ContractLedgerCostV0, ContractBandwidthV0,
}
use soroban_cost_estimator.Report.Model.{CostReport, ResourceWarning}

abbrev pub resource_warning_threshold_percent : ℕ
resource_warning_threshold_percent = 80

pub record NetworkConfig : Type 0 where
  pub tx_max_instructions : Option ℕ
  pub tx_max_read_entries : Option ℕ
  pub tx_max_write_entries : Option ℕ
  pub tx_max_read_bytes : Option ℕ
  pub tx_max_write_bytes : Option ℕ
  pub tx_max_size : Option ℕ

-- `positive_u32` and `positive_u64`
unfoldable pub positive_u32 : ℕ → Option ℕ
positive_u32 value = if ltb 0 value then some value else none

unfoldable pub positive_u64 : ℤ → Option ℕ
unfolding positive_u32
positive_u64 (pos value) = positive_u32 value
positive_u64 (negsuc n) = none

-- A limit of a section, `none` if the section is absent.
abbrev limit_of : {S : Type 0} → Option S → (S → Option ℕ) → Option ℕ
limit_of none f = none
limit_of (some s) f = f s

unfoldable pub from_snapshot : ConfigSnapshot → NetworkConfig
unfolding positive_u32 positive_u64
from_snapshot s = record {
  tx_max_instructions = limit_of s.contract_compute (λ c. positive_u64 c.tx_max_instructions);
  tx_max_read_entries =
      limit_of s.contract_ledger_cost (λ c. positive_u32 c.tx_max_disk_read_entries);
  tx_max_write_entries =
      limit_of s.contract_ledger_cost (λ c. positive_u32 c.tx_max_write_ledger_entries);
  tx_max_read_bytes = limit_of s.contract_ledger_cost (λ c. positive_u32 c.tx_max_disk_read_bytes);
  tx_max_write_bytes = limit_of s.contract_ledger_cost (λ c. positive_u32 c.tx_max_write_bytes);
  tx_max_size = limit_of s.contract_bandwidth (λ c. positive_u32 c.tx_max_size_bytes);
}

-- `u64::saturating_mul`
abbrev pub sat_mul_u64 : ℕ → ℕ → ℕ
sat_mul_u64 a b = min (a * b) u64_max

abbrev pub u32_max : ℕ
u32_max = 2 ^ 32 - 1

pub warning_message : String → ℕ → ℕ → ℕ → String
warning_message label percent used limit =
    label
    <> " at "
    <> of_chars (show percent)
    <> "% of the network limit ("
    <> of_chars (show used)
    <> " of "
    <> of_chars (show limit)
    <> ")"

-- What `push_resource_warning` appends.
unfoldable pub push_resource_warning : String → String → ℕ → Option ℕ → List ResourceWarning
push_resource_warning resource label used none = []
push_resource_warning resource label used (some limit) =
    if limit == 0
    then []
    else if ltb (sat_mul_u64 used 100) (sat_mul_u64 limit resource_warning_threshold_percent)
    then []
    else (let percent = min (sat_mul_u64 used 100 / limit) u32_max in
        record {
          resource = resource;
          label = label;
          used = used;
          limit = limit;
          percent = percent;
          message = warning_message label percent used limit;
        }
        ∷ [])

unfoldable pub check_resource_limits_raw :
    (cpu_instructions read_entries write_entries read_bytes write_bytes tx_size : ℕ)
    → NetworkConfig
    → List ResourceWarning
check_resource_limits_raw cpu_instructions read_entries write_entries read_bytes write_bytes tx_size
      config =
    push_resource_warning "cpu_instructions" "CPU instructions" cpu_instructions
      config.tx_max_instructions
    ++ (push_resource_warning "read_entries" "Ledger read entries" read_entries
          config.tx_max_read_entries
        ++ (push_resource_warning "write_entries" "Ledger write entries" write_entries
              config.tx_max_write_entries
            ++ (push_resource_warning "read_bytes" "Ledger read bytes" read_bytes
                  config.tx_max_read_bytes
                ++ (push_resource_warning "write_bytes" "Ledger write bytes" write_bytes
                      config.tx_max_write_bytes
                    ++ push_resource_warning "tx_size" "Transaction size" tx_size
                        config.tx_max_size))))

unfoldable pub check_resource_limits :
    {F64 : Type 0} → CostReport F64 → NetworkConfig → List ResourceWarning
check_resource_limits report config =
    check_resource_limits_raw report.cpu_instructions report.read_entries report.write_entries
      report.read_bytes report.write_bytes report.tx_size config

warning_lines : List ResourceWarning → String
warning_lines [] = ""
warning_lines (w ∷ ws) = "  - " <> w.message <> "\n" <> warning_lines ws

unfoldable pub format_resource_warnings : List ResourceWarning → String
unfolding warning_lines
format_resource_warnings [] = ""
format_resource_warnings (w ∷ ws) = "\nResource limit warnings:\n" <> warning_lines (w ∷ ws)
