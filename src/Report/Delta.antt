-- ===== src/Report/Delta.antt =====
-- src/report/cost_report.rs, `MetricDelta` and `CostDelta`: the change from an earlier estimate.
-- The arithmetic and the print of f64 are those of `PercentFloats`, `show_percent` here without the
-- sign.
use Prim.Native.String.{String}
use soroban_cost_estimator.Prelude.{ℕ, if◌then◌else◌, Option, none, some, List, [], ◌∷◌, ◌++◌}
use soroban_cost_estimator.Prelude.Int.{ℤ, pos, eq_ℤ, ltb_ℤ}
use soroban_cost_estimator.Prelude.Machine.{sat_sub}
use soroban_cost_estimator.Text.{◌<>◌, of_chars, show_ℤ}
use soroban_cost_estimator.Fee.Range.{as_i64}
use soroban_cost_estimator.Report.Model.{CostReport}
use soroban_cost_estimator.Report.Compare.{PercentFloats}

module _ (floats : PercentFloats) where
  pub record MetricDelta : Type 0 where
    pub previous : ℤ
    pub current : ℤ
    pub absolute : ℤ
    pub percent : Option floats.F64

  unfoldable pub metric_delta : ℤ → ℤ → MetricDelta
  metric_delta previous current =
      let absolute = sat_sub current previous in
      record {
        previous = previous;
        current = current;
        absolute = absolute;
        percent =
            if eq_ℤ previous (pos 0)
            then none
            else some (
                floats.mul (floats.div (floats.of_i64 absolute) (floats.of_i64 previous))
                  floats.hundred);
      }

  unfoldable pub format_signed : MetricDelta → String
  format_signed d = text (if ltb_ℤ (pos 0) d.absolute then "+" else "") d.percent
    where
      text : String → Option floats.F64 → String
      text sign none = sign <> of_chars (show_ℤ d.absolute)
      text sign (some pct) =
          sign <> of_chars (show_ℤ d.absolute) <> " (" <> sign <> floats.show_percent pct <> "%)"

  pub record CostDelta : Type 0 where
    pub cpu_instructions : MetricDelta
    pub memory_bytes : MetricDelta
    pub fee_stroops : MetricDelta
    pub read_entries : Option MetricDelta
    pub write_entries : Option MetricDelta

  -- The rows of the ledger entries, where the earlier estimate recorded them.
  abbrev entries_delta : Option (ℕ × ℕ) → ℕ → ℕ → Option MetricDelta × Option MetricDelta
  entries_delta none read write = (none, none)
  entries_delta (some (previous_read, previous_write)) read write = (
    some (metric_delta (pos previous_read) (pos read)),
    some (metric_delta (pos previous_write) (pos write)),
  )

  unfoldable pub compute :
      (previous_cpu previous_memory : ℕ)
      → (previous_fee_stroops : ℤ) → Option (ℕ × ℕ)
      → CostReport floats.F64
      → CostDelta
  unfolding metric_delta
  compute previous_cpu previous_memory previous_fee_stroops previous_io current =
      let (reads, writes) = entries_delta previous_io current.read_entries current.write_entries in
      record {
        cpu_instructions =
            metric_delta (as_i64 (pos previous_cpu)) (as_i64 (pos current.cpu_instructions));
        memory_bytes =
            metric_delta (as_i64 (pos previous_memory)) (as_i64 (pos current.memory_bytes));
        fee_stroops = metric_delta previous_fee_stroops current.fee.total_stroops;
        read_entries = reads;
        write_entries = writes;
      }

  abbrev optional_row : String → Option MetricDelta → List (String × MetricDelta)
  optional_row label none = []
  optional_row label (some d) = (label, d) ∷ []

  unfoldable pub rows : CostDelta → List (String × MetricDelta)
  rows d =
      ("CPU Instructions", d.cpu_instructions)
      ∷ ("Memory Bytes", d.memory_bytes)
      ∷ (optional_row "Read Entries" d.read_entries
          ++ (optional_row "Write Entries" d.write_entries
              ++ ("Fee (stroops)", d.fee_stroops) ∷ []))
