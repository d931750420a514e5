-- ===== src/Report/Sensitivity.antt =====
-- src/report/cost_report.rs, `pricing_sensitivity_report`: one fee against saved snapshots.
use Prim.Native.String.{String}
use soroban_cost_estimator.Prelude.{
  ◌≡◌, refl, Bool, true, false, ◌||◌, if◌then◌else◌, Option, none, some, List, [], ◌∷◌,
}
use soroban_cost_estimator.Prelude.Int.{ℤ, pos, pos_part, ltb_ℤ, scale, trunc_div}
use soroban_cost_estimator.Prelude.Machine.{clamp_i64}
use soroban_cost_estimator.Text.{◌<>◌}
use soroban_cost_estimator.Snapshot.Model.{ConfigSnapshot, ContractComputeV0}

pub record PricingSensitivityReport : Type 0 where
  pub snapshot_fees : List (String × ℤ)
  pub has_missing_rates : Bool

-- The rate of a snapshot, 0 without a compute section, and whether the section is missing.
abbrev pub compute_rate : Option ContractComputeV0 → ℤ × Bool
compute_rate none = (pos 0, true)
compute_rate (some compute) = (compute.fee_rate_per_instructions_increment, false)

-- `saturating_mul` by a positive rate, and the division.
unfoldable pub repriced : ℤ → ℤ → ℤ
repriced footprint_fee_stroops rate =
    if ltb_ℤ (pos 0) rate
    then trunc_div (clamp_i64 (scale (pos_part rate) footprint_fee_stroops)) 1000000000
    else footprint_fee_stroops

unfoldable pub pricing_sensitivity_report : ℤ → List ConfigSnapshot → PricingSensitivityReport
unfolding repriced
pricing_sensitivity_report footprint_fee_stroops [] = record {
  snapshot_fees = [];
  has_missing_rates = false;
}
pricing_sensitivity_report footprint_fee_stroops (snapshot ∷ snapshots) =
    let rest = pricing_sensitivity_report footprint_fee_stroops snapshots in
    let (rate, missing) = compute_rate snapshot.contract_compute in
    record {
      snapshot_fees =
          (snapshot.network <> "-" <> snapshot.timestamp, repriced footprint_fee_stroops rate)
          ∷ rest.snapshot_fees;
      has_missing_rates = missing || rest.has_missing_rates;
    }

-- The rates of the function's own example price its fee at nothing, and a missing rate at the full fee.
example_fee : repriced (pos 1500000) (pos 100) ≡ pos 0
unfolding repriced trunc_div clamp_i64 scale
example_fee = refl

missing_rate : repriced (pos 1500000) (pos 0) ≡ pos 1500000
unfolding repriced
missing_rate = refl
