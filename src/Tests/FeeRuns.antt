-- ===== src/Tests/FeeRuns.antt =====
-- The fee theorems at concrete amounts.
use soroban_cost_estimator.Prelude.{
  ◌*◌, ◌+◌, ◌-◌, ◌^◌, ◌≤◌, ◌<◌, ◌≡◌, refl, ◌⊎◌, arith, true, [], ◌∷◌, ◌++◌, if◌then◌else◌,
}
use soroban_cost_estimator.Prelude.Int.{
  pos, negsuc, pos_part, neg_part, ◌≤ℤ◌, ◌+ℤ◌, ◌-ℤ◌, ltb_ℤ, scale, trunc_div, with_sign,
}
use soroban_cost_estimator.Prelude.Machine.{i64_max, clamp_i64, clamp_i128, sat_add, sat_sub, max_ℤ}
use soroban_cost_estimator.Text.{value_from, is_digit}
use soroban_cost_estimator.Error.{ok}
use soroban_cost_estimator.Fee.Scaled.{scaled_fee, scaled_fee_floor}
use soroban_cost_estimator.Fee.Percent.{sum_ℤ}
use soroban_cost_estimator.Fee.Percent.Sum.{Small}
use soroban_cost_estimator.Fee.Xlm.{stroops_to_xlm, xlm_to_stroops, in_stroops}
use soroban_cost_estimator.Fee.Xlm.RoundTrip.{
  xlm_to_stroops_exact, xlm_to_stroops-stroops_to_xlm, sign_text,
}
use soroban_cost_estimator.Fee.Breakdown.{FeeRates, Usage, compute_fee_breakdown, base_fee}
use soroban_cost_estimator.Fee.Breakdown.Accounts.{
  compute_fee_breakdown_accounts, percentages-sum, IsAmount, IsRates, IsUsage, values, parts,
}
use soroban_cost_estimator.Tests.Fixtures.{sample}

abbrev rates : FeeRates
rates = record {
  fee_per_10k_insns = pos 25;
  fee_per_read_entry = pos 6250;
  fee_per_write_entry = pos 10000;
  fee_per_read_1kb = pos 1786;
  fee_per_1kb = pos 1624;
}

abbrev usage : Usage
usage = record {
  cpu_insns = 1000000;
  read_entries = 3;
  write_entries = 1;
  read_bytes = 2048;
  tx_size = 512;
}

rates-IsRates : IsRates rates
rates-IsRates = record {
  insns = record { nonneg = refl; fits = omega arith };
  read_entry = record { nonneg = refl; fits = omega arith };
  write_entry = record { nonneg = refl; fits = omega arith };
  read_1kb = record { nonneg = refl; fits = omega arith };
  tx_1kb = record { nonneg = refl; fits = omega arith };
}

usage-IsUsage : IsUsage usage
usage-IsUsage = record {
  insns = omega arith;
  reads = omega arith;
  writes = omega arith;
  bytes = omega arith;
  size = omega arith;
}

scaled_fee_floor_example :
    let fee = scaled_fee 15000 (pos 7) 10000 in
    (neg_part fee ≡ 0)
    × (pos_part fee * 10000 ≤ 15000 * 7)
    × ((15000 * 7 < pos_part fee * 10000 + 10000) ⊎ (fee ≡ i64_max))
scaled_fee_floor_example = scaled_fee_floor 15000 7 10000 (omega arith) (omega arith) (omega arith)

xlm_to_stroops_exact_example :
    xlm_to_stroops {x = sample} (sign_text true ++ ("1" ∷ "2" ∷ []) ++ "." ∷ "0" ∷ "5" ∷ [])
    ≡ in_stroops (
        with_sign true
          (value_from 0 ("1" ∷ "2" ∷ []) * 10000000 + value_from 0 ("0" ∷ "5" ∷ []) * 10 ^ 5))
unfolding is_digit
xlm_to_stroops_exact_example =
    xlm_to_stroops_exact {x = sample} true ("1" ∷ "2" ∷ []) ("0" ∷ "5" ∷ []) (λ e. cc) refl
      (omega arith) refl (omega arith)

xlm_to_stroops-stroops_to_xlm_example :
    xlm_to_stroops {x = sample} (stroops_to_xlm (negsuc (2 ^ 63 - 1)) 7) ≡ ok (negsuc (2 ^ 63 - 1))
xlm_to_stroops-stroops_to_xlm_example =
    xlm_to_stroops-stroops_to_xlm {x = sample} (negsuc (2 ^ 63 - 1)) (omega arith, omega arith)

compute_fee_breakdown_accounts_example :
    let b = compute_fee_breakdown (pos 50000) usage rates 7 in
    (b.non_refundable_stroops
      ≡ sat_add (sat_add b.cpu_fee_stroops b.storage_fee_stroops) b.bandwidth_fee_stroops)
    × IsAmount b.cpu_fee_stroops
    × IsAmount b.storage_fee_stroops
    × IsAmount b.bandwidth_fee_stroops
    × (b.refundable_stroops ≡ max_ℤ (pos 50000 -ℤ b.non_refundable_stroops) (pos 0))
    × (b.total_stroops ≡ pos 50000 +ℤ (if ltb_ℤ (pos 0) (pos 50000) then pos 100 else pos 0))
compute_fee_breakdown_accounts_example =
    compute_fee_breakdown_accounts (pos 50000) usage rates 7 (omega arith, omega arith)
      (omega arith) usage-IsUsage rates-IsRates

total-positive : pos 1 ≤ℤ (compute_fee_breakdown (pos 50000) usage rates 7).total_stroops
unfolding compute_fee_breakdown base_fee sat_add clamp_i64 ◌+ℤ◌
total-positive = omega arith

parts-Small : Small (parts (compute_fee_breakdown (pos 50000) usage rates 7))
unfolding compute_fee_breakdown scaled_fee scale trunc_div clamp_i128 base_fee sat_add sat_sub
    clamp_i64 ◌+ℤ◌ ◌-ℤ◌
parts-Small = (omega arith, (omega arith, (omega arith, (omega arith, (omega arith, tt)))))

percentages-sum_example :
    sum_ℤ (values (compute_fee_breakdown (pos 50000) usage rates 7).fee_percentages) ≡ pos 1000
percentages-sum_example = percentages-sum (pos 50000) usage rates 7 total-positive parts-Small
