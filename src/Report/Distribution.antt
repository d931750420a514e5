-- ===== src/Report/Distribution.antt =====
-- src/report/cost_report.rs, `FeeDistribution`: minimum, maximum, mean, median and standard
-- deviation of a batch. The i128 arithmetic of the squares wraps as in a release build; the sums of
-- the samples, of which there are fewer than 2^63, are exact.
pub mod Deviation
use soroban_cost_estimator.Prelude.{
  ℕ, ◌+◌, ◌-◌, ◌*◌, ◌/◌, ◌%◌, ◌^◌, ◌≡◌, refl, min, max, ltb, ◌==◌, if◌then◌else◌, Option, none,
  some, List, [], ◌∷◌, ◌++◌, length,
}
use soroban_cost_estimator.Prelude.Int.{
  ℤ, pos, negsuc, pos_part, magnitude, leb_ℤ, scale, trunc_div, ◌+ℤ◌, ◌-ℤ◌,
}
use soroban_cost_estimator.Prelude.Machine.{i64_max, i64_min, u64_max, max_ℤ, min_ℤ}
use soroban_cost_estimator.Fee.Range.{as_i64}
use soroban_cost_estimator.Report.Model.{CostReport}
use soroban_cost_estimator.Report.Root.{isqrt_u128}

pub record FeeDistribution : Type 0 where
  pub function_count : ℕ
  pub min_fee_stroops : ℤ
  pub max_fee_stroops : ℤ
  pub mean_fee_stroops : ℤ
  pub median_fee_stroops : ℤ
  pub std_dev_fee_stroops : ℤ
  pub min_cpu_instructions : ℕ
  pub max_cpu_instructions : ℕ
  pub mean_cpu_instructions : ℕ

-- Two's complement of 128 bits.
unfoldable pub wrap_i128 : ℤ → ℤ
wrap_i128 z = signed (residue z)
  where
    residue : ℤ → ℕ
    residue (pos n) = n % 2 ^ 128
    residue (negsuc n) = 2 ^ 128 - 1 - n % 2 ^ 128

    signed : ℕ → ℤ
    signed m = if ltb m (2 ^ 127) then pos m else negsuc (2 ^ 128 - 1 - m)

-- The variables of the loop.
pub record Samples : Type 0 where
  pub min_fee : ℤ
  pub max_fee : ℤ
  pub min_cpu : ℕ
  pub max_cpu : ℕ
  pub sum_fee : ℤ
  pub sum_fee_sq : ℤ
  pub sum_cpu : ℕ
  pub sorted_fees : List ℤ

abbrev pub no_samples : Samples
no_samples = record {
  min_fee = i64_max;
  max_fee = i64_min;
  min_cpu = u64_max;
  max_cpu = 0;
  sum_fee = pos 0;
  sum_fee_sq = pos 0;
  sum_cpu = 0;
  sorted_fees = [];
}

abbrev pub square : ℤ → ℤ
square fee = pos (magnitude fee * magnitude fee)

unfoldable pub add_sample : Samples → ℤ → ℕ → Samples
unfolding wrap_i128
add_sample s fee instructions = record {
  min_fee = min_ℤ s.min_fee fee;
  max_fee = max_ℤ s.max_fee fee;
  min_cpu = min s.min_cpu instructions;
  max_cpu = max s.max_cpu instructions;
  sum_fee = s.sum_fee +ℤ fee;
  sum_fee_sq = wrap_i128 (s.sum_fee_sq +ℤ square fee);
  sum_cpu = s.sum_cpu + instructions;
  sorted_fees = s.sorted_fees ++ (fee ∷ []);
}

-- The loop over `0..count`: it ends with the shorter slice.
unfoldable pub add_samples : Samples → List ℤ → List ℕ → Samples
unfolding add_sample
add_samples s [] cpu = s
add_samples s (fee ∷ fees) [] = s
add_samples s (fee ∷ fees) (instructions ∷ cpu) =
    add_samples (add_sample s fee instructions) fees cpu

-- `sort_unstable` on i64
unfoldable pub insert_fee : ℤ → List ℤ → List ℤ
insert_fee fee [] = fee ∷ []
insert_fee fee (y ∷ ys) = if leb_ℤ fee y then fee ∷ y ∷ ys else y ∷ insert_fee fee ys

unfoldable pub sort_fees : List ℤ → List ℤ
unfolding insert_fee
sort_fees [] = []
sort_fees (fee ∷ fees) = insert_fee fee (sort_fees fees)

-- `sorted_fees[i]`, always in range where it is asked for.
abbrev pub fee_at : ℕ → List ℤ → ℤ
fee_at i [] = pos 0
fee_at i (fee ∷ fees) = if i == 0 then fee else fee_at (i - 1) fees

unfoldable pub median_fee : ℕ → List ℤ → ℤ
median_fee count sorted =
    if count % 2 == 1
    then fee_at (count / 2) sorted
    else as_i64 (trunc_div (fee_at (count / 2 - 1) sorted +ℤ fee_at (count / 2) sorted) 2)

-- The variance's numerator is held at zero.
unfoldable pub variance : ℕ → Samples → ℕ
unfolding wrap_i128
variance n s =
    let squares = wrap_i128 (scale n s.sum_fee_sq) in
    let numerator = wrap_i128 (squares -ℤ wrap_i128 (square s.sum_fee)) in
    pos_part numerator / (n * n)

abbrev pub nothing_counted : FeeDistribution
nothing_counted = record {
  function_count = 0;
  min_fee_stroops = pos 0;
  max_fee_stroops = pos 0;
  mean_fee_stroops = pos 0;
  median_fee_stroops = pos 0;
  std_dev_fee_stroops = pos 0;
  min_cpu_instructions = 0;
  max_cpu_instructions = 0;
  mean_cpu_instructions = 0;
}

unfoldable pub distribution : ℕ → Samples → FeeDistribution
distribution count s = record {
  function_count = count;
  min_fee_stroops = s.min_fee;
  max_fee_stroops = s.max_fee;
  mean_fee_stroops = as_i64 (trunc_div s.sum_fee count);
  median_fee_stroops = median_fee count (sort_fees s.sorted_fees);
  std_dev_fee_stroops = as_i64 (pos (isqrt_u128 (variance count s)));
  min_cpu_instructions = s.min_cpu;
  max_cpu_instructions = s.max_cpu;
  mean_cpu_instructions = s.sum_cpu / count;
}

unfoldable pub from_samples : List ℤ → List ℕ → FeeDistribution
from_samples fees cpu =
    let count = min (length fees) (length cpu) in
    if count == 0 then nothing_counted else distribution count (add_samples no_samples fees cpu)

abbrev pub fees_of : {F64 : Type 0} → List (CostReport F64) → List ℤ
fees_of [] = []
fees_of (r ∷ rs) = r.fee.total_stroops ∷ fees_of rs

abbrev pub cpu_of : {F64 : Type 0} → List (CostReport F64) → List ℕ
cpu_of [] = []
cpu_of (r ∷ rs) = r.cpu_instructions ∷ cpu_of rs

unfoldable pub calculate_distribution_stats :
    {F64 : Type 0} → List (CostReport F64) → FeeDistribution
calculate_distribution_stats reports = from_samples (fees_of reports) (cpu_of reports)

median_test : median_fee 4 (sort_fees (pos 7 ∷ negsuc 0 ∷ pos 3 ∷ pos 6 ∷ [])) ≡ pos 4
unfolding median_fee sort_fees insert_fee as_i64 trunc_div ◌+ℤ◌
median_test = refl
