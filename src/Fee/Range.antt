-- ===== src/Fee/Range.antt =====
-- src/report/fee_calc.rs, `fee_range`: minimum, maximum and average of the fees of a batch.
pub mod Bounds
use soroban_cost_estimator.Prelude.{
  ℕ, zero, suc, ◌+◌, ◌-◌, ◌*◌, ◌/◌, ◌%◌, ◌^◌, ◌≤◌, ◌<◌, ◌≡◌, refl, ◌⊎◌, arith, Bool, true, false,
  leb, ltb, if◌then◌else◌, List, [], ◌∷◌, length, All, Option, none, some, ap, ◌∙◌, inl, inr, ◌&&◌,
}
use soroban_cost_estimator.Prelude.Int.{
  ℤ, pos, negsuc, pos_part, neg_part, magnitude, leb_ℤ, sub_ℕ, trunc_div, scale, ◌+ℤ◌, ◌≤ℤ◌,
  +ℤ_parts, int_laws, eq_of_parts, one_part,
}
use soroban_cost_estimator.Prelude.Machine.{i64_max, i64_min, InI64, max_ℤ, min_ℤ}

pub record FeeRange : Type 0 where
  pub count : ℕ
  pub min_stroops : ℤ
  pub max_stroops : ℤ
  pub avg_stroops : ℤ

-- The cast `as i64`: two's complement of 64 bits.
unfoldable pub as_i64 : ℤ → ℤ
as_i64 z = signed (residue z)
  where
    residue : ℤ → ℕ
    residue (pos n) = n % 2 ^ 64
    residue (negsuc n) = 2 ^ 64 - 1 - n % 2 ^ 64

    signed : ℕ → ℤ
    signed m = if ltb m (2 ^ 63) then pos m else negsuc (2 ^ 64 - 1 - m)

-- The loop: least and greatest so far, and the sum in i128.
unfoldable pub range_loop : ℤ → ℤ → ℤ → List ℤ → ℤ × ℤ × ℤ
range_loop lo hi sum [] = (lo, hi, sum)
range_loop lo hi sum (fee ∷ fees) = range_loop (min_ℤ lo fee) (max_ℤ hi fee) (sum +ℤ fee) fees

unfoldable pub fee_range : List ℤ → Option FeeRange
fee_range [] = none
fee_range (fee ∷ fees) =
    let (lo, hi, sum) = range_loop i64_max i64_min (pos 0) (fee ∷ fees) in
    let count = length (fee ∷ fees) in
    some (record {
      count = count;
      min_stroops = lo;
      max_stroops = hi;
      avg_stroops = as_i64 (trunc_div sum count);
    })

range_test :
    fee_range (pos 5 ∷ negsuc 3 ∷ pos 7 ∷ [])
    ≡ some (record { count = 3; min_stroops = negsuc 3; max_stroops = pos 7; avg_stroops = pos 2 })
unfolding fee_range range_loop as_i64 trunc_div ◌+ℤ◌
range_test = refl
