-- ===== src/Fee/Scaled.antt =====
-- src/report/fee_calc.rs, `scaled_fee`: units * rate / divisor in i128, clamped to i64.
use native.Mathlib.Nat.{
  mul-le-mul, mul-le-mul_right, div-mul-le_self, lt-div-mul-add, le-div_iff_mul-le, le_trans,
}
use soroban_cost_estimator.Prelude.{
  ℕ, ◌+◌, ◌-◌, ◌*◌, ◌/◌, ◌^◌, ◌≤◌, ◌<◌, ◌≡◌, refl, ◌⊎◌, arith, Bool, ◌&&◌, leb, if◌then◌else◌, ap,
  ◌∙◌, min, Bool-cases, inl, inr, tests,
}
use soroban_cost_estimator.Prelude.Int.{
  ℤ, pos, negsuc, pos_part, neg_part, is_neg, leb_ℤ, scale, trunc_div, ◌≤ℤ◌,
}
use soroban_cost_estimator.Prelude.Machine.{
  i64_max, i64_min, u64_max, InI64, clamp_i64, clamp_i128, InI64-clamp_i64,
}

-- `i64::try_from(fee)` succeeds
abbrev pub in_i64 : ℤ → Bool
in_i64 a = leb_ℤ i64_min a && leb_ℤ a i64_max

unfoldable pub scaled_fee : ℕ → ℤ → ℕ → ℤ
scaled_fee units rate divisor =
    let fee = trunc_div (clamp_i128 (scale units rate)) divisor in
    if in_i64 fee then fee else if is_neg fee then i64_min else i64_max

product_fits : (u m : ℕ) → u ≤ u64_max → m ≤ 2 ^ 63 → u * m ≤ (2 ^ 64 - 1) * 2 ^ 63
product_fits u m hu hm = mul-le-mul hu hm

-- The product stays inside i128: `saturating_mul` never saturates.
clamp_i128-scale : (u : ℕ) (r : ℤ) → u ≤ u64_max → InI64 r → clamp_i128 (scale u r) ≡ scale u r
unfolding clamp_i128 scale
clamp_i128-scale u (pos m) hu hr = ground (arith, product_fits u m hu (omega arith))
clamp_i128-scale u (negsuc m) hu hr = ground (arith, product_fits u (m + 1) hu (omega arith))

scaled_fee-clamp :
    (u : ℕ) (r : ℤ) (d : ℕ) → scaled_fee u r d ≡ clamp_i64 (trunc_div (clamp_i128 (scale u r)) d)
unfolding scaled_fee clamp_i64
scaled_fee-clamp u r d = ground arith

-- For every u64 count, i64 rate and positive divisor the fee is the exact quotient, truncated toward zero and clamped
-- to i64: the i128 product never saturates.
pub scaled_fee_exact :
    (units : ℕ) (rate : ℤ) (divisor : ℕ)
    → units ≤ u64_max
    → InI64 rate
    → 0 < divisor
    → scaled_fee units rate divisor ≡ clamp_i64 (trunc_div (scale units rate) divisor)
scaled_fee_exact units rate divisor hu hr hd =
    rw (scaled_fee-clamp, clamp_i128-scale units rate hu hr)

pub div_mono : (a b d : ℕ) → 0 < d → a ≤ b → a / d ≤ b / d
div_mono a b d hd h = (le-div_iff_mul-le hd).1 (le_trans (div-mul-le_self a d) h)

-- The exact quotient of a rate that is not negative.
quotient_pos : (u m d : ℕ) → trunc_div (scale u (pos m)) d ≡ pos (u * m / d)
unfolding trunc_div scale
quotient_pos u m d = ground arith

clamp_i64-pos : (q : ℕ) → clamp_i64 (pos q) ≡ pos (min q (2 ^ 63 - 1))
unfolding clamp_i64
clamp_i64-pos q = ground arith

fee_of_quotient :
    (u m d : ℕ)
    → u ≤ u64_max
    → m < 2 ^ 63
    → 0 < d
    → scaled_fee u (pos m) d ≡ pos (min (u * m / d) (2 ^ 63 - 1))
fee_of_quotient u m d hu hm hd =
    scaled_fee_exact u (pos m) d hu (omega arith) hd
    ∙ ap clamp_i64 (quotient_pos u m d)
    ∙ clamp_i64-pos (u * m / d)

capped_floor :
    (a d cap : ℕ)
    → 0 < d
    → (min (a / d) cap * d ≤ a) × ((a < min (a / d) cap * d + d) ⊎ (min (a / d) cap ≡ cap))
capped_floor a d cap hd = elim (Bool-cases (leb (a / d) cap)) [
  | inl h ↦
      let e : min (a / d) cap ≡ a / d = omega tests in
      rw e (div-mul-le_self a d, inl (lt-div-mul-add hd))
  | inr h ↦
      let e : min (a / d) cap ≡ cap = ground arith in
      rw e (le_trans (mul-le-mul_right d (ground arith)) (div-mul-le_self a d), inr refl)
]

-- A rate that is not negative gives a fee that is not negative, never above the exact
-- units * rate / divisor, and less than one stroop below it unless the fee is `i64::MAX`.
pub scaled_fee_floor :
    (units rate divisor : ℕ)
    → units ≤ u64_max
    → rate < 2 ^ 63
    → 0 < divisor
    → let fee = scaled_fee units (pos rate) divisor in
      (neg_part fee ≡ 0)
      × (pos_part fee * divisor ≤ units * rate)
      × ((units * rate < pos_part fee * divisor + divisor) ⊎ (fee ≡ i64_max))
scaled_fee_floor units rate divisor hu hr hd =
    let (below, near) = capped_floor (units * rate) divisor (2 ^ 63 - 1) hd in
    rw (fee_of_quotient units rate divisor hu hr hd)
      (refl, below, elim near [ inl h ↦ inl h | inr e ↦ inr (ap pos e) ])

-- More units never cost less, at a rate that is not negative.
pub scaled_fee_mono :
    (units units' rate divisor : ℕ)
    → units ≤ units'
    → units' ≤ u64_max
    → rate < 2 ^ 63
    → 0 < divisor
    → scaled_fee units (pos rate) divisor ≤ℤ scaled_fee units' (pos rate) divisor
scaled_fee_mono units units' rate divisor h hu hr hd = omega (
  arith,
  ap pos_part (fee_of_quotient units rate divisor (omega arith) hr hd),
  ap neg_part (fee_of_quotient units rate divisor (omega arith) hr hd),
  ap pos_part (fee_of_quotient units' rate divisor hu hr hd),
  ap neg_part (fee_of_quotient units' rate divisor hu hr hd),
  div_mono (units * rate) (units' * rate) divisor hd (mul-le-mul_right rate h),
)

-- Whatever the arguments, the fee is an i64.
pub InI64-scaled_fee : (u : ℕ) (r : ℤ) (d : ℕ) → InI64 (scaled_fee u r d)
InI64-scaled_fee u r d =
    rw scaled_fee-clamp (InI64-clamp_i64 (trunc_div (clamp_i128 (scale u r)) d))
