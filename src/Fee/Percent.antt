-- ===== src/Fee/Percent.antt =====
-- src/report/fee_calc.rs, the percentages of `compute_fee_breakdown`: each part of a fee in tenths
-- of a percent of the total, rounded half away from zero, and the correction of the largest part.
-- i128 holds every intermediate value for i64 parts and totals, so that arithmetic is exact here.
pub mod Sum
use soroban_cost_estimator.Prelude.{
  ℕ, zero, suc, ◌+◌, ◌-◌, ◌*◌, ◌/◌, ◌^◌, ◌≤◌, ◌<◌, ◌≡◌, refl, ◌⊎◌, arith, Bool, true, false, ◌&&◌,
  not, leb, if◌then◌else◌, List, [], ◌∷◌, length, All, Option, none, some, ap, ◌∙◌, Bool-cases, inl,
  inr,
}
use soroban_cost_estimator.Prelude.Int.{
  ℤ, pos, negsuc, pos_part, neg_part, magnitude, is_neg, leb_ℤ, ltb_ℤ, eq_ℤ, sub_ℕ, scale,
  trunc_div, ◌+ℤ◌, ◌-ℤ◌, ◌≤ℤ◌, +ℤ_parts, int_laws, eq_of_parts, one_part,
}
use soroban_cost_estimator.Prelude.Machine.{
  i64_max, i64_min, InI64, clamp_i64, sat_add, sat_sub, clamp_i64-eq_self,
}
use soroban_cost_estimator.Fee.Scaled.{in_i64}

-- (num ± total / 2) / total, with the sign of num
unfoldable pub rounded_share : ℕ → ℤ → ℤ
rounded_share total num =
    let half = pos (total / 2) in
    if leb_ℤ (pos 0) num then trunc_div (num +ℤ half) total else trunc_div (num -ℤ half) total

-- The closure that `map` applies to each part.
unfoldable pub permille : ℤ → ℤ → ℤ
unfolding rounded_share
permille total part =
    let rounded = rounded_share (pos_part total) (scale 1000 part) in
    if leb_ℤ total (pos 0)
    then pos 0
    else if in_i64 rounded
    then rounded
    else if ltb_ℤ (pos 0) rounded
    then i64_max
    else i64_min

abbrev pub sum_ℤ : List ℤ → ℤ
sum_ℤ [] = pos 0
sum_ℤ (x ∷ xs) = x +ℤ sum_ℤ xs

unfoldable pub permilles : ℤ → List ℤ → List ℤ
permilles total [] = []
permilles total (p ∷ ps) = permille total p ∷ permilles total ps

-- `enumerate().max_by_key(|&(_, &p)| p)`: of several greatest parts the last. The arguments are the
-- greatest so far with its index, and the index of the next part.
unfoldable pub last_max_from : ℕ → ℤ → ℕ → List ℤ → ℕ
last_max_from best top i [] = best
last_max_from best top i (p ∷ ps) =
    last_max_from (if leb_ℤ top p then i else best) (if leb_ℤ top p then p else top) (i + 1) ps

unfoldable pub last_max : List ℤ → Option ℕ
unfolding last_max_from
last_max [] = none
last_max (p ∷ ps) = some (last_max_from 0 p 1 ps)

-- `permilles[idx] = permilles[idx].saturating_add(diff)`
unfoldable pub add_at : ℕ → ℤ → List ℤ → List ℤ
add_at i diff [] = []
add_at zero diff (x ∷ xs) = sat_add x diff ∷ xs
add_at (suc i) diff (x ∷ xs) = x ∷ add_at i diff xs

abbrev add_at_max : Option ℕ → ℤ → List ℤ → List ℤ
add_at_max none diff shares = shares
add_at_max (some i) diff shares = add_at i diff shares

-- The `if total_stroops > 0` block behind the rounding.
unfoldable pub corrected : ℤ → Option ℕ → List ℤ → List ℤ
corrected total largest shares =
    let diff = sat_sub (pos 1000) (sum_ℤ shares) in
    if ltb_ℤ (pos 0) total && in_i64 (sum_ℤ shares) && not (eq_ℤ diff (pos 0))
    then add_at_max largest diff shares
    else shares

unfoldable pub balanced_permilles : ℤ → List ℤ → List ℤ
unfolding permilles last_max add_at corrected
balanced_permilles total parts = corrected total (last_max parts) (permilles total parts)

thirds :
    balanced_permilles (pos 300) (pos 100 ∷ pos 100 ∷ pos 100 ∷ [])
    ≡ pos 333 ∷ pos 333 ∷ pos 334 ∷ []
unfolding balanced_permilles permille scale trunc_div ◌+ℤ◌ ◌-ℤ◌ sat_sub sat_add clamp_i64
thirds = refl
