-- ===== src/Report/Root.antt =====
-- src/report/cost_report.rs, `isqrt_u128`.
pub mod Floor
use soroban_cost_estimator.Prelude.{ℕ, zero, suc, ◌+◌, ◌/◌, ltb, if◌then◌else◌}

-- `u128::midpoint` does not overflow.
abbrev pub midpoint : ℕ → ℕ → ℕ
midpoint a b = (a + b) / 2

-- The `while y < x`; each round lowers `x`.
unfoldable pub newton : ℕ → ℕ → ℕ → ℕ → ℕ
newton zero value x y = x
newton (suc fuel) value x y =
    let rest = newton fuel value y (midpoint y (value / y)) in if ltb y x then rest else x

unfoldable pub isqrt_u128 : ℕ → ℕ
unfolding newton
isqrt_u128 value =
    let root = newton value value value (value / 2 + 1) in if ltb value 2 then value else root
