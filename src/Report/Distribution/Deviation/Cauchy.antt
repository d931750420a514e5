-- ===== src/Report/Distribution/Deviation/Cauchy.antt =====
-- src/report/cost_report.rs, `FeeDistribution::from_samples`: the squares of a sample.
use native.Mathlib.Nat.{mul-le-mul}
use soroban_cost_estimator.Prelude.{
  ℕ, ◌+◌, ◌-◌, ◌*◌, ◌≤◌, ◌≡◌, ◌⊎◌, inl, inr, List, [], ◌∷◌, length, arith,
}
use soroban_cost_estimator.Prelude.Int.{ℤ, magnitude, ◌+ℤ◌, +ℤ_parts, one_part}
use soroban_cost_estimator.Fee.Percent.{sum_ℤ}

-- The sums of the magnitudes and of the squares.
abbrev sum_abs : List ℤ → ℕ
sum_abs [] = 0
sum_abs (y ∷ ys) = magnitude y + sum_abs ys

abbrev pub sum_sq : List ℤ → ℕ
sum_sq [] = 0
sum_sq (y ∷ ys) = magnitude y * magnitude y + sum_sq ys

two_squares_at : (a d : ℕ) → 2 * (a * (a + d)) ≤ a * a + (a + d) * (a + d)
two_squares_at a d = omega arith

split_le : (a b : ℕ) → (b ≡ a + (b - a)) ⊎ (a ≡ b + (a - b))
split_le a b = ground arith

two_squares_by : (a b d : ℕ) → b ≡ a + d → 2 * (a * b) ≤ a * a + b * b
two_squares_by a b d e = rw e (two_squares_at a d)

two_squares : (a b : ℕ) → 2 * (a * b) ≤ a * a + b * b
two_squares a b = elim (split_le a b) [
  | inl e ↦ two_squares_by a b (b - a) e
  | inr e ↦ omega (arith, two_squares_by b a (a - b) e)
]

cross-le : (m : ℕ) (ys : List ℤ) → 2 * (sum_abs ys * m) ≤ sum_sq ys + length ys * (m * m)
cross-le m [] = omega arith
cross-le m (y ∷ ys) = omega (arith, cross-le m ys, two_squares (magnitude y) m)

-- The Cauchy-Schwarz inequality.
cauchy_schwarz : (ys : List ℤ) → sum_abs ys * sum_abs ys ≤ length ys * sum_sq ys
cauchy_schwarz [] = omega arith
cauchy_schwarz (y ∷ ys) = omega (arith, cross-le (magnitude y) ys, cauchy_schwarz ys)

magnitude-sum : (ys : List ℤ) → magnitude (sum_ℤ ys) ≤ sum_abs ys
magnitude-sum [] = omega arith
magnitude-sum (y ∷ ys) =
    omega (arith, magnitude-sum ys, +ℤ_parts y (sum_ℤ ys), one_part (y +ℤ sum_ℤ ys))

pub sum-square-le :
    (ys : List ℤ) → magnitude (sum_ℤ ys) * magnitude (sum_ℤ ys) ≤ length ys * sum_sq ys
sum-square-le ys =
    let bound : magnitude (sum_ℤ ys) * magnitude (sum_ℤ ys) ≤ sum_abs ys * sum_abs ys =
      mul-le-mul (magnitude-sum ys) (magnitude-sum ys) in
    omega (arith, bound, cauchy_schwarz ys)
