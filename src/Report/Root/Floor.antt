-- ===== src/Report/Root/Floor.antt =====
-- src/report/cost_report.rs, `isqrt_u128`: its result against the floor of the square root.
use native.Mathlib.Nat.{mul-le-mul, le-div_iff_mul-le}
use soroban_cost_estimator.Prelude.{
  ℕ, zero, suc, ◌+◌, ◌-◌, ◌*◌, ◌/◌, ◌≤◌, ◌<◌, ◌≡◌, ◌≢◌, refl, ◌↔◌, ◌⊎◌, inl, inr, arith, ltb,
  lt→ltb, Bool-cases, true, false,
}
use soroban_cost_estimator.Report.Root.{midpoint, newton, isqrt_u128}

-- The floor of the square root of v.
abbrev pub IsRoot : ℕ → ℕ → Type 0
IsRoot v r = (r * r ≤ v) × (v < (r + 1) * (r + 1))

-- The mean of the sides of a rectangle gives a square that is no smaller.
le_total : (a b : ℕ) → (a ≤ b) ⊎ (b ≤ a)
le_total a b = ground arith

mean_square_at : (a d : ℕ) → 4 * (a * (a + d)) + d * d ≡ (a + (a + d)) * (a + (a + d))
mean_square_at a d = omega arith

mean_square_swap : (a d : ℕ) → 4 * ((a + d) * a) + d * d ≡ (a + d + a) * (a + d + a)
mean_square_swap a d = omega arith

mean_square : (a b : ℕ) → 4 * (a * b) ≤ (a + b) * (a + b)
mean_square a b = elim (le_total a b) [
  | inl h ↦
      (let e : b ≡ a + (b - a) = omega arith in rw e (omega (arith, mean_square_at a (b - a))))
  | inr h ↦
      (let e : a ≡ b + (a - b) = omega arith in rw e (omega (arith, mean_square_swap b (a - b))))
]

square_mono : (a b : ℕ) → 2 * b ≤ 2 * a → 4 * (b * b) ≤ 4 * (a * a)
square_mono a b h = grind arith

above : (v x : ℕ) → 0 < x → v < (midpoint x (v / x) + 1) * (midpoint x (v / x) + 1)
above v x h =
    let q = v / x in
    let y = midpoint x q in
    let under : v < x * (q + 1) = grind arith in
    let side : x + (q + 1) ≤ 2 * (y + 1) = omega arith in
    let wide : 4 * (x * (q + 1)) ≤ (x + (q + 1)) * (x + (q + 1)) = mean_square x (q + 1) in
    let bound : (x + (q + 1)) * (x + (q + 1)) ≤ (2 * (y + 1)) * (2 * (y + 1)) =
      mul-le-mul side side in
    omega arith

below : (v x : ℕ) → 0 < x → x ≤ midpoint x (v / x) → x * x ≤ v
below v x h le = let e : x ≤ v / x = omega arith in (le-div_iff_mul-le h).0 e

positive : (v y : ℕ) → 0 < v → v < (y + 1) * (y + 1) → 0 < y
positive v zero hv h = absurd (omega arith)
positive v (suc y) hv h = omega arith

newton-IsRoot :
    (fuel v x : ℕ)
    → 0 < v
    → 0 < x
    → x ≤ fuel
    → v < (x + 1) * (x + 1)
    → IsRoot v (newton fuel v x (midpoint x (v / x)))
unfolding newton
newton-IsRoot zero v x hv hx hf hi = absurd (omega arith)
newton-IsRoot (suc fuel) v x hv hx hf hi =
    let y = midpoint x (v / x) in
    let over = above v x hx in
    elim (Bool-cases (ltb y x)) [
      | inl t ↦ rw t (newton-IsRoot fuel v y hv (positive v y hv over) (ground arith) over)
      | inr f ↦ rw f (below v x hx (ground arith), hi)
    ]

wide_square : (h : ℕ) → 2 * h + 1 < (h + 1 + 1) * (h + 1 + 1)
wide_square h = omega arith

first_over : (v : ℕ) → v < (v / 2 + 1 + 1) * (v / 2 + 1 + 1)
first_over v = omega (arith, wide_square (v / 2))

from_three : (n : ℕ) → let v = suc (suc (suc n)) in IsRoot v (newton v v v (v / 2 + 1))
unfolding newton
from_three n =
    let v = suc (suc (suc n)) in
    let y = v / 2 + 1 in
    let down : ltb y v ≡ true = lt→ltb y v (omega arith) in
    rw down
      (newton-IsRoot (suc (suc n)) v y (omega arith) (omega arith) (omega arith) (first_over v))

large : (n : ℕ) → ltb (suc (suc (suc n))) 2 ≡ false
large n = ground arith

-- For every u128 but 2 the result is the floor of the square root; for 2 it is not.
pub isqrt_u128-IsRoot_iff : (v : ℕ) → IsRoot v (isqrt_u128 v) ↔ (v ≢ 2)
unfolding isqrt_u128 newton
isqrt_u128-IsRoot_iff zero = (λ h. omega arith, λ ne. omega arith)
isqrt_u128-IsRoot_iff (suc zero) = (λ h. omega arith, λ ne. omega arith)
isqrt_u128-IsRoot_iff (suc (suc zero)) = (λ h. absurd (omega arith), λ ne. absurd (ne refl))
isqrt_u128-IsRoot_iff (suc (suc (suc n))) =
    (λ h. λ e. omega arith, λ ne. rw (large n) (from_three n))
