-- ===== src/Report/Distribution/Deviation.antt =====
-- src/report/cost_report.rs, `FeeDistribution::from_samples`: the standard deviation.
mod Cauchy
use native.Mathlib.Nat.{mul-le-mul, div-le_self, le_trans}
use soroban_cost_estimator.Prelude.{
  ℕ, if◌then◌else◌, ◌==◌, ◌+◌, ◌-◌, ◌*◌, ◌/◌, ◌^◌, ◌≤◌, ◌<◌, ◌≡◌, ◌≢◌, refl, ◌⊎◌, inl, inr, List,
  [], ◌∷◌, min, All, length, arith, ap, sym, ◌∙◌,
}
use soroban_cost_estimator.Prelude.Int.{
  ℤ, pos, negsuc, pos_part, magnitude, scale, ◌+ℤ◌, ◌-ℤ◌, int_laws, +ℤ_parts, one_part,
}
use soroban_cost_estimator.Fee.Percent.{sum_ℤ}
use soroban_cost_estimator.Prelude.Machine.{InI64}
use soroban_cost_estimator.Fee.Range.{as_i64}
use soroban_cost_estimator.Fee.Range.Bounds.{as_i64-eq_self}
use soroban_cost_estimator.Report.Root.{isqrt_u128}
use soroban_cost_estimator.Report.Root.Floor.{IsRoot, isqrt_u128-IsRoot_iff}
use soroban_cost_estimator.Report.Distribution.{
  Samples, no_samples, wrap_i128, square, add_sample, add_samples, variance, nothing_counted,
  distribution, from_samples,
}
use soroban_cost_estimator.Report.Distribution.Deviation.Cauchy.{sum_sq, sum-square-le}

abbrev pub Bounded : ℕ → List ℤ → Type 0
Bounded b ys = All (λ y. magnitude y ≤ b) ys

sum_sq-le : (b : ℕ) (ys : List ℤ) → Bounded b ys → sum_sq ys ≤ length ys * (b * b)
sum_sq-le b [] h = omega arith
sum_sq-le b (y ∷ ys) h = omega (arith, sum_sq-le b ys h.1, mul-le-mul h.0 h.0)

wrap_i128-eq_self : (z : ℤ) → magnitude z < 2 ^ 127 → wrap_i128 z ≡ z
unfolding wrap_i128
wrap_i128-eq_self (pos n) h = ground arith
wrap_i128-eq_self (negsuc n) h = ground arith

-- The fees that the loop reads: as many as there are instruction counts.
abbrev pub paired : List ℤ → List ℕ → List ℤ
paired [] cpu = []
paired (fee ∷ fees) [] = []
paired (fee ∷ fees) (c ∷ cpu) = fee ∷ paired fees cpu

length-paired :
    (fees : List ℤ) (cpu : List ℕ) → length (paired fees cpu) ≡ min (length fees) (length cpu)
length-paired [] cpu = ground arith
length-paired (fee ∷ fees) [] = ground arith
length-paired (fee ∷ fees) (c ∷ cpu) = ground (arith, length-paired fees cpu)

add_samples-sum :
    (s : Samples) (fees : List ℤ) (cpu : List ℕ)
    → (add_samples s fees cpu).sum_fee ≡ s.sum_fee +ℤ sum_ℤ (paired fees cpu)
unfolding add_samples add_sample
add_samples-sum s [] cpu = omega int_laws
add_samples-sum s (fee ∷ fees) [] = omega int_laws
add_samples-sum s (fee ∷ fees) (c ∷ cpu) =
    add_samples-sum (add_sample s fee c) fees cpu ∙ omega int_laws

add_samples-sum_sq :
    (s : Samples) (q : ℕ) (fees : List ℤ) (cpu : List ℕ)
    → s.sum_fee_sq ≡ pos q
    → q + sum_sq (paired fees cpu) < 2 ^ 127
    → (add_samples s fees cpu).sum_fee_sq ≡ pos (q + sum_sq (paired fees cpu))
unfolding add_samples add_sample
add_samples-sum_sq s q [] cpu e h = e ∙ ap pos (omega arith)
add_samples-sum_sq s q (fee ∷ fees) [] e h = e ∙ ap pos (omega arith)
add_samples-sum_sq s q (fee ∷ fees) (c ∷ cpu) e h =
    let next = q + magnitude fee * magnitude fee in
    let sum : s.sum_fee_sq +ℤ square fee ≡ pos next =
      ap (λ z. z +ℤ square fee) e ∙ omega int_laws in
    let held : wrap_i128 (s.sum_fee_sq +ℤ square fee) ≡ pos next =
      ap wrap_i128 sum ∙ wrap_i128-eq_self (pos next) (omega (arith, h)) in
    add_samples-sum_sq (add_sample s fee c) next fees cpu held (omega (arith, h))
    ∙ ap pos (omega arith)

-- The exact population variance, rounded down.
abbrev pub exact_variance : List ℤ → ℕ
exact_variance ys =
    let total = magnitude (sum_ℤ ys) in
    (length ys * sum_sq ys - total * total) / (length ys * length ys)

-- Fewer than 2^63 times the largest magnitude: no product leaves i128.
products-fit :
    (b : ℕ) (ys : List ℤ)
    → Bounded b ys
    → length ys * b < 2 ^ 63
    → length ys * sum_sq ys ≤ (2 ^ 63 - 1) * (2 ^ 63 - 1)
products-fit b ys h small =
    let q : length ys * sum_sq ys ≤ length ys * (length ys * (b * b)) =
      mul-le-mul (omega arith) (sum_sq-le b ys h) in
    let p : (length ys * b) * (length ys * b) ≤ (2 ^ 63 - 1) * (2 ^ 63 - 1) =
      mul-le-mul {n₂ = 2 ^ 63 - 1} {m₂ = 2 ^ 63 - 1} (omega (arith, small))
        (omega (arith, small)) in
    omega (arith, p, q)

scale_pos : (n q : ℕ) → scale n (pos q) ≡ pos (n * q)
unfolding scale
scale_pos n q = ground arith

minus_pos : (a b : ℕ) → b ≤ a → pos a -ℤ pos b ≡ pos (a - b)
unfolding ◌-ℤ◌
minus_pos a b h = ground arith

variance-of :
    (n q : ℕ) (total : ℤ) (s : Samples)
    → s.sum_fee_sq ≡ pos q
    → s.sum_fee ≡ total
    → n * q ≤ (2 ^ 63 - 1) * (2 ^ 63 - 1)
    → magnitude total * magnitude total ≤ n * q
    → variance n s ≡ (n * q - magnitude total * magnitude total) / (n * n)
unfolding variance
variance-of n q total s eq et small le =
    let t = magnitude total * magnitude total in
    let times : scale n s.sum_fee_sq ≡ pos (n * q) = ap (scale n) eq ∙ scale_pos n q in
    let squares : wrap_i128 (scale n s.sum_fee_sq) ≡ pos (n * q) =
      ap wrap_i128 times ∙ wrap_i128-eq_self (pos (n * q)) (omega (arith, small)) in
    let total_sq : wrap_i128 (square s.sum_fee) ≡ pos t =
      ap (λ z. wrap_i128 (square z)) et ∙ wrap_i128-eq_self (pos t) (omega (arith, small, le)) in
    let difference : wrap_i128 (scale n s.sum_fee_sq) -ℤ wrap_i128 (square s.sum_fee)
        ≡ pos (n * q - t) =
      ap (λ z. z -ℤ wrap_i128 (square s.sum_fee)) squares
      ∙ ap (λ z. pos (n * q) -ℤ z) total_sq
      ∙ minus_pos (n * q) t le in
    let held =
      ap wrap_i128 difference ∙ wrap_i128-eq_self (pos (n * q - t)) (omega (arith, small)) in
    ap (λ z. pos_part z / (n * n)) held

sum_sq-le_times : (ys : List ℤ) → sum_sq ys ≤ length ys * sum_sq ys
sum_sq-le_times [] = omega arith
sum_sq-le_times (y ∷ ys) = omega arith

variance-exact :
    (b : ℕ) (fees : List ℤ) (cpu : List ℕ)
    → let ys = paired fees cpu in
      Bounded b ys
      → length ys * b < 2 ^ 63
      → variance (length ys) (add_samples no_samples fees cpu) ≡ exact_variance ys
variance-exact b fees cpu h small =
    let ys = paired fees cpu in
    let fits = products-fit b ys h small in
    let below : 0 + sum_sq ys < 2 ^ 127 = omega (arith, fits, sum_sq-le_times ys) in
    variance-of (length ys) (sum_sq ys) (sum_ℤ ys) (add_samples no_samples fees cpu)
      (add_samples-sum_sq no_samples 0 fees cpu refl below ∙ ap pos (omega arith))
      (add_samples-sum no_samples fees cpu ∙ omega int_laws) fits (sum-square-le ys)

-- The root of a number up to the square of the i64 maximum is an i64.
in-or-over : (r : ℕ) → (r < 2 ^ 63) ⊎ (2 ^ 63 ≤ r)
in-or-over r = ground arith

root-fits : (v r : ℕ) → v ≤ (2 ^ 63 - 1) * (2 ^ 63 - 1) → r * r ≤ v → r < 2 ^ 63
root-fits v r h square_le = elim (in-or-over r) [
  | inl le ↦ le
  | inr over ↦
      (let big : 2 ^ 63 * 2 ^ 63 ≤ r * r =
          mul-le-mul {n₁ = 2 ^ 63} {m₁ = 2 ^ 63} {n₂ = r} {m₂ = r} over over in
        absurd (omega (arith, big, square_le, h)))
]

unless_zero : {A : Type 0} (n : ℕ) (a b : A) → 0 < n → (if n == 0 then a else b) ≡ b
unless_zero n a b h = ground arith

std_dev-of :
    (n : ℕ) (fees : List ℤ) (cpu : List ℕ)
    → min (length fees) (length cpu) ≡ n
    → 0 < n
    → (from_samples fees cpu).std_dev_fee_stroops
      ≡ as_i64 (pos (isqrt_u128 (variance n (add_samples no_samples fees cpu))))
unfolding from_samples distribution
std_dev-of n fees cpu e h =
    let s = add_samples no_samples fees cpu in
    ap (λ c. (if c == 0 then nothing_counted else distribution c s).std_dev_fee_stroops) e
    ∙ ap (λ d. d.std_dev_fee_stroops) (unless_zero n nothing_counted (distribution n s) h)

-- When at least one fee is paired with an instruction count, every such fee has a magnitude of at
-- most b, the number of the pairs times b is below 2^63, and the exact population variance of the
-- fees, rounded down, is not 2, the standard deviation is the floor of that variance's square root:
-- no product leaves i128 and no cast changes a value.
pub from_samples-IsRoot :
    (b : ℕ) (fees : List ℤ) (cpu : List ℕ)
    → 0 < length (paired fees cpu)
    → Bounded b (paired fees cpu)
    → length (paired fees cpu) * b < 2 ^ 63
    → exact_variance (paired fees cpu) ≢ 2
    → (r : ℕ) × ((from_samples fees cpu).std_dev_fee_stroops ≡ pos r)
      × IsRoot (exact_variance (paired fees cpu)) r
from_samples-IsRoot b fees cpu some_pair h small ne =
    let ys = paired fees cpu in
    let v = exact_variance ys in
    let root = (isqrt_u128-IsRoot_iff v).1 ne in
    let below : v ≤ (2 ^ 63 - 1) * (2 ^ 63 - 1) =
      le_trans
        (div-le_self (length ys * sum_sq ys - magnitude (sum_ℤ ys) * magnitude (sum_ℤ ys))
          (length ys * length ys))
        (omega (arith, products-fit b ys h small)) in
    let fits : InI64 (pos (isqrt_u128 v)) =
      (root-fits v (isqrt_u128 v) below root.0, omega arith) in
    let deviation =
      std_dev-of (length ys) fees cpu (sym (length-paired fees cpu)) some_pair
      ∙ ap (λ w. as_i64 (pos (isqrt_u128 w))) (variance-exact b fees cpu h small)
      ∙ as_i64-eq_self (pos (isqrt_u128 v)) fits in
    (isqrt_u128 v, deviation, root)
