-- ===== src/Fee/Range/Bounds.antt =====
-- src/report/fee_calc.rs, `fee_range`: its results against the fees of the batch.
use native.Mathlib.Nat.{div-le_of_le-mul, le-div_iff_mul-le, le-mul_of_pos_right}
use soroban_cost_estimator.Prelude.{
  ℕ, suc, ◌+◌, ◌*◌, ◌≤◌, ◌<◌, ◌≡◌, refl, ◌⊎◌, arith, List, [], ◌∷◌, length, All, some, ap, ◌∙◌, inl,
  inr,
}
use soroban_cost_estimator.Prelude.Int.{
  ℤ, pos, negsuc, pos_part, neg_part, trunc_div, ◌+ℤ◌, ◌≤ℤ◌, +ℤ_parts, int_laws, eq_of_parts,
  one_part,
}
use soroban_cost_estimator.Prelude.Machine.{i64_max, i64_min, InI64, max_ℤ, min_ℤ}
use soroban_cost_estimator.Fee.Percent.{sum_ℤ}
use soroban_cost_estimator.Fee.Range.{FeeRange, as_i64, range_loop, fee_range}

pub as_i64-eq_self : (z : ℤ) → InI64 z → as_i64 z ≡ z
unfolding as_i64
as_i64-eq_self (pos n) h = ground arith
as_i64-eq_self (negsuc n) h = ground arith

abbrev pub Within : ℤ → ℤ → ℤ → Type 0
Within lo hi y = (lo ≤ℤ y) × (y ≤ℤ hi)

abbrev pub Member : ℤ → List ℤ → Type 0
Member x [] = ⊥
Member x (y ∷ ys) = (x ≡ y) ⊎ Member x ys

-- The results bound the list and what the loop started from.
loop-Within :
    (lo hi sum : ℤ) (fees : List ℤ)
    → let r = range_loop lo hi sum fees in (r.0 ≤ℤ lo) × (hi ≤ℤ r.1) × All (Within r.0 r.1) fees
unfolding range_loop
loop-Within lo hi sum [] = (omega arith, omega arith, tt)
loop-Within lo hi sum (y ∷ ys) =
    let (below, above, each) = loop-Within (min_ℤ lo y) (max_ℤ hi y) (sum +ℤ y) ys in
    (ground arith, ground arith, ((ground arith, ground arith), each))

loop-lo_attained :
    (lo hi sum : ℤ) (fees : List ℤ)
    → let r = range_loop lo hi sum fees in (r.0 ≡ lo) ⊎ Member r.0 fees
unfolding range_loop
loop-lo_attained lo hi sum [] = inl refl
loop-lo_attained lo hi sum (y ∷ ys) =
    ground (arith, loop-lo_attained (min_ℤ lo y) (max_ℤ hi y) (sum +ℤ y) ys)

loop-hi_attained :
    (lo hi sum : ℤ) (fees : List ℤ)
    → let r = range_loop lo hi sum fees in (r.1 ≡ hi) ⊎ Member r.1 fees
unfolding range_loop
loop-hi_attained lo hi sum [] = inl refl
loop-hi_attained lo hi sum (y ∷ ys) =
    ground (arith, loop-hi_attained (min_ℤ lo y) (max_ℤ hi y) (sum +ℤ y) ys)

pub loop-sum : (lo hi sum : ℤ) (fees : List ℤ) → (range_loop lo hi sum fees).2 ≡ sum +ℤ sum_ℤ fees
unfolding range_loop
loop-sum lo hi sum [] = omega int_laws
loop-sum lo hi sum (y ∷ ys) = loop-sum (min_ℤ lo y) (max_ℤ hi y) (sum +ℤ y) ys ∙ omega int_laws

-- The sum lies between the count times the bounds.
abbrev SumWithin : ℕ → ℤ → ℤ → ℤ → Type 0
SumWithin n lo hi s =
    (n * pos_part lo + neg_part s ≤ pos_part s + n * neg_part lo)
    × (pos_part s + n * neg_part hi ≤ n * pos_part hi + neg_part s)

pub sum-Within :
    (lo hi : ℤ) (ys : List ℤ) → All (Within lo hi) ys → SumWithin (length ys) lo hi (sum_ℤ ys)
sum-Within lo hi [] h = (omega arith, omega arith)
sum-Within lo hi (y ∷ ys) h =
    let ih = sum-Within lo hi ys h.1 in
    (omega (arith, +ℤ_parts y (sum_ℤ ys), ih), omega (arith, +ℤ_parts y (sum_ℤ ys), ih))

avg-ge : (n : ℕ) (lo hi s : ℤ) → 0 < n → SumWithin n lo hi s → lo ≤ℤ trunc_div s n
unfolding trunc_div
avg-ge n (pos l) hi (pos a) h w =
    let p : l * n ≤ a = omega arith in ground (arith, (le-div_iff_mul-le h).1 p)
avg-ge n (negsuc l) hi (pos a) h w = ground arith
avg-ge n (pos l) hi (negsuc a) h w = absurd (omega arith)
avg-ge n (negsuc l) hi (negsuc a) h w =
    let p : suc a ≤ n * suc l = omega arith in ground (arith, div-le_of_le-mul n p)

avg-le : (n : ℕ) (lo hi s : ℤ) → 0 < n → SumWithin n lo hi s → trunc_div s n ≤ℤ hi
unfolding trunc_div
avg-le n lo (pos u) (pos a) h w =
    let p : a ≤ n * u = omega arith in ground (arith, div-le_of_le-mul n p)
avg-le n lo (negsuc u) (pos a) h w = absurd (omega (arith, le-mul_of_pos_right u h))
avg-le n lo (pos u) (negsuc a) h w = ground arith
avg-le n lo (negsuc u) (negsuc a) h w =
    let p : suc u * n ≤ suc a = omega arith in ground (arith, (le-div_iff_mul-le h).1 p)

-- Between two i64 values lies an i64 value.
InI64-Within : (lo hi z : ℤ) → InI64 lo → InI64 hi → Within lo hi z → InI64 z
InI64-Within lo hi z hl hh w = omega (arith, one_part z, one_part lo, one_part hi)

lo-Member :
    (fee : ℤ) (fees : List ℤ)
    → InI64 fee
    → let r = range_loop i64_max i64_min (pos 0) (fee ∷ fees) in Member r.0 (fee ∷ fees)
lo-Member fee fees h =
    let w = loop-Within i64_max i64_min (pos 0) (fee ∷ fees) in
    elim (loop-lo_attained i64_max i64_min (pos 0) (fee ∷ fees)) [
      | inl e ↦ inl (eq_of_parts _ _ (omega (arith, w.2.0, h, ap pos_part e, ap neg_part e)))
      | inr m ↦ m
    ]

hi-Member :
    (fee : ℤ) (fees : List ℤ)
    → InI64 fee
    → let r = range_loop i64_max i64_min (pos 0) (fee ∷ fees) in Member r.1 (fee ∷ fees)
hi-Member fee fees h =
    let w = loop-Within i64_max i64_min (pos 0) (fee ∷ fees) in
    elim (loop-hi_attained i64_max i64_min (pos 0) (fee ∷ fees)) [
      | inl e ↦ inl (eq_of_parts _ _ (omega (arith, w.2.0, h, ap pos_part e, ap neg_part e)))
      | inr m ↦ m
    ]

InI64-Member : (z : ℤ) (ys : List ℤ) → All InI64 ys → Member z ys → InI64 z
InI64-Member z [] h m = elim m [ ]
InI64-Member z (y ∷ ys) h (inl e) = ground arith
InI64-Member z (y ∷ ys) h (inr m) = InI64-Member z ys h.1 m

mean_of_loop :
    (fees : List ℤ)
    → trunc_div (range_loop i64_max i64_min (pos 0) fees).2 (length fees)
      ≡ trunc_div (sum_ℤ fees) (length fees)
mean_of_loop fees =
    ap (λ (s : ℤ). trunc_div s (length fees))
      (loop-sum i64_max i64_min (pos 0) fees ∙ omega int_laws)

pub record IsRange (fees : List ℤ) (r : FeeRange) : Type 0 where
  pub counted : r.count ≡ length fees
  pub each : All (Within r.min_stroops r.max_stroops) fees
  pub min_attained : Member r.min_stroops fees
  pub max_attained : Member r.max_stroops fees
  pub avg_between : Within r.min_stroops r.max_stroops r.avg_stroops
  pub avg_exact : r.avg_stroops ≡ trunc_div (sum_ℤ fees) (length fees)

-- A batch of one or more i64 fees has a range: its minimum and maximum are fees of the batch and
-- bound every fee, and its average is the truncated mean, which the cast to i64 does not change and
-- which lies between them.
pub fee_range-IsRange :
    (fee : ℤ) (fees : List ℤ)
    → InI64 fee
    → All InI64 fees
    → (r : FeeRange) × (fee_range (fee ∷ fees) ≡ some r) × IsRange (fee ∷ fees) r
unfolding fee_range
fee_range-IsRange fee fees h hs =
    let all = fee ∷ fees in
    let r = range_loop i64_max i64_min (pos 0) all in
    let w = loop-Within i64_max i64_min (pos 0) all in
    let lo_in = lo-Member fee fees h in
    let hi_in = hi-Member fee fees h in
    let mean = trunc_div (sum_ℤ all) (length all) in
    let sums = sum-Within r.0 r.1 all w.2 in
    let between : Within r.0 r.1 mean = (
      avg-ge (length all) r.0 r.1 (sum_ℤ all) (omega arith) sums,
      avg-le (length all) r.0 r.1 (sum_ℤ all) (omega arith) sums,
    ) in
    let exact = mean_of_loop all in
    let fits =
      InI64-Within r.0 r.1 mean (InI64-Member r.0 all (h, hs) lo_in)
        (InI64-Member r.1 all (h, hs) hi_in) between in
    let avg = ap as_i64 exact ∙ as_i64-eq_self mean fits in
    (
      record {
        count = length all;
        min_stroops = r.0;
        max_stroops = r.1;
        avg_stroops = as_i64 (trunc_div r.2 (length all));
      },
      refl,
      record {
        counted = refl;
        each = w.2;
        min_attained = lo_in;
        max_attained = hi_in;
        avg_between = rw avg between;
        avg_exact = avg;
      },
    )
