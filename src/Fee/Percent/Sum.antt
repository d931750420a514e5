-- ===== src/Fee/Percent/Sum.antt =====
-- src/report/fee_calc.rs: the sum of the percentages of `compute_fee_breakdown`.
use native.Mathlib.Nat.{div-le_of_le-mul, le-mul_of_pos_right, mul_comm, mul-le-mul_right}
use soroban_cost_estimator.Prelude.{
  ℕ, zero, suc, ◌+◌, ◌*◌, ◌/◌, ◌^◌, ◌≤◌, ◌<◌, ◌≡◌, refl, ◌≢◌, arith, true, ◌&&◌, List, [], ◌∷◌,
  length, All, Option, none, some, ap, ◌∙◌, Bool-cases, inl, inr, tests, ==_iff,
}
use soroban_cost_estimator.Prelude.Int.{
  ℤ, pos, negsuc, magnitude, ltb_ℤ, eq_ℤ, scale, trunc_div, ◌+ℤ◌, ◌-ℤ◌, ◌≤ℤ◌, int_laws, eq_of_parts,
  one_part, -ℤ_parts,
}
use soroban_cost_estimator.Prelude.Machine.{clamp_i64, sat_add, sat_sub, clamp_i64-eq_self}
use soroban_cost_estimator.Fee.Scaled.{in_i64}
use soroban_cost_estimator.Fee.Percent.{
  rounded_share, permille, permilles, sum_ℤ, last_max_from, last_max, add_at, corrected,
  balanced_permilles,
}

share-le : (n t : ℕ) → 0 < t → (n + t / 2) / t ≤ n + 1
share-le n t h = div-le_of_le-mul t (omega (arith, le-mul_of_pos_right {m = t} n h, mul_comm n t))

-- 2 ^ 50 stroops, more than the total supply of XLM, bounds each part.
abbrev pub max_part : ℕ
max_part = 2 ^ 50

magnitude-trunc_div-pos : (n d : ℕ) → magnitude (trunc_div (pos n) d) ≡ n / d
unfolding trunc_div
magnitude-trunc_div-pos n d = ground arith

magnitude-trunc_div-negsuc : (n d : ℕ) → magnitude (trunc_div (negsuc n) d) ≡ suc n / d
unfolding trunc_div
magnitude-trunc_div-negsuc n d = ground arith

pos-+ℤ-pos : (n m : ℕ) → pos n +ℤ pos m ≡ pos (n + m)
pos-+ℤ-pos n m = omega int_laws

negsuc--ℤ-pos : (n m : ℕ) → negsuc n -ℤ pos m ≡ negsuc (n + m)
negsuc--ℤ-pos n m = omega int_laws

suc_add : (n m : ℕ) → suc (n + m) ≡ suc n + m
suc_add n m = omega arith

rounded_share-pos : (t n : ℕ) → rounded_share t (pos n) ≡ trunc_div (pos (n + t / 2)) t
unfolding rounded_share
rounded_share-pos t n = ground (arith, pos-+ℤ-pos n (t / 2))

rounded_share-negsuc : (t n : ℕ) → rounded_share t (negsuc n) ≡ trunc_div (negsuc (n + t / 2)) t
unfolding rounded_share
rounded_share-negsuc t n = ground (arith, negsuc--ℤ-pos n (t / 2))

magnitude-rounded_share : (t : ℕ) (a : ℤ) → 0 < t → magnitude (rounded_share t a) ≤ magnitude a + 1
magnitude-rounded_share t (pos n) h = omega (
  arith,
  ap magnitude (rounded_share-pos t n) ∙ magnitude-trunc_div-pos (n + t / 2) t,
  share-le n t h,
)
magnitude-rounded_share t (negsuc n) h = omega (
  arith,
  ap magnitude (rounded_share-negsuc t n) ∙ magnitude-trunc_div-negsuc (n + t / 2) t,
  share-le (suc n) t h,
  ap (λ (k : ℕ). k / t) (suc_add n (t / 2)),
)

magnitude-scale : (n : ℕ) (a : ℤ) → magnitude (scale n a) ≡ n * magnitude a
unfolding scale
magnitude-scale n (pos m) = ground arith
magnitude-scale n (negsuc m) = ground arith

magnitude-permille :
    (t : ℕ) (p : ℤ)
    → 0 < t
    → magnitude p ≤ max_part
    → magnitude (permille (pos t) p) ≤ 1000 * max_part + 1
unfolding permille
magnitude-permille t p h small =
    ground (arith, magnitude-rounded_share t (scale 1000 p) h, magnitude-scale 1000 p)

abbrev pub Small : List ℤ → Type 0
Small = All (λ p. magnitude p ≤ max_part)

abbrev share_bound : ℕ
share_bound = 1000 * max_part + 1

magnitude-+ℤ : (a b : ℤ) → magnitude (a +ℤ b) ≤ magnitude a + magnitude b
unfolding ◌+ℤ◌
magnitude-+ℤ a b = ground arith

All-permilles :
    (t : ℕ) (ps : List ℤ)
    → 0 < t
    → Small ps
    → All (λ x. magnitude x ≤ share_bound) (permilles (pos t) ps)
unfolding permilles
All-permilles t [] h small = tt
All-permilles t (p ∷ ps) h small = (magnitude-permille t p h small.0, All-permilles t ps h small.1)

length-permilles : (total : ℤ) (ps : List ℤ) → length (permilles total ps) ≡ length ps
unfolding permilles
length-permilles total [] = refl
length-permilles total (p ∷ ps) = ap suc (length-permilles total ps)

magnitude-sum :
    (b : ℕ) (xs : List ℤ) → All (λ x. magnitude x ≤ b) xs → magnitude (sum_ℤ xs) ≤ length xs * b
magnitude-sum b [] h = omega arith
magnitude-sum b (x ∷ xs) h = ground (arith, magnitude-+ℤ x (sum_ℤ xs), magnitude-sum b xs h.1)

sum-add_at :
    (i b : ℕ) (d : ℤ) (xs : List ℤ)
    → i < length xs
    → All (λ x. magnitude x ≤ b) xs
    → b + magnitude d < 2 ^ 63
    → sum_ℤ (add_at i d xs) ≡ sum_ℤ xs +ℤ d
unfolding add_at sat_add
sum-add_at i b d [] lt h fits = elim lt [ ]
sum-add_at zero b d (x ∷ xs) lt h fits =
    let e : clamp_i64 (x +ℤ d) ≡ x +ℤ d =
      clamp_i64-eq_self (x +ℤ d) (ground (arith, magnitude-+ℤ x d)) in
    rw e (omega int_laws)
sum-add_at (suc i) b d (x ∷ xs) lt h fits =
    rw (sum-add_at i b d xs (omega arith) h.1 fits) (omega int_laws)

last_max_from-lt :
    (best : ℕ) (top : ℤ) (i : ℕ) (ps : List ℤ)
    → best < i
    → last_max_from best top i ps < i + length ps
unfolding last_max_from
last_max_from-lt best top i [] h = omega arith
last_max_from-lt best top i (p ∷ ps) h =
    ground (arith, last_max_from-lt i p (i + 1) ps, last_max_from-lt best top (i + 1) ps)

diff-exact : (s : ℤ) → magnitude s + 1000 < 2 ^ 63 → sat_sub (pos 1000) s ≡ pos 1000 -ℤ s
unfolding sat_sub
diff-exact s h =
    clamp_i64-eq_self (pos 1000 -ℤ s)
      (ground (arith, -ℤ_parts (pos 1000) s, one_part (pos 1000 -ℤ s)))

magnitude-diff : (s : ℤ) → magnitude (pos 1000 -ℤ s) ≤ 1000 + magnitude s
unfolding ◌-ℤ◌
magnitude-diff s = ground arith

zero-diff : (s : ℤ) → eq_ℤ (pos 1000 -ℤ s) (pos 0) ≡ true → s ≡ pos 1000
zero-diff s h = eq_of_parts s (pos 1000) (omega (tests, -ℤ_parts (pos 1000) s, (==_iff _ _).0 h))

add-diff : (s : ℤ) → s +ℤ (pos 1000 -ℤ s) ≡ pos 1000
add-diff s = omega int_laws

tests-pass :
    (t : ℕ) (s : ℤ) → 0 < t → magnitude s < 2 ^ 63 → (ltb_ℤ (pos 0) (pos t) && in_i64 s) ≡ true
tests-pass t s ht hs = ground (arith, one_part s)

sum-corrected :
    (t i b : ℕ) (shares : List ℤ)
    → 0 < t
    → i < length shares
    → All (λ x. magnitude x ≤ b) shares
    → b + magnitude (sum_ℤ shares) + 1000 < 2 ^ 63
    → sum_ℤ (corrected (pos t) (some i) shares) ≡ pos 1000
unfolding corrected
sum-corrected t i b shares ht hi hb fits =
    let d : ℤ = pos 1000 -ℤ sum_ℤ shares in
    let e : sat_sub (pos 1000) (sum_ℤ shares) ≡ d = diff-exact (sum_ℤ shares) (omega arith) in
    let pass = tests-pass t (sum_ℤ shares) ht (omega arith) in
    let moved = sum-add_at i b d shares hi hb (omega (arith, magnitude-diff (sum_ℤ shares))) in
    elim (Bool-cases (eq_ℤ d (pos 0))) [
      | inl z ↦ ap sum_ℤ (cc (e, z, pass)) ∙ zero-diff (sum_ℤ shares) z
      | inr nz ↦ ap sum_ℤ (cc (e, nz, pass)) ∙ moved ∙ add-diff (sum_ℤ shares)
    ]

sum-shares-fit :
    (total : ℕ) (p : ℤ) (ps : List ℤ)
    → 0 < total
    → suc (length ps) ≤ 5
    → Small (p ∷ ps)
    → share_bound + magnitude (sum_ℤ (permilles (pos total) (p ∷ ps))) + 1000 < 2 ^ 63
sum-shares-fit total p ps h few small =
    let shares = permilles (pos total) (p ∷ ps) in
    let within = mul-le-mul_right share_bound few in
    omega (
      arith,
      magnitude-sum share_bound shares (All-permilles total (p ∷ ps) h small),
      ap (λ (k : ℕ). k * share_bound) (length-permilles (pos total) (p ∷ ps)),
      within,
    )

-- For a positive total and one to five parts of at most 2 ^ 50 stroops each, the tenths of a
-- percent add up to exactly 1000, whatever the parts add up to.
sum-balanced_permilles :
    (total : ℕ) (parts : List ℤ)
    → 0 < total
    → parts ≢ []
    → length parts ≤ 5
    → Small parts
    → sum_ℤ (balanced_permilles (pos total) parts) ≡ pos 1000
unfolding balanced_permilles
sum-balanced_permilles total [] h ne few small = absurd (ne refl)
sum-balanced_permilles total (p ∷ ps) h ne few small =
    let bounded = All-permilles total (p ∷ ps) h small in
    let count = length-permilles (pos total) (p ∷ ps) in
    sum-corrected total (last_max_from 0 p 1 ps) share_bound (permilles (pos total) (p ∷ ps)) h
      (omega (arith, count, last_max_from-lt 0 p 1 ps (omega arith))) bounded
      (sum-shares-fit total p ps h few small)

length-add_at : (i : ℕ) (d : ℤ) (xs : List ℤ) → length (add_at i d xs) ≡ length xs
unfolding add_at
length-add_at i d [] = refl
length-add_at zero d (x ∷ xs) = refl
length-add_at (suc i) d (x ∷ xs) = ap suc (length-add_at i d xs)

length-corrected :
    (total : ℤ) (largest : Option ℕ) (xs : List ℤ) → length (corrected total largest xs) ≡ length xs
unfolding corrected
length-corrected total none xs = ground arith
length-corrected total (some i) xs =
    ground (arith, length-add_at i (sat_sub (pos 1000) (sum_ℤ xs)) xs)

pub length-balanced_permilles :
    (total : ℤ) (parts : List ℤ) → length (balanced_permilles total parts) ≡ length parts
unfolding balanced_permilles
length-balanced_permilles total parts =
    length-corrected total (last_max parts) (permilles total parts) ∙ length-permilles total parts

-- The same for a total given as an integer.
pub sum-balanced_permilles_of_pos :
    (total : ℤ) (parts : List ℤ)
    → pos 1 ≤ℤ total
    → parts ≢ []
    → length parts ≤ 5
    → Small parts
    → sum_ℤ (balanced_permilles total parts) ≡ pos 1000
sum-balanced_permilles_of_pos (pos t) parts h = sum-balanced_permilles t parts (omega arith)
sum-balanced_permilles_of_pos (negsuc t) parts h = absurd (omega arith)
