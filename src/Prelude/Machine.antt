-- ===== src/Prelude/Machine.antt =====
-- The ranges of Rust's i64, i128 and u64, and the operations that saturate at them.
use soroban_cost_estimator.Prelude.{ℕ, ◌-◌, ◌^◌, ◌≤◌, ◌<◌, ◌≡◌, arith, if◌then◌else◌}
use soroban_cost_estimator.Prelude.Int.{
  ℤ, pos, negsuc, pos_part, neg_part, leb_ℤ, ltb_ℤ, ◌+ℤ◌, ◌-ℤ◌,
}

-- `i64::MAX` and `i64::MIN`
abbrev pub i64_max : ℤ
i64_max = pos (2 ^ 63 - 1)

abbrev pub i64_min : ℤ
i64_min = negsuc (2 ^ 63 - 1)

abbrev pub i128_max : ℤ
i128_max = pos (2 ^ 127 - 1)

abbrev pub i128_min : ℤ
i128_min = negsuc (2 ^ 127 - 1)

abbrev pub u64_max : ℕ
u64_max = 2 ^ 64 - 1

abbrev pub InI64 : ℤ → Type 0
InI64 a = (pos_part a < 2 ^ 63) × (neg_part a ≤ 2 ^ 63)

-- The nearest value of a range.
abbrev pub clamp : ℤ → ℤ → ℤ → ℤ
clamp lo hi a = if ltb_ℤ a lo then lo else if ltb_ℤ hi a then hi else a

unfoldable pub clamp_i64 : ℤ → ℤ
clamp_i64 = clamp i64_min i64_max

unfoldable pub clamp_i128 : ℤ → ℤ
clamp_i128 = clamp i128_min i128_max

-- `i64::saturating_add`, `i64::saturating_sub`
unfoldable pub sat_add : ℤ → ℤ → ℤ
sat_add a b = clamp_i64 (a +ℤ b)

unfoldable pub sat_sub : ℤ → ℤ → ℤ
sat_sub a b = clamp_i64 (a -ℤ b)

-- `max` and `min` of i64
abbrev pub max_ℤ : ℤ → ℤ → ℤ
max_ℤ a b = if leb_ℤ a b then b else a

abbrev pub min_ℤ : ℤ → ℤ → ℤ
min_ℤ a b = if leb_ℤ a b then a else b

pub InI64-clamp_i64 : (a : ℤ) → InI64 (clamp_i64 a)
unfolding clamp_i64
InI64-clamp_i64 a = ground arith

pub clamp_i64-eq_self : (a : ℤ) → InI64 a → clamp_i64 a ≡ a
unfolding clamp_i64
clamp_i64-eq_self a h = ground arith

pub clamp_i64-nonneg : (a : ℤ) → neg_part a ≡ 0 → neg_part (clamp_i64 a) ≡ 0
unfolding clamp_i64
clamp_i64-nonneg a h = ground arith

pub InI64-sat_add : (a b : ℤ) → InI64 (sat_add a b)
unfolding sat_add
InI64-sat_add a b = InI64-clamp_i64 (a +ℤ b)

pub InI64-sat_sub : (a b : ℤ) → InI64 (sat_sub a b)
unfolding sat_sub
InI64-sat_sub a b = InI64-clamp_i64 (a -ℤ b)
