-- ===== src/Rpc/Simulate/Fee.antt =====
-- src/rpc/simulate.rs, `parse_resource_fee`: fees in decimal, and fees in bytes.
use Prim.Native.Char.{Char}
use Prim.Native.String.{String}
use soroban_cost_estimator.Prelude.{
  ℕ, zero, suc, ◌+◌, ◌-◌, ◌^◌, ◌≤◌, ◌<◌, ◌≡◌, refl, ◌↔◌, true, false, any, Option, none, some, List,
  [], ◌∷◌, arith, ap, ◌∙◌, length,
}
use soroban_cost_estimator.Prelude.Int.{ℤ, pos, negsuc, pos_part, neg_part, sub_ℕ}
use soroban_cost_estimator.Text.{show, show_ℤ, is_digit, all_digits, value_from}
use soroban_cost_estimator.Text.RoundTrip.{value_from-show, all_digits-show}
use soroban_cost_estimator.Text.Parse.{is_whitespace, trim_start, trim_end, trim}
use soroban_cost_estimator.Error.{Externals, ok}
use soroban_cost_estimator.Wasm.Args.{digits_within}
use soroban_cost_estimator.Wasm.Args.Range.{digits_within-show, show_neg}
use soroban_cost_estimator.Rpc.Simulate.{
  parse_i64, returns, panics, first_bytes, of_slice, of_bytes, of_number, parse_resource_fee,
}

trim_start_none : (s : List Char) → any is_whitespace s ≡ false → trim_start s ≡ s
unfolding trim_start
trim_start_none [] h = refl
trim_start_none (c ∷ s) h = ground arith

trim_end_none : (s : List Char) → any is_whitespace s ≡ false → trim_end s ≡ s
unfolding trim_end
trim_end_none [] h = refl
trim_end_none (c ∷ []) h = ground arith
trim_end_none (c ∷ d ∷ s) h = rw (trim_end_none (d ∷ s) (ground arith)) refl

trim_none : (s : List Char) → any is_whitespace s ≡ false → trim s ≡ s
unfolding trim
trim_none s h = rw (trim_start_none s h) (trim_end_none s h)

digit-visible : (c : Char) → is_digit c ≡ true → is_whitespace c ≡ false
unfolding is_digit is_whitespace
digit-visible c h = ground arith

digits-visible : (s : List Char) → all_digits s ≡ true → any is_whitespace s ≡ false
digits-visible [] h = refl
digits-visible (c ∷ s) h = ground (arith, digits-visible s, digit-visible c)

-- Digits are read as a positive number.
parse_digits :
    (s : List Char)
    → all_digits s ≡ true
    → digits_within (2 ^ 63 - 1) s ≡ true
    → parse_i64 s ≡ some (pos (value_from 0 s))
unfolding parse_i64 is_digit
parse_digits [] d w = absurd (cc)
parse_digits (c ∷ s) d w = ground arith

parse_minus :
    (s : List Char)
    → digits_within (2 ^ 63) s ≡ true
    → parse_i64 ("-" ∷ s) ≡ some (sub_ℕ 0 (value_from 0 s))
unfolding parse_i64
parse_minus s w = ground arith

show-visible : (z : ℤ) → any is_whitespace (show_ℤ z) ≡ false
unfolding show_ℤ is_whitespace
show-visible (pos n) = digits-visible (show (n + 0)) (all_digits-show (n + 0))
show-visible (negsuc n) = ground (arith, digits-visible (show (suc n)) (all_digits-show (suc n)))

abbrev pub IsI64 : ℤ → Type 0
IsI64 z = (neg_part z ≤ 2 ^ 63) × (pos_part z ≤ 2 ^ 63 - 1)

show_pos : (n : ℕ) → show_ℤ (pos n) ≡ show n
unfolding show_ℤ
show_pos n = let e : n + 0 ≡ n = omega arith in ap show e

within : (bound n : ℕ) → n ≤ bound → digits_within bound (show n) ≡ true
within bound n h = digits_within-show bound n ∙ ground arith

parse-show : (z : ℤ) → IsI64 z → parse_i64 (show_ℤ z) ≡ some z
parse-show (pos n) h =
    ap parse_i64 (show_pos n)
    ∙ parse_digits (show n) (all_digits-show n) (within (2 ^ 63 - 1) n h.1)
    ∙ ap (λ k. some (pos k)) (value_from-show n)
parse-show (negsuc n) h =
    let e : 0 + suc n ≡ suc n = omega arith in
    ap parse_i64 (show_neg n)
    ∙ parse_minus (show (0 + suc n)) (within (2 ^ 63) (0 + suc n) (omega (arith, h.0)))
    ∙ ap (λ k. some (sub_ℕ 0 k)) (value_from-show (0 + suc n) ∙ e)
    ∙ ground arith

-- The eight bytes are there exactly when there are at least eight.
first_bytes-none_iff : (n : ℕ) (bytes : List ℕ) → (first_bytes n bytes ≡ none) ↔ (length bytes < n)
unfolding first_bytes
first_bytes-none_iff zero bytes = ground arith
first_bytes-none_iff (suc n) [] = ground arith
first_bytes-none_iff (suc n) (b ∷ bytes) = ground (arith, first_bytes-none_iff n bytes)

module _ {x : Externals} (decode : List Char → Option (List ℕ))
    (decode_error : List Char → String) where
  -- A fee printed in decimal is read as itself, for every number of 64 bits.
  pub parse_resource_fee-show :
      (z : ℤ)
      → IsI64 z
      → parse_resource_fee {x = x} decode decode_error (some (show_ℤ z)) ≡ returns (ok (some z))
  unfolding parse_resource_fee
  parse_resource_fee-show z h = rw (trim_none (show_ℤ z) (show-visible z), parse-show z h) refl

  slice_iff :
      (bytes : List ℕ)
      → (of_slice {x = x} decode decode_error (first_bytes 8 bytes) ≡ panics) ↔ (length bytes < 8)
  slice_iff bytes = ground (arith, first_bytes-none_iff 8 bytes)

  of_bytes_iff :
      (s : List Char) (b : Option (List ℕ))
      → (of_bytes {x = x} decode decode_error s b ≡ panics)
        ↔ ((bytes : List ℕ) × (b ≡ some bytes) × (length bytes < 8))
  of_bytes_iff s none = (λ e. absurd (cc), λ h. absurd (unequal h.1))
    where
      unequal : {bytes : List ℕ} → none ≡ some bytes → ⊥
      unequal e = cc
  of_bytes_iff s (some bs) =
      (λ e. (bs, refl, (slice_iff bs).0 e), λ h. (slice_iff bs).1 (ground (arith, h.1, h.2)))

  of_number_iff :
      (s : List Char) (o : Option ℤ)
      → (of_number {x = x} decode decode_error s o ≡ panics)
        ↔ ((o ≡ none) × ((bytes : List ℕ) × (decode s ≡ some bytes) × (length bytes < 8)))
  of_number_iff s (some z) = (λ e. absurd (cc), λ h. absurd (ground (arith, h.0)))
  of_number_iff s none =
      (λ e. (refl, (of_bytes_iff s (decode s)).0 e), λ h. (of_bytes_iff s (decode s)).1 h.1)

  -- Reading a fee panics exactly when the text is no number of 64 bits and is the base64 form of
  -- fewer than eight bytes.
  pub parse_resource_fee-panics_iff :
      (s : List Char)
      → (parse_resource_fee {x = x} decode decode_error (some s) ≡ panics) ↔ (
          (parse_i64 (trim s) ≡ none)
          × ((bytes : List ℕ) × (decode s ≡ some bytes) × (length bytes < 8)))
  unfolding parse_resource_fee
  parse_resource_fee-panics_iff s = of_number_iff s (parse_i64 (trim s))
