-- ===== src/Fee/Xlm/RoundTrip.antt =====
-- src/report/fee_calc.rs: `xlm_to_stroops` on decimal texts, and behind `stroops_to_xlm`.
use Prim.Native.Char.{Char}
use native.Mathlib.Nat.{pow-suc, zero-add}
use soroban_cost_estimator.Prelude.{
  ℕ, zero, suc, ◌+◌, ◌-◌, ◌*◌, ◌/◌, ◌%◌, ◌^◌, ◌≤◌, ◌<◌, ◌≡◌, refl, ◌≢◌, ◌++◌, Bool, true, false,
  if◌then◌else◌, List, [], ◌∷◌, length, arith, ap, ◌∙◌,
}
use soroban_cost_estimator.Prelude.Int.{ℤ, pos, negsuc, magnitude, is_neg, with_sign, one_part}
use soroban_cost_estimator.Prelude.Machine.{InI64}
use soroban_cost_estimator.Text.{is_digit, digit_value, show, value_from, all_digits, split}
use soroban_cost_estimator.Text.RoundTrip.{
  value_from-show, all_digits-show, length-show, show-ne-nil, all_digits-pad_zero,
  value_from-pad_zero, length-pad_zero, split-digits, split-append,
}
use soroban_cost_estimator.Error.{Externals, AppError, ok}
use soroban_cost_estimator.Fee.Xlm.{
  scaled_fraction, pad_to, stroops_to_xlm, strip_minus, invalid, two_parts, parse_whole,
  scan_fraction, pad_fraction, in_stroops, xlm_to_stroops,
}

module _ {x : Externals} (e : AppError x) where
  parse_whole_digits :
      (w : List Char)
      → w ≢ []
      → all_digits w ≡ true
      → value_from 0 w < 2 ^ 63
      → parse_whole e w ≡ ok (value_from 0 w)
  unfolding parse_whole
  parse_whole_digits [] ne d h = absurd (ne refl)
  parse_whole_digits (c ∷ s) ne d h = ground arith

  -- Up to seven digits are all kept.
  scan_fraction_digits :
      (n k : ℕ) (s : List Char)
      → all_digits s ≡ true
      → k + length s ≤ 7
      → scan_fraction e n k s ≡ ok (value_from n s, k + length s)
  unfolding scan_fraction
  scan_fraction_digits n k [] d h = ground arith
  scan_fraction_digits n k (c ∷ s) d h =
      ground (arith, scan_fraction_digits (n * 10 + digit_value c) (k + 1) s)

pad_fraction-eq : (k n : ℕ) → pad_fraction k n ≡ n * 10 ^ k
unfolding pad_fraction
pad_fraction-eq zero n = grind arith
pad_fraction-eq (suc k) n = pad_fraction-eq k (n * 10) ∙ rw pow-suc (omega arith)

abbrev pub sign_text : Bool → List Char
sign_text negative = if negative then "-" ∷ [] else []

strip_minus-digits :
    (negative : Bool) (w t : List Char)
    → w ≢ []
    → all_digits w ≡ true
    → strip_minus (sign_text negative ++ w ++ t) ≡ (negative, w ++ t)
unfolding strip_minus is_digit
strip_minus-digits negative [] t ne d = absurd (ne refl)
strip_minus-digits true (c ∷ w) t ne d = refl
strip_minus-digits false (c ∷ w) t ne d = ground arith

split-point :
    (w f : List Char)
    → all_digits w ≡ true
    → all_digits f ≡ true
    → split b'.' (w ++ "." ∷ f) ≡ w ∷ f ∷ []
split-point w f dw df =
    split-append "." w f (omega arith) dw
    ∙ ap (λ (l : List (List Char)). w ∷ l) (split-digits b'.' f (omega arith) df)

-- A sign, a whole part of one or more digits below 2 ^ 63, a point and at most seven fraction
-- digits read as exactly the stroops that they spell, the sign taken of the whole amount; the only
-- error is an amount outside i64.
pub xlm_to_stroops_exact :
    {x : Externals} (negative : Bool) (w f : List Char)
    → w ≢ []
    → all_digits w ≡ true
    → value_from 0 w < 2 ^ 63
    → all_digits f ≡ true
    → length f ≤ 7
    → xlm_to_stroops {x = x} (sign_text negative ++ w ++ "." ∷ f)
      ≡ in_stroops
          (with_sign negative (value_from 0 w * 10000000 + value_from 0 f * 10 ^ (7 - length f)))
unfolding xlm_to_stroops two_parts
xlm_to_stroops_exact {x} negative w f ne dw hw df hf =
    let e = invalid {x = x} (sign_text negative ++ w ++ "." ∷ f) in
    rw (strip_minus-digits negative w ("." ∷ f) ne dw, split-point w f dw df)
      (rw (parse_whole_digits e w ne dw hw, scan_fraction_digits e 0 0 f df (omega arith))
        (rw (pad_fraction-eq, zero-add) refl))

scaled_fraction-seven : (n : ℕ) → scaled_fraction n 7 ≡ n
unfolding scaled_fraction
scaled_fraction-seven n = ground arith

recombined :
    (m : ℕ)
    → m ≤ 2 ^ 63
    → (m / 10000000 * (10 ^ 7 % 2 ^ 128) % 2 ^ 128 + scaled_fraction (m % 10000000) 7) % 2 ^ 128 ≡ m
recombined m h = omega (arith, scaled_fraction-seven (m % 10000000))

-- Seven decimal places are the stroops themselves.
stroops_to_xlm-seven :
    (s : ℤ)
    → InI64 s
    → stroops_to_xlm s 7
      ≡ sign_text (is_neg s)
        ++ show (magnitude s / 10000000)
        ++ "." ∷ pad_to 7 (show (magnitude s % 10000000))
unfolding stroops_to_xlm
stroops_to_xlm-seven s h =
    ap
      (λ (t : ℕ).
        sign_text (is_neg s) ++ show (t / 10000000) ++ "." ∷ pad_to 7 (show (t % 10000000)))
      (recombined (magnitude s) (omega (arith, one_part s)))

all_digits-pad_to : (k : ℕ) (s : List Char) → all_digits (pad_to k s) ≡ all_digits s
unfolding pad_to
all_digits-pad_to k s = all_digits-pad_zero (k - length s) s

value_from-pad_to : (k : ℕ) (s : List Char) → value_from 0 (pad_to k s) ≡ value_from 0 s
unfolding pad_to
value_from-pad_to k s = value_from-pad_zero (k - length s) s

length-pad_to : (k : ℕ) (s : List Char) → length s ≤ k → length (pad_to k s) ≡ k
unfolding pad_to
length-pad_to k s h = omega (arith, length-pad_zero (k - length s) s)

in_stroops-sign :
    {x : Externals} (s : ℤ)
    → InI64 s
    → in_stroops {x = x} (with_sign (is_neg s) (magnitude s)) ≡ ok s
unfolding in_stroops
in_stroops-sign (pos n) h = ground arith
in_stroops-sign (negsuc n) h = ground arith

rejoined : (m : ℕ) → m / 10000000 * 10000000 + m % 10000000 * 10 ^ (7 - 7) ≡ m
rejoined m = omega arith

-- Every i64 amount printed with seven decimals is read back as itself, `i64::MIN` included.
pub xlm_to_stroops-stroops_to_xlm :
    {x : Externals} (s : ℤ) → InI64 s → xlm_to_stroops {x = x} (stroops_to_xlm s 7) ≡ ok s
xlm_to_stroops-stroops_to_xlm {x} s h =
    let whole = magnitude s / 10000000 in
    let fraction = magnitude s % 10000000 in
    let f = pad_to 7 (show fraction) in
    let len : length f ≡ 7 =
      length-pad_to 7 (show fraction) (length-show 6 fraction (omega arith)) in
    ap (xlm_to_stroops {x = x}) (stroops_to_xlm-seven s h)
    ∙ xlm_to_stroops_exact {x = x} (is_neg s) (show whole) f (show-ne-nil whole)
        (all_digits-show whole) (rw value_from-show (omega arith))
        (all_digits-pad_to 7 (show fraction) ∙ all_digits-show fraction) (omega (arith, len))
    ∙ rw (len, value_from-show, value_from-pad_to, value_from-show)
        (ap (λ (m : ℕ). in_stroops {x = x} (with_sign (is_neg s) m)) (rejoined (magnitude s))
          ∙ in_stroops-sign s h)
