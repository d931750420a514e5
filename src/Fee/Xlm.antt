-- ===== src/Fee/Xlm.antt =====
-- src/report/fee_calc.rs, `stroops_to_xlm` and `xlm_to_stroops`. A text is the list of its
-- characters. The u128 arithmetic of the print wraps as in a release build; a precision of 128 or
-- more, where the source divides by zero and panics, is outside the model (the command line allows
-- 0 to 7).
pub mod RoundTrip
use Prim.Native.Char.{Char, code}
use soroban_cost_estimator.Prelude.{
  ℕ, zero, suc, ◌+◌, ◌-◌, ◌*◌, ◌/◌, ◌%◌, ◌^◌, ◌≤◌, ◌<◌, ◌≡◌, refl, ◌++◌, Bool, true, false, ◌&&◌,
  leb, ltb, ◌==◌, if◌then◌else◌, List, [], ◌∷◌, length, Option, none, some,
}
use soroban_cost_estimator.Prelude.Int.{ℤ, pos, negsuc, pos_part, magnitude, is_neg, with_sign}
use soroban_cost_estimator.Prelude.Machine.{i64_max}
use soroban_cost_estimator.Text.{
  ◌<>◌, chars, of_chars, is_digit, digit_value, show, pad_zero, value_from, all_digits, split,
}
use soroban_cost_estimator.Error.{Externals, AppError, fee_calc, Result, ok, err, AppResult, ◌>>=◌}
use soroban_cost_estimator.Fee.Scaled.{in_i64}

abbrev pub default_precision : ℕ
default_precision = 7

abbrev u128 : ℕ → ℕ
u128 n = n % 2 ^ 128

-- The seven-digit fraction in `precision` decimal places, rounded half up.
unfoldable pub scaled_fraction : ℕ → ℕ → ℕ
scaled_fraction fraction precision =
    if leb precision 7
    then (let unit = 10 ^ (7 - precision) in
        let quotient = fraction / unit in
        if leb unit (fraction % unit * 2) then quotient + 1 else quotient)
    else u128 (fraction * u128 (10 ^ (precision - 7)))

-- `{n:0width$}`
unfoldable pub pad_to : ℕ → List Char → List Char
unfolding pad_zero
pad_to width s = pad_zero (width - length s) s

unfoldable pub stroops_to_xlm : ℤ → ℕ → List Char
stroops_to_xlm stroops precision =
    let abs = magnitude stroops in
    let whole = abs / 10000000 in
    let fraction = abs % 10000000 in
    let frac_unit = u128 (10 ^ precision) in
    let total = u128 (u128 (whole * frac_unit) + scaled_fraction fraction precision) in
    let sign = if is_neg stroops then "-" ∷ [] else [] in
    sign ++ show (total / frac_unit) ++ "." ∷ pad_to precision (show (total % frac_unit))

-- `strip_prefix('-')`: whether the sign was there, and the rest
unfoldable pub strip_minus : List Char → Bool × List Char
strip_minus [] = (false, [])
strip_minus (c ∷ s) = if code c == b'-' then (true, s) else (false, c ∷ s)

-- `for _ in digits..7 { fraction *= 10 }`, with the rounds that are left
unfoldable pub pad_fraction : ℕ → ℕ → ℕ
pad_fraction zero fraction = fraction
pad_fraction (suc k) fraction = pad_fraction k (fraction * 10)

module _ {x : Externals} where
  pub invalid : List Char → AppError x
  invalid xlm = fee_calc ("invalid XLM value: " <> of_chars xlm)

  out_of_range : AppError x
  out_of_range = fee_calc "XLM value is out of range for stroops"

  -- `match parts.as_slice()`
  unfoldable pub two_parts :
      AppError x → List (List Char) → Result (AppError x) (List Char × List Char)
  two_parts e (whole ∷ []) = ok (whole, [])
  two_parts e (whole ∷ fraction ∷ []) = ok (whole, fraction)
  two_parts e _ = err e

  -- The checks on the whole part, and `whole_text.parse::<i64>()`.
  unfoldable pub parse_whole : AppError x → List Char → Result (AppError x) ℕ
  parse_whole e [] = err e
  parse_whole e (c ∷ s) =
      if all_digits (c ∷ s)
      then (if leb (value_from 0 (c ∷ s)) (pos_part i64_max)
          then ok (value_from 0 (c ∷ s))
          else err e)
      else err e

  -- The loop over the fraction's characters: the first seven digits count, the others are checked.
  unfoldable pub scan_fraction : AppError x → ℕ → ℕ → List Char → Result (AppError x) (ℕ × ℕ)
  scan_fraction e fraction digits [] = ok (fraction, digits)
  scan_fraction e fraction digits (c ∷ s) =
      let keep = ltb digits 7 in
      let rest =
        scan_fraction e (if keep then fraction * 10 + digit_value c else fraction)
          (if keep then digits + 1 else digits) s in
      if is_digit c then rest else err e

  -- `i64::try_from(signed)`
  unfoldable pub in_stroops : ℤ → Result (AppError x) ℤ
  unfolding out_of_range
  in_stroops signed = if in_i64 signed then ok signed else err out_of_range

  unfoldable pub xlm_to_stroops : List Char → AppResult x ℤ
  xlm_to_stroops xlm =
      let (negative, text) = strip_minus xlm in
      do
        (whole_text, fraction_text) ← two_parts (invalid xlm) (split b'.' text)
        whole ← parse_whole (invalid xlm) whole_text
        (fraction, digits) ← scan_fraction (invalid xlm) 0 0 fraction_text
        in_stroops (with_sign negative (whole * 10000000 + pad_fraction (7 - digits) fraction))
