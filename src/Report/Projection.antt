-- ===== src/Report/Projection.antt =====
-- src/report/cost_report.rs, `parse_projection_counts` and `calculate_projections`. The set `seen`
-- is the list of the counts so far; the arithmetic of f64 is a parameter.
pub mod Parsed
pub mod Exact
use Prim.Native.String.{String}
use Prim.Native.Char.{Char, code}
use soroban_cost_estimator.Prelude.{
  ℕ, ◌==◌, ltb, if◌then◌else◌, any, Option, none, some, List, [], ◌∷◌,
}
use soroban_cost_estimator.Prelude.Int.{ℤ, pos_part, scale}
use soroban_cost_estimator.Prelude.Machine.{i64_max}
use soroban_cost_estimator.Text.{◌<>◌, of_chars, show, show_ℤ, split}
use soroban_cost_estimator.Text.Parse.{trim, parse_u64}
use soroban_cost_estimator.Error.{Externals, AppError, fee_calc, Result, ok, err, AppResult, ◌>>=◌}
use soroban_cost_estimator.Fee.Scaled.{in_i64}
use soroban_cost_estimator.Fee.Xlm.{stroops_to_xlm}
use soroban_cost_estimator.Report.Model.{CostProjection}

module _ {x : Externals} where
  pub invalid_count : List Char → String → AppError x
  invalid_count part reason =
      fee_calc ("invalid projection count '" <> of_chars part <> "': " <> reason)

  -- The checks on a number that was parsed, in their order.
  unfoldable pub check_count : List ℕ → List Char → ℕ → AppResult x ℕ
  check_count seen part count =
      if count == 0
      then err (fee_calc "invalid projection count '0': count must be greater than zero")
      else if ltb (pos_part i64_max) count
      then err (
          invalid_count part
            ("value exceeds maximum supported limit (" <> of_chars (show_ℤ i64_max) <> ")"))
      else if any (λ k. k == count) seen
      then err (fee_calc ("duplicate projection count: " <> of_chars (show count)))
      else ok count

  abbrev pub parsed_count : List ℕ → List Char → Option ℕ → AppResult x ℕ
  parsed_count seen part none = err (invalid_count part "must be a positive integer")
  parsed_count seen part (some count) = check_count seen part count

  -- The body of the loop, on a part that is trimmed.
  unfoldable pub parse_count : List ℕ → List Char → AppResult x ℕ
  unfolding check_count
  parse_count seen [] = err (fee_calc "projection counts contain an empty value")
  parse_count seen (c ∷ s) =
      if code c == b'-'
      then err (invalid_count (c ∷ s) "count cannot be negative")
      else parsed_count seen (c ∷ s) (parse_u64 (c ∷ s))

  -- The loop over the parts.
  unfoldable pub parse_counts : List ℕ → List (List Char) → AppResult x (List ℕ)
  parse_counts seen [] = ok []
  parse_counts seen (raw_part ∷ parts) = do
    count ← parse_count seen (trim raw_part)
    counts ← parse_counts (count ∷ seen) parts
    ok (count ∷ counts)

  abbrev pub unless_empty : List Char → AppResult x (List ℕ)
  unless_empty [] = err (fee_calc "projection counts cannot be empty")
  unless_empty (c ∷ s) = parse_counts [] (split b',' (c ∷ s))

  unfoldable pub parse_projection_counts : List Char → AppResult x (List ℕ)
  unfolding parse_counts
  parse_projection_counts input = unless_empty (trim input)

-- What the projections use of f64.
pub record UsdFloats : Type 1 where
  pub F64 : Type 0
  pub of_i64 : ℤ → F64
  pub div : F64 → F64 → F64
  pub mul : F64 → F64 → F64
  pub stroops_per_xlm : F64

module _ {x : Externals} (floats : UsdFloats) where
  unfoldable pub projection :
      ℤ → ℕ → ℕ → Option floats.F64 → AppResult x (CostProjection floats.F64)
  projection total_fee_stroops precision count xlm_usd_price =
      let projected_stroops = scale count total_fee_stroops in
      if ltb (pos_part i64_max) count
      then err (
          fee_calc (
            "projection count "
            <> of_chars (show count)
            <> " exceeds maximum supported integer value"))
      else if in_i64 projected_stroops
      then ok (record {
        invocations = count;
        total_stroops = projected_stroops;
        total_xlm = stroops_to_xlm projected_stroops precision;
        usd = usd_of xlm_usd_price projected_stroops;
      })
      else err (
          fee_calc (
            "cost projection overflow: "
            <> of_chars (show_ℤ total_fee_stroops)
            <> " stroops * "
            <> of_chars (show count)
            <> " invocations exceeds integer bounds"))
    where
      usd_of : Option floats.F64 → ℤ → Option floats.F64
      usd_of none stroops = none
      usd_of (some price) stroops =
          some (floats.mul (floats.div (floats.of_i64 stroops) floats.stroops_per_xlm) price)

  unfoldable pub calculate_projections :
      ℤ → List ℕ → ℕ → Option floats.F64 → AppResult x (List (CostProjection floats.F64))
  unfolding projection
  calculate_projections total_fee_stroops [] precision xlm_usd_price = ok []
  calculate_projections total_fee_stroops (count ∷ counts) precision xlm_usd_price = do
    first ← projection total_fee_stroops precision count xlm_usd_price
    rest ← calculate_projections total_fee_stroops counts precision xlm_usd_price
    ok (first ∷ rest)
