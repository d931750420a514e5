-- ===== src/Rpc/Simulate.antt =====
-- src/rpc/simulate.rs: the resource fee of a simulation. A text is the list of its characters; the
-- base64 decoder is a parameter. A slice out of range panics.
pub mod Fee
use Prim.Native.Char.{Char, code}
use Prim.Native.String.{String}
use soroban_cost_estimator.Prelude.{
  ℕ, zero, suc, ◌+◌, ◌-◌, ◌*◌, ◌^◌, Bool, true, false, ltb, ◌==◌, if◌then◌else◌, Option, none, some,
  List, [], ◌∷◌, length,
}
use soroban_cost_estimator.Prelude.Int.{ℤ, pos, negsuc, sub_ℕ}
use soroban_cost_estimator.Text.{◌<>◌, value_from}
use soroban_cost_estimator.Text.Parse.{trim}
use soroban_cost_estimator.Error.{Externals, AppError, general, ok, err, AppResult}
use soroban_cost_estimator.Wasm.Args.{digits_within}

abbrev checked : Bool → ℤ → Option ℤ
checked true z = some z
checked false z = none

-- `parse::<i64>`
unfoldable pub parse_i64 : List Char → Option ℤ
parse_i64 [] = none
parse_i64 (c ∷ s) =
    if code c == b'-'
    then checked (digits_within (2 ^ 63) s) (sub_ℕ 0 (value_from 0 s))
    else if code c == b'+'
    then checked (digits_within (2 ^ 63 - 1) s) (pos (value_from 0 s))
    else checked (digits_within (2 ^ 63 - 1) (c ∷ s)) (pos (value_from 0 (c ∷ s)))

-- A call returns or panics.
pub data Outcome (A : Type 0) : Type 0 where
  returns : A → Outcome A
  panics : Outcome A

-- The first n bytes, or nothing if there are fewer.
abbrev pub with_head : ℕ → Option (List ℕ) → Option (List ℕ)
with_head b none = none
with_head b (some bs) = some (b ∷ bs)

unfoldable pub first_bytes : ℕ → List ℕ → Option (List ℕ)
first_bytes zero bytes = some []
first_bytes (suc n) [] = none
first_bytes (suc n) (b ∷ bytes) = with_head b (first_bytes n bytes)

abbrev pub be_from : ℕ → List ℕ → ℕ
be_from n [] = n
be_from n (b ∷ bytes) = be_from (n * 256 + b) bytes

-- `i64::from_be_bytes`
unfoldable pub i64_from_be_bytes : List ℕ → ℤ
i64_from_be_bytes bytes =
    let n = be_from 0 bytes in if ltb n (2 ^ 63) then pos n else sub_ℕ n (2 ^ 64)

module _ {x : Externals} (decode : List Char → Option (List ℕ))
    (decode_error : List Char → String) where
  -- The slice `bytes[..8]`, which is taken before its length is checked.
  abbrev pub of_slice : Option (List ℕ) → Outcome (AppResult x (Option ℤ))
  of_slice none = panics
  of_slice (some fee_bytes) = returns (ok (some (i64_from_be_bytes fee_bytes)))

  abbrev pub of_bytes : List Char → Option (List ℕ) → Outcome (AppResult x (Option ℤ))
  of_bytes fee_str none =
      returns (err (general ("resource fee: invalid base64: " <> decode_error fee_str)))
  of_bytes fee_str (some bytes) = of_slice (first_bytes 8 bytes)

  abbrev pub of_number : List Char → Option ℤ → Outcome (AppResult x (Option ℤ))
  of_number fee_str (some stroops) = returns (ok (some stroops))
  of_number fee_str none = of_bytes fee_str (decode fee_str)

  unfoldable pub parse_resource_fee : Option (List Char) → Outcome (AppResult x (Option ℤ))
  unfolding parse_i64 trim first_bytes i64_from_be_bytes
  parse_resource_fee none = returns (ok none)
  parse_resource_fee (some fee_str) = of_number fee_str (parse_i64 (trim fee_str))
