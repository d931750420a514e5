-- ===== src/Report/Thousands.antt =====
-- src/report/cost_report.rs, `group_digits` and the prints that use it.
pub mod Groups
use Prim.Native.Char.{Char}
use soroban_cost_estimator.Prelude.{
  ℕ, suc, ◌+◌, ◌-◌, ◌*◌, ◌<◌, ◌≡◌, refl, ◌%◌, Bool, ltb, ◌==◌, ◌&&◌, if◌then◌else◌, List, [], ◌∷◌,
  length,
}
use soroban_cost_estimator.Prelude.Int.{ℤ, is_neg, magnitude}
use soroban_cost_estimator.Text.{chars, show}

-- The loop over the digits behind `index`, of `len` digits in all.
unfoldable pub group_from : ℕ → ℕ → List Char → List Char
group_from len index [] = []
group_from len index (digit ∷ digits) =
    let rest = digit ∷ group_from len (index + 1) digits in
    if ltb 0 index && ((len - index) % 3 == 0) then "," ∷ rest else rest

unfoldable pub group_digits : List Char → List Char
unfolding group_from
group_digits digits = group_from (length digits) 0 digits

unfoldable pub format_thousands : ℤ → List Char
format_thousands value =
    let grouped = group_digits (show (magnitude value)) in
    if is_neg value then "-" ∷ grouped else grouped

unfoldable pub format_thousands_u64 : ℕ → List Char
format_thousands_u64 value = group_digits (show value)

unfoldable pub format_ledger_sequence : ℕ → List Char
format_ledger_sequence ledger = group_digits (show ledger)

group_test : group_digits (chars "1234567") ≡ chars "1,234,567"
unfolding group_digits group_from chars
group_test = refl
