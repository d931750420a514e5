-- ===== src/Text/Parse.antt =====
-- Rust's `str::trim` and `str::parse::<u64>`, on the characters of a text.
use Prim.Native.Char.{Char, code}
use soroban_cost_estimator.Prelude.{
  ℕ, ◌≡◌, refl, Bool, ◌||◌, ◌&&◌, leb, ◌==◌, if◌then◌else◌, Option, none, some, List, [], ◌∷◌,
}
use soroban_cost_estimator.Prelude.Machine.{u64_max}
use soroban_cost_estimator.Text.{chars, is_digit, value_from, all_digits}

-- `char::is_whitespace`: the Unicode property White_Space
unfoldable pub is_whitespace : Char → Bool
is_whitespace c =
    let n = code c in
    (leb 9 n && leb n 13)
    || n == 32
    || n == 133
    || n == 160
    || n == 5760
    || (leb 8192 n && leb n 8202)
    || n == 8232
    || n == 8233
    || n == 8239
    || n == 8287
    || n == 12288

unfoldable pub trim_start : List Char → List Char
trim_start [] = []
trim_start (c ∷ s) = let rest = trim_start s in if is_whitespace c then rest else c ∷ s

-- A character in front of a trimmed end.
abbrev before : Char → List Char → List Char
before c [] = if is_whitespace c then [] else c ∷ []
before c (d ∷ s) = c ∷ d ∷ s

unfoldable pub trim_end : List Char → List Char
trim_end [] = []
trim_end (c ∷ s) = before c (trim_end s)

unfoldable pub trim : List Char → List Char
trim s = trim_end (trim_start s)

-- Digits, at least one, of a number in range.
unfoldable pub parse_digits : List Char → Option ℕ
parse_digits [] = none
parse_digits (c ∷ s) =
    if all_digits (c ∷ s)
    then (if leb (value_from 0 (c ∷ s)) u64_max then some (value_from 0 (c ∷ s)) else none)
    else none

-- A plus sign may stand in front; a minus sign is an invalid digit.
unfoldable pub parse_u64 : List Char → Option ℕ
unfolding parse_digits
parse_u64 [] = none
parse_u64 (c ∷ s) = if code c == b'+' then parse_digits s else parse_digits (c ∷ s)

trim_test : trim (chars "  1 2 ") ≡ chars "1 2"
unfolding trim trim_start trim_end is_whitespace chars
trim_test = refl

parse_test : parse_u64 (chars "+120") ≡ some 120
unfolding parse_u64 parse_digits chars is_digit
parse_test = refl
