-- ===== src/Text.antt =====
-- Decimal print and read-back, and the walks over a text that the program makes with Rust's
-- standard library (`Display` of integers, `chars`, `split`). A text is the native `String`.
pub mod RoundTrip
pub mod Parse
pub mod Search
use Prim.Native.Char.{Char, code}
use Prim.Native.String
use Prim.Native.String.{String}
use soroban_cost_estimator.Prelude.{
  ℕ, zero, suc, ◌+◌, ◌-◌, ◌*◌, ◌/◌, ◌%◌, ◌≡◌, refl, Bool, true, ◌&&◌, Option, none, some, List, [],
  ◌∷◌, leb, ltb, ◌==◌, if◌then◌else◌,
}
use soroban_cost_estimator.Prelude.Int.{ℤ, magnitude, is_neg}

infixr 65 ◌<>◌
abbrev pub ◌<>◌ : String → String → String
s <> t = String.◌++◌ s t

unfoldable pub chars : String → List Char
chars String.[] = []
chars (String.◌∷◌ c s) = c ∷ chars s

pub of_chars : List Char → String
of_chars [] = String.[]
of_chars (c ∷ s) = String.◌∷◌ c (of_chars s)

-- The character of a decimal digit.
unfoldable pub digit_char : ℕ → Char
digit_char zero = "0"
digit_char (suc zero) = "1"
digit_char (suc (suc zero)) = "2"
digit_char (suc (suc (suc zero))) = "3"
digit_char (suc (suc (suc (suc zero)))) = "4"
digit_char (suc (suc (suc (suc (suc zero))))) = "5"
digit_char (suc (suc (suc (suc (suc (suc zero)))))) = "6"
digit_char (suc (suc (suc (suc (suc (suc (suc zero))))))) = "7"
digit_char (suc (suc (suc (suc (suc (suc (suc (suc zero)))))))) = "8"
digit_char _ = "9"

-- `is_ascii_digit`
unfoldable pub is_digit : Char → Bool
is_digit c = leb b'0' (code c) && leb (code c) b'9'

-- The value of a digit: `to_digit(10)` where `is_digit` holds.
abbrev pub digit_value : Char → ℕ
digit_value c = code c - b'0'

-- The decimal digits of n in front of `out`. A round divides n by ten.
unfoldable pub show_onto : ℕ → ℕ → List Char → List Char
show_onto zero n out = out
show_onto (suc f) n out =
    let last = digit_char (n % 10) ∷ out in
    let rest = show_onto f (n / 10) last in if ltb n 10 then last else rest

-- `{n}` for an unsigned integer
unfoldable pub show : ℕ → List Char
unfolding show_onto digit_char
show n = show_onto (suc n) n []

-- `{z}` for a signed integer
unfoldable pub show_ℤ : ℤ → List Char
unfolding show
show_ℤ z = if is_neg z then "-" ∷ show (magnitude z) else show (magnitude z)

-- `{n:0width$}`: zeros in front, up to `width` characters
unfoldable pub pad_zero : ℕ → List Char → List Char
pad_zero zero s = s
pad_zero (suc k) s = "0" ∷ pad_zero k s

-- The number that digits spell behind `n`.
abbrev pub value_from : ℕ → List Char → ℕ
value_from n [] = n
value_from n (c ∷ s) = value_from (n * 10 + digit_value c) s

abbrev pub all_digits : List Char → Bool
all_digits [] = true
all_digits (c ∷ s) = is_digit c && all_digits s

-- `split(sep)`: the first piece and the pieces behind it
abbrev pub cons_first : Char → List (List Char) → List (List Char)
cons_first c [] = (c ∷ []) ∷ []
cons_first c (p ∷ ps) = (c ∷ p) ∷ ps

unfoldable pub split : ℕ → List Char → List (List Char)
split sep [] = [] ∷ []
split sep (c ∷ s) =
    let pieces = split sep s in if code c == sep then [] ∷ pieces else cons_first c pieces

show_test : of_chars (show 1230456789) ≡ "1230456789"
unfolding show of_chars
show_test = refl

split_test : split b'.' (chars "12.5.") ≡ chars "12" ∷ chars "5" ∷ [] ∷ []
unfolding split chars
split_test = refl
