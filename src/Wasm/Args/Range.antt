-- ===== src/Wasm/Args/Range.antt =====
-- src/wasm/parser.rs, `validate_arg_value`: numbers printed in decimal.
use Prim.Native.Char.{Char, code}
use soroban_cost_estimator.Prelude.{
  ℕ, suc, ◌+◌, ◌-◌, ◌^◌, ◌≤◌, ◌≡◌, refl, ◌↔◌, Bool, true, false, any, leb, ◌==◌, none, some, List,
  [], ◌∷◌, ◌++◌, arith, ap, ◌∙◌,
}
use soroban_cost_estimator.Prelude.Int.{ℤ, pos, negsuc, pos_part, neg_part}
use soroban_cost_estimator.Text.{chars, show, show_ℤ, is_digit, all_digits, value_from}
use soroban_cost_estimator.Text.RoundTrip.{value_from-show, all_digits-show, show-ne-nil}
use soroban_cost_estimator.Text.Search.{split_once, strip_prefix}
use soroban_cost_estimator.Error.{Externals, ok}
use soroban_cost_estimator.Wasm.Args.{
  ScSpecTypeDef, u32, i32, u64, i64, timepoint, duration, u128, i128, u256, i256, digits_within,
  is_unsigned, is_signed, is_wide_integer, is_wide, hex_prefix, all, arg_value, accepts,
  validate_arg_value,
}

-- The types of numbers, and the integers that the check lets pass for each: those of the type, and
-- for the two types of 256 bits every integer.
abbrev pub is_number : ScSpecTypeDef → Bool
is_number u32 = true
is_number i32 = true
is_number u64 = true
is_number timepoint = true
is_number duration = true
is_number i64 = true
is_number u128 = true
is_number i128 = true
is_number u256 = true
is_number i256 = true
is_number _ = false

abbrev pub Between : (low high : ℕ) → ℤ → Type 0
Between low high z = (neg_part z ≤ low) × (pos_part z ≤ high)

abbrev pub Passes : ScSpecTypeDef → ℤ → Type 0
Passes u32 = Between 0 (2 ^ 32 - 1)
Passes i32 = Between (2 ^ 31) (2 ^ 31 - 1)
Passes u64 = Between 0 (2 ^ 64 - 1)
Passes timepoint = Between 0 (2 ^ 64 - 1)
Passes duration = Between 0 (2 ^ 64 - 1)
Passes i64 = Between (2 ^ 63) (2 ^ 63 - 1)
Passes u128 = Between 0 (2 ^ 128 - 1)
Passes i128 = Between (2 ^ 127) (2 ^ 127 - 1)
Passes _ = λ z. Unit

split_key :
    (key value : List Char)
    → any (λ c. code c == b'=') key ≡ false
    → split_once (chars "=") (key ++ "=" ∷ value) ≡ some (key, value)
unfolding split_once strip_prefix chars
split_key [] value h = refl
split_key (c ∷ key) value h = ground (arith, split_key key value)

arg_value-key :
    (key value : List Char)
    → any (λ c. code c == b'=') key ≡ false
    → arg_value (key ++ "=" ∷ value) ≡ value
unfolding arg_value
arg_value-key key value h = rw (split_key key value h) refl

pub digits_within-show : (bound n : ℕ) → digits_within bound (show n) ≡ leb n bound
digits_within-show bound n = of (show n) (show-ne-nil n) (all_digits-show n) (value_from-show n)
  where
    of :
        (s : List Char)
        → ¬ (s ≡ [])
        → all_digits s ≡ true
        → value_from 0 s ≡ n
        → digits_within bound s ≡ leb n bound
    of [] h d v = absurd (h refl)
    of (c ∷ s) h d v = ground arith

-- The first character of a printed number is a digit, so it is no sign.
is_unsigned-digits :
    (high : ℕ) (s : List Char) → all_digits s ≡ true → is_unsigned high s ≡ digits_within high s
unfolding is_unsigned is_digit
is_unsigned-digits high [] d = refl
is_unsigned-digits high (c ∷ s) d = ground arith

is_signed-digits :
    (low high : ℕ) (s : List Char)
    → all_digits s ≡ true
    → is_signed low high s ≡ digits_within high s
unfolding is_signed is_digit
is_signed-digits low high [] d = refl
is_signed-digits low high (c ∷ s) d = ground arith

is_unsigned-show :
    (high : ℕ) (z : ℤ)
    → (is_unsigned high (show_ℤ z) ≡ true) ↔ ((neg_part z ≤ 0) × (pos_part z ≤ high))
unfolding show_ℤ is_unsigned is_digit
is_unsigned-show high (pos n) =
    let e = is_unsigned-digits high (show n) (all_digits-show n) in
    ground (arith, e, digits_within-show high n)
is_unsigned-show high (negsuc n) = ground arith

is_signed-show :
    (low high : ℕ) (z : ℤ)
    → (is_signed low high (show_ℤ z) ≡ true) ↔ ((neg_part z ≤ low) × (pos_part z ≤ high))
unfolding show_ℤ is_signed is_digit
is_signed-show low high (pos n) =
    let e = is_signed-digits low high (show n) (all_digits-show n) in
    ground (arith, e, digits_within-show high n)
is_signed-show low high (negsuc n) = ground (arith, digits_within-show low (suc n))

-- Digits have no prefix `0x`.
hex_prefix-digits : (s : List Char) → all_digits s ≡ true → hex_prefix s ≡ none
unfolding hex_prefix strip_prefix chars is_digit
hex_prefix-digits [] d = refl
hex_prefix-digits (c ∷ []) d = ground arith
hex_prefix-digits (c ∷ e ∷ s) d = ground arith

all_digit : (s : List Char) → all_digits s ≡ true → all is_digit s ≡ true
all_digit [] d = refl
all_digit (c ∷ s) d = ground (arith, all_digit s)

no_sign : (s : List Char) → all_digits s ≡ true → strip_prefix (chars "-") s ≡ none
unfolding strip_prefix chars is_digit
no_sign [] d = refl
no_sign (c ∷ s) d = ground arith

is_wide-show : (n : ℕ) → is_wide (show n) (hex_prefix (show n)) ≡ true
is_wide-show n =
    rw (hex_prefix-digits (show n) (all_digits-show n))
      (of (show n) (show-ne-nil n) (all_digits-show n))
  where
    of : (s : List Char) → ¬ (s ≡ []) → all_digits s ≡ true → is_wide s none ≡ true
    of [] h d = absurd (h refl)
    of (c ∷ s) h d = all_digit (c ∷ s) d

is_wide_integer-digits :
    (s : List Char)
    → all_digits s ≡ true
    → is_wide s (hex_prefix s) ≡ true
    → is_wide_integer s ≡ true
unfolding is_wide_integer
is_wide_integer-digits s d h = rw (no_sign s d) h

is_wide_integer-minus :
    (s : List Char) → is_wide s (hex_prefix s) ≡ true → is_wide_integer ("-" ∷ s) ≡ true
unfolding is_wide_integer strip_prefix chars
is_wide_integer-minus s h = h

pub show_neg : (n : ℕ) → show_ℤ (negsuc n) ≡ "-" ∷ show (0 + suc n)
unfolding show_ℤ
show_neg n = ground arith

is_wide_integer-show : (z : ℤ) → is_wide_integer (show_ℤ z) ≡ true
unfolding show_ℤ
is_wide_integer-show (pos n) =
    is_wide_integer-digits (show (n + 0)) (all_digits-show (n + 0)) (is_wide-show (n + 0))
is_wide_integer-show (negsuc n) =
    ap is_wide_integer (show_neg n)
    ∙ is_wide_integer-minus (show (0 + suc n)) (is_wide-show (0 + suc n))

accepts-show :
    (t : ScSpecTypeDef) (z : ℤ) → is_number t ≡ true → (accepts t (show_ℤ z) ≡ true) ↔ Passes t z
unfolding accepts
accepts-show u32 z h = is_unsigned-show (2 ^ 32 - 1) z
accepts-show i32 z h = is_signed-show (2 ^ 31) (2 ^ 31 - 1) z
accepts-show u64 z h = is_unsigned-show (2 ^ 64 - 1) z
accepts-show timepoint z h = is_unsigned-show (2 ^ 64 - 1) z
accepts-show duration z h = is_unsigned-show (2 ^ 64 - 1) z
accepts-show i64 z h = is_signed-show (2 ^ 63) (2 ^ 63 - 1) z
accepts-show u128 z h = is_unsigned-show (2 ^ 128 - 1) z
accepts-show i128 z h = is_signed-show (2 ^ 127) (2 ^ 127 - 1) z
accepts-show u256 z h = (λ _. tt, λ _. is_wide_integer-show z)
accepts-show i256 z h = (λ _. tt, λ _. is_wide_integer-show z)
accepts-show t z h = absurd (cc)

-- An argument `key=value` whose value is an integer printed in decimal is accepted for a type of
-- numbers exactly when the integer lies in the type's range, and for the two types of 256 bits
-- always: a negative number passes for an unsigned type.
pub validate_arg_value-show_iff :
    {x : Externals} (t : ScSpecTypeDef) (key : List Char) (z : ℤ)
    → is_number t ≡ true
    → any (λ c. code c == b'=') key ≡ false
    → (validate_arg_value {x = x} t (key ++ "=" ∷ show_ℤ z) ≡ ok tt) ↔ Passes t z
unfolding validate_arg_value
validate_arg_value-show_iff t key z number plain =
    let value = arg_value-key key (show_ℤ z) plain in ground (arith, value, accepts-show t z number)
