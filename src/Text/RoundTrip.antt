-- ===== src/Text/RoundTrip.antt =====
-- The digits that `show` prints, read back.
use Prim.Native.Char.{Char, code}
use mathlib.Core.List.{cons-ne-nil}
use native.Mathlib.Nat.{pow-suc}
use soroban_cost_estimator.Prelude.{
  ℕ, zero, suc, ◌+◌, ◌/◌, ◌%◌, ◌^◌, ◌≤◌, ◌<◌, ◌≡◌, refl, ◌≢◌, true, List, [], ◌∷◌, ◌++◌, arith,
  length,
}
use soroban_cost_estimator.Text.{
  digit_char, is_digit, show_onto, show, pad_zero, value_from, all_digits, split,
}

pub code-digit_char : (d : ℕ) → d < 10 → code (digit_char d) ≡ b'0' + d
unfolding digit_char
code-digit_char zero h = refl
code-digit_char (suc zero) h = refl
code-digit_char (suc (suc zero)) h = refl
code-digit_char (suc (suc (suc zero))) h = refl
code-digit_char (suc (suc (suc (suc zero)))) h = refl
code-digit_char (suc (suc (suc (suc (suc zero))))) h = refl
code-digit_char (suc (suc (suc (suc (suc (suc zero)))))) h = refl
code-digit_char (suc (suc (suc (suc (suc (suc (suc zero))))))) h = refl
code-digit_char (suc (suc (suc (suc (suc (suc (suc (suc zero)))))))) h = refl
code-digit_char (suc (suc (suc (suc (suc (suc (suc (suc (suc zero))))))))) h = refl
code-digit_char (suc (suc (suc (suc (suc (suc (suc (suc (suc (suc d)))))))))) h =
    absurd (omega arith)

pub is_digit-digit_char : (d : ℕ) → d < 10 → is_digit (digit_char d) ≡ true
unfolding is_digit
is_digit-digit_char d h = ground (arith, code-digit_char d h)

-- The digits of n behind a number k: what `show_onto` puts in front of `out`.
value_from-show_onto :
    (f n : ℕ) (out : List Char) → n < f → value_from 0 (show_onto f n out) ≡ value_from n out
unfolding show_onto
value_from-show_onto zero n out h = absurd (omega arith)
value_from-show_onto (suc f) n out h = ground (
  arith,
  code-digit_char (n % 10) (omega arith),
  value_from-show_onto f (n / 10) (digit_char (n % 10) ∷ out),
)

pub value_from-show : (n : ℕ) → value_from 0 (show n) ≡ n
unfolding show
value_from-show n = value_from-show_onto (suc n) n [] (omega arith)

all_digits-show_onto :
    (f n : ℕ) (out : List Char) → all_digits out ≡ true → all_digits (show_onto f n out) ≡ true
unfolding show_onto
all_digits-show_onto zero n out h = h
all_digits-show_onto (suc f) n out h = ground (
  arith,
  is_digit-digit_char (n % 10) (omega arith),
  all_digits-show_onto f (n / 10) (digit_char (n % 10) ∷ out),
)

pub all_digits-show : (n : ℕ) → all_digits (show n) ≡ true
unfolding show
all_digits-show n = all_digits-show_onto (suc n) n [] refl

-- A number below 10 ^ (k + 1) has at most k + 1 digits.
length-show_onto :
    (f k n : ℕ) (out : List Char) → n < 10 ^ suc k → length (show_onto f n out) ≤ suc k + length out
unfolding show_onto
length-show_onto zero k n out h = omega arith
length-show_onto (suc f) zero n out h = ground (arith, pow-suc 10 0)
length-show_onto (suc f) (suc k) n out h =
    ground (arith, pow-suc 10 (suc k), length-show_onto f k (n / 10) (digit_char (n % 10) ∷ out))

pub length-show : (k n : ℕ) → n < 10 ^ suc k → length (show n) ≤ suc k
unfolding show
length-show k n h = omega (arith, length-show_onto (suc n) k n [] h)

show_onto-ne-nil : (f n : ℕ) (out : List Char) → out ≢ [] → show_onto f n out ≢ []
unfolding show_onto
show_onto-ne-nil zero n out h = h
show_onto-ne-nil (suc f) n out h = ground (
  arith,
  cons-ne-nil (digit_char (n % 10)) out,
  show_onto-ne-nil f (n / 10) (digit_char (n % 10) ∷ out),
)

pub show-ne-nil : (n : ℕ) → show n ≢ []
unfolding show show_onto
show-ne-nil n = ground (
  arith,
  cons-ne-nil (digit_char (n % 10)) [],
  show_onto-ne-nil n (n / 10) (digit_char (n % 10) ∷ []),
)

pub all_digits-pad_zero : (k : ℕ) (s : List Char) → all_digits (pad_zero k s) ≡ all_digits s
unfolding pad_zero is_digit
all_digits-pad_zero zero s = refl
all_digits-pad_zero (suc k) s = all_digits-pad_zero k s

pub value_from-pad_zero : (k : ℕ) (s : List Char) → value_from 0 (pad_zero k s) ≡ value_from 0 s
unfolding pad_zero
value_from-pad_zero zero s = refl
value_from-pad_zero (suc k) s = value_from-pad_zero k s

pub length-pad_zero : (k : ℕ) (s : List Char) → length (pad_zero k s) ≡ k + length s
unfolding pad_zero
length-pad_zero zero s = omega arith
length-pad_zero (suc k) s = omega (arith, length-pad_zero k s)

-- Digits hold no separator: they are one piece, and end at the separator behind them.
pub split-digits :
    (sep : ℕ) (s : List Char) → sep < b'0' → all_digits s ≡ true → split sep s ≡ s ∷ []
unfolding split is_digit
split-digits sep [] h d = refl
split-digits sep (c ∷ s) h d = ground (arith, split-digits sep s h)

pub split-append :
    (c : Char) (s t : List Char)
    → code c < b'0'
    → all_digits s ≡ true
    → split (code c) (s ++ c ∷ t) ≡ s ∷ split (code c) t
unfolding split is_digit
split-append c [] t h d = ground arith
split-append c (x ∷ s) t h d = ground (arith, split-append c s t h)
