-- ===== src/Report/Thousands/Groups.antt =====
-- src/report/cost_report.rs, `format_thousands`: the groups of a printed number.
use Prim.Native.Char.{Char}
use mathlib.Core.List.{flatten}
use soroban_cost_estimator.Prelude.{
  ℕ, suc, ◌+◌, ◌-◌, ◌<◌, ◌≤◌, ◌≡◌, refl, ◌⊎◌, inl, inr, ◌%◌, true, if◌then◌else◌, List, [], ◌∷◌,
  length, All, arith, ap, sym, ◌∙◌,
}
use soroban_cost_estimator.Prelude.Int.{ℤ, is_neg, magnitude}
use soroban_cost_estimator.Text.{is_digit, split, cons_first, show, all_digits}
use soroban_cost_estimator.Text.RoundTrip.{all_digits-show, show-ne-nil}
use soroban_cost_estimator.Report.Thousands.{group_from, group_digits, format_thousands}

-- A first piece of k characters, every other piece of three, and `digits` when they are joined.
abbrev Pieces : ℕ → List Char → List (List Char) → Type 0
Pieces k digits [] = ⊥
Pieces k digits (p ∷ ps) =
    (length p ≡ k) × All (λ (q : List Char). length q ≡ 3) ps × (flatten (p ∷ ps) ≡ digits)

-- A digit in front of a text is in front of its first piece.
split-digit :
    (c : Char) (text : List Char)
    → is_digit c ≡ true
    → split b',' (c ∷ text) ≡ cons_first c (split b',' text)
unfolding split is_digit
split-digit c text d = ground arith

Pieces-cons_first :
    (k : ℕ) (c : Char) (digits : List Char) (pieces : List (List Char))
    → Pieces k digits pieces
    → Pieces (suc k) (c ∷ digits) (cons_first c pieces)
unfolding flatten
Pieces-cons_first k c digits [] h = absurd h
Pieces-cons_first k c digits (p ∷ ps) h = (ap suc h.0, h.1, ap (λ (t : List Char). c ∷ t) h.2)

Pieces-cons :
    (k : ℕ) (c : Char) (text digits : List Char)
    → is_digit c ≡ true
    → Pieces k digits (split b',' text)
    → Pieces (suc k) (c ∷ digits) (split b',' (c ∷ text))
Pieces-cons k c text digits d h =
    let pieces = Pieces-cons_first k c digits (split b',' text) h in
    rw (split-digit c text d) pieces

-- A comma starts a piece.
Pieces-comma :
    (digits : List Char) (pieces : List (List Char))
    → Pieces 3 digits pieces
    → Pieces 0 digits ([] ∷ pieces)
unfolding flatten
Pieces-comma digits [] h = absurd h
Pieces-comma digits (p ∷ ps) h = (refl, (h.0, h.1), h.2)

group-or-not :
    (len index : ℕ) (c : Char) (s : List Char)
    → 0 < index
    → index + suc (length s) ≡ len
    → let rest = c ∷ group_from len (index + 1) s in
      ((length s % 3 ≡ 2) × (suc (length s) % 3 ≡ 0) × (group_from len index (c ∷ s) ≡ "," ∷ rest))
      ⊎ ((suc (length s) % 3 ≡ suc (length s % 3)) × (group_from len index (c ∷ s) ≡ rest))
unfolding group_from
group-or-not len index c s h e =
    let left : len - index ≡ suc (length s) = omega (arith, e) in ground (arith, left)

group_from-Pieces :
    (len index : ℕ) (digits : List Char)
    → 0 < index
    → index + length digits ≡ len
    → all_digits digits ≡ true
    → Pieces (length digits % 3) digits (split b',' (group_from len index digits))
unfolding group_from split flatten
group_from-Pieces len index [] h e d = (refl, tt, refl)
group_from-Pieces len index (c ∷ s) h e d =
    let digit : (is_digit c ≡ true) × (all_digits s ≡ true) = ground arith in
    let rest = group_from-Pieces len (index + 1) s (omega arith) (omega (arith, e)) digit.1 in
    let first = Pieces-cons (length s % 3) c (group_from len (index + 1) s) s digit.0 rest in
    elim (group-or-not len index c s h e) [
      | inl (two, nought, at_comma) ↦
          (let three : Pieces 3 (c ∷ s) (split b',' (c ∷ group_from len (index + 1) s)) =
              rw two at first in
            rw (at_comma, nought)
              (Pieces-comma (c ∷ s) (split b',' (c ∷ group_from len (index + 1) s)) three))
      | inr (same, plain) ↦ rw (plain, same) first
    ]

-- The groups of a number: a first group of one to three digits, all other groups of three, which
-- joined are the decimal digits of the number.
abbrev pub Groups : ℕ → List (List Char) → Type 0
Groups n [] = ⊥
Groups n (p ∷ ps) =
    (0 < length p)
    × (length p ≤ 3)
    × All (λ (q : List Char). length q ≡ 3) ps
    × (flatten (p ∷ ps) ≡ show n)

Groups-Pieces :
    (n k : ℕ) (digits : List Char) (pieces : List (List Char))
    → k < 3
    → show n ≡ digits
    → Pieces (suc k) digits pieces
    → Groups n pieces
Groups-Pieces n k digits [] h e p = absurd p
Groups-Pieces n k digits (q ∷ qs) h e p = (omega (arith, p.0), omega (arith, p.0), p.1, p.2 ∙ sym e)

group_digits-Groups :
    (n : ℕ) (digits : List Char) → show n ≡ digits → Groups n (split b',' (group_digits digits))
unfolding group_digits group_from
group_digits-Groups n [] e = absurd (show-ne-nil n e)
group_digits-Groups n (c ∷ s) e =
    let printed : all_digits (c ∷ s) ≡ true = rw e at (all_digits-show n) in
    let digit : (is_digit c ≡ true) × (all_digits s ≡ true) = ground arith in
    let rest = group_from-Pieces (length (c ∷ s)) 1 s (omega arith) (omega arith) digit.1 in
    Groups-Pieces n (length s % 3) (c ∷ s) _ (omega arith) e
      (Pieces-cons (length s % 3) c (group_from (length (c ∷ s)) 1 s) s digit.0 rest)

-- The print of an integer is a minus sign for a negative one and then a text that, split at its
-- commas, has a first group of one to three digits and otherwise groups of three, and joined
-- without the commas is the decimal print of the integer's magnitude.
pub format_thousands-Groups :
    (z : ℤ)
    → (text : List Char) × (format_thousands z ≡ (if is_neg z then "-" ∷ text else text))
      × Groups (magnitude z) (split b',' text)
unfolding format_thousands
format_thousands-Groups z = (
  group_digits (show (magnitude z)),
  refl,
  group_digits-Groups (magnitude z) (show (magnitude z)) refl,
)
