-- ===== src/Snapshot/Diff/Csv/Reader.antt =====
-- A reader of CSV by RFC 4180, for the output of `format_diff_csv` (src/config_snapshot/diff.rs). It
-- differs from the RFC in that a line feed ends a row, as the program writes it, not the pair of a
-- carriage return and a line feed, and in that characters beyond ASCII may stand in a field.
use Prim.Native.Char.{Char, code}
use text.Mathlib.TextEquality.{Char-path}
use soroban_cost_estimator.Prelude.{
  ==_iff, ◌≡◌, refl, Bool, true, false, ◌||◌, ◌==◌, ◌++◌, inl, inr, Bool-cases, List, [], ◌∷◌,
  if◌then◌else◌, ap, arith, Option, none, some, ◌&&◌, not, ◌∙◌,
}
use soroban_cost_estimator.Snapshot.Diff.Csv.{comma, quote, newline, contains, doubled, csv_escape}

abbrev pub carriage_return : Char
carriage_return = "\r"

abbrev pub ends : Char → Bool
ends c = code c == code comma || code c == code newline

-- A character that only a field in quotes may hold, beside those that end a field.
abbrev barred : Char → Bool
barred c = code c == code quote || code c == code carriage_return

abbrev pub Reading : Type 0
Reading = Option (List Char × List Char)

abbrev push : Char → Reading → Reading
push c none = none
push c (some (field, rest)) = some (c ∷ field, rest)

-- A field without quotes ends at a comma or a line feed, and holds no quote and no carriage return.
unfoldable pub plain : List Char → Reading
plain [] = some ([], [])
plain (c ∷ s) =
    let rest = plain s in
    if ends c then some ([], c ∷ s) else if barred c then none else push c rest

-- The inside of a field in quotes: two quotes stand for one, and a quote alone ends it. The flag
-- says whether the character before was a quote that is still open to be doubled.
unfoldable pub inside : Bool → List Char → Reading
inside true [] = some ([], [])
inside false [] = none
inside true (c ∷ s) =
    let rest = inside false s in if code c == code quote then push quote rest else some ([], c ∷ s)
inside false (c ∷ s) =
    let closing = inside true s in
    let rest = inside false s in if code c == code quote then closing else push c rest

unfoldable pub read_field : List Char → Reading
read_field [] = some ([], [])
read_field (c ∷ s) = if code c == code quote then inside false s else plain (c ∷ s)

-- The field must end with the separator, which is dropped.
abbrev cut : Char → Reading → Reading
cut sep none = none
cut sep (some (field, [])) = none
cut sep (some (field, c ∷ s)) = if code c == code sep then some (field, s) else none

unfoldable pub cell : Char → List Char → Reading
unfolding read_field
cell sep s = cut sep (read_field s)

-- A carriage return in a value without a comma, a quote and a line feed.
abbrev pub bare_return : List Char → Bool
bare_return s =
    contains carriage_return s && not (contains comma s || (contains quote s || contains newline s))

or_false : (a b : Bool) → (a || b) ≡ false → (a ≡ false) × (b ≡ false)
or_false true b h = absurd (cc)
or_false false b h = (refl, h)

plain-read :
    (s : List Char) (t : Char) (r : List Char)
    → ends t ≡ true
    → contains comma s ≡ false
    → contains quote s ≡ false
    → contains newline s ≡ false
    → plain (s ++ t ∷ r) ≡ (if contains carriage_return s then none else some (s, t ∷ r))
unfolding plain
plain-read [] t r ht hc hq hn = rw ht refl
plain-read (c ∷ s) t r ht hc hq hn =
    let (c0, cs) = or_false (code c == code comma) (contains comma s) hc in
    let (q0, qs) = or_false (code c == code quote) (contains quote s) hq in
    let (n0, ns) = or_false (code c == code newline) (contains newline s) hn in
    elim (Bool-cases (code c == code carriage_return)) [
      | inl cr ↦ rw (c0, n0, q0, cr) refl
      | inr other ↦
          rw (c0, n0, q0, other, plain-read s t r ht cs qs ns)
            (elim (Bool-cases (contains carriage_return s)) [
              | inl later ↦ rw later refl
              | inr none_at_all ↦ rw none_at_all refl
            ])
    ]

same_char : (c d : Char) → (code c == code d) ≡ true → c ≡ d
same_char c d h = Char-path c d ((==_iff _ _).0 h)

inside-doubled :
    (s : List Char) (t : Char) (r : List Char)
    → (code t == code quote) ≡ false
    → inside false (doubled s ++ quote ∷ t ∷ r) ≡ some (s, t ∷ r)
unfolding inside doubled
inside-doubled [] t r ht = rw ht refl
inside-doubled (c ∷ s) t r ht = elim (Bool-cases (code c == code quote)) [
  | inl q ↦ rw (q, inside-doubled s t r ht, same_char c quote q) refl
  | inr o ↦ rw o (rw o (rw (inside-doubled s t r ht) refl))
]

ends-not_quote : (t : Char) → ends t ≡ true → (code t == code quote) ≡ false
ends-not_quote t h = ground arith

append_last : (s : List Char) (c : Char) (r : List Char) → (s ++ c ∷ []) ++ r ≡ s ++ c ∷ r
append_last [] c r = refl
append_last (d ∷ s) c r = ap (λ l. d ∷ l) (append_last s c r)

unquoted :
    (c : Char) (s : List Char) → (code c == code quote) ≡ false → read_field (c ∷ s) ≡ plain (c ∷ s)
unfolding read_field
unquoted c s h = rw h refl

and_false : (b : Bool) → (b && false) ≡ false
and_false true = refl
and_false false = refl

and_true : (b : Bool) → (b && true) ≡ b
and_true true = refl
and_true false = refl

read_field-plain :
    (s : List Char) (t : Char) (r : List Char)
    → ends t ≡ true
    → contains comma s ≡ false
    → contains quote s ≡ false
    → contains newline s ≡ false
    → read_field (s ++ t ∷ r) ≡ (if contains carriage_return s then none else some (s, t ∷ r))
unfolding read_field plain
read_field-plain [] t r ht hc hq hn = rw (ends-not_quote t ht, ht) refl
read_field-plain (c ∷ s) t r ht hc hq hn =
    let (q0, qs) = or_false (code c == code quote) (contains quote s) hq in
    unquoted c (s ++ t ∷ r) q0 ∙ plain-read (c ∷ s) t r ht hc hq hn

-- A value that the program escapes is read back as itself in front of a comma or a line feed,
-- unless it holds a bare carriage return.
read_field-csv_escape :
    (s : List Char) (t : Char) (r : List Char)
    → ends t ≡ true
    → read_field (csv_escape s ++ t ∷ r) ≡ (if bare_return s then none else some (s, t ∷ r))
unfolding read_field csv_escape
read_field-csv_escape s t r ht =
    elim (Bool-cases (contains comma s || (contains quote s || contains newline s))) [
      | inl special ↦
          rw
            (special, and_false (contains carriage_return s), append_last (doubled s) quote (t ∷ r))
            (inside-doubled s t r (ends-not_quote t ht))
      | inr ordinary ↦
          (let (hc, others) =
              or_false (contains comma s) (contains quote s || contains newline s) ordinary in
            let (hq, hn) = or_false (contains quote s) (contains newline s) others in
            rw (ordinary, and_true (contains carriage_return s))
              (read_field-plain s t r ht hc hq hn))
    ]

pub cell-csv_escape :
    (s : List Char) (t : Char) (r : List Char)
    → ends t ≡ true
    → cell t (csv_escape s ++ t ∷ r) ≡ (if bare_return s then none else some (s, r))
unfolding cell
cell-csv_escape s t r ht = elim (Bool-cases (bare_return s)) [
  | inl bare ↦ rw (read_field-csv_escape s t r ht, bare) refl
  | inr fine ↦ rw (read_field-csv_escape s t r ht, fine, (==_iff (code t) (code t)).1 refl) refl
]
