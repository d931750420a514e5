-- ===== src/Text/Search.antt =====
-- Rust's searches in a text: `split_once`, `strip_suffix`, `split(..).next()`, `to_ascii_lowercase`.
use Prim.Native.Char.{Char, code}
use Prim.Native.String
use text.Mathlib.TextEquality.{Char-path}
use soroban_cost_estimator.Prelude.{
  ◌-◌, ◌≡◌, refl, Bool, true, false, ◌&&◌, leb, ◌==◌, if◌then◌else◌, Option, none, some, List, [],
  ◌∷◌, ◌++◌, arith, length, length-append, ap, Bool-cases, inl, inr,
}
use soroban_cost_estimator.Text.{chars}

-- What is behind the pattern at the front, if it stands there.
unfoldable pub strip_prefix : List Char → List Char → Option (List Char)
strip_prefix [] s = some s
strip_prefix (p ∷ pat) [] = none
strip_prefix (p ∷ pat) (c ∷ s) =
    let rest = strip_prefix pat s in if code p == code c then rest else none

abbrev pub in_front : Char → Option (List Char × List Char) → Option (List Char × List Char)
in_front c none = none
in_front c (some (a, b)) = some (c ∷ a, b)

abbrev pub split_here :
    Option (List Char) → Option (List Char × List Char) → Option (List Char × List Char)
split_here (some behind) later = some ([], behind)
split_here none later = later

-- `split_once(pat)`
unfoldable pub split_once : List Char → List Char → Option (List Char × List Char)
unfolding strip_prefix
split_once pat [] = split_here (strip_prefix pat []) none
split_once pat (c ∷ s) =
    let later = split_once pat s in split_here (strip_prefix pat (c ∷ s)) (in_front c later)

unfoldable pub eq_chars : List Char → List Char → Bool
eq_chars [] [] = true
eq_chars (a ∷ s) (b ∷ t) = code a == code b && eq_chars s t
eq_chars _ _ = false

pub eq_chars_sound : (s t : List Char) → eq_chars s t ≡ true → s ≡ t
unfolding eq_chars
eq_chars_sound [] [] h = refl
eq_chars_sound [] (b ∷ t) h = absurd (cc)
eq_chars_sound (a ∷ s) [] h = absurd (cc)
eq_chars_sound (a ∷ s) (b ∷ t) h =
    let p : a ≡ b = Char-path a b (ground arith) in
    let q = eq_chars_sound s t (ground arith) in rw (p, q) refl

-- `strip_suffix(pat).unwrap_or(s)`
unfoldable pub without_suffix : List Char → List Char → List Char
unfolding eq_chars
without_suffix pat [] = if eq_chars [] pat then [] else []
without_suffix pat (c ∷ s) =
    let rest = without_suffix pat s in if eq_chars (c ∷ s) pat then [] else c ∷ rest

-- The text in front of the first character of a kind: `split(stops).next()`
unfoldable pub up_to : (Char → Bool) → List Char → List Char
up_to stops [] = []
up_to stops (c ∷ s) = let rest = up_to stops s in if stops c then [] else c ∷ rest

unfoldable pub lower : Char → Char
lower c =
    if leb b'A' (code c) && leb (code c) b'Z'
    then String.char_at "abcdefghijklmnopqrstuvwxyz" (code c - b'A')
    else c

-- `to_ascii_lowercase`
unfoldable pub lowercase : List Char → List Char
unfolding lower
lowercase [] = []
lowercase (c ∷ s) = lower c ∷ lowercase s

pub eq_chars_refl : (s : List Char) → eq_chars s s ≡ true
unfolding eq_chars
eq_chars_refl [] = refl
eq_chars_refl (c ∷ s) = ground (arith, eq_chars_refl s)

without_suffix_all : (s : List Char) → without_suffix s s ≡ []
unfolding without_suffix
without_suffix_all [] = refl
without_suffix_all (c ∷ s) = rw (eq_chars_refl (c ∷ s)) refl

longer-ne : (c : Char) (s pat : List Char) → eq_chars (c ∷ (s ++ pat)) pat ≡ false
longer-ne c s pat = elim (Bool-cases (eq_chars (c ∷ (s ++ pat)) pat)) [
  | inl same ↦
      let e : c ∷ (s ++ pat) ≡ pat = eq_chars_sound (c ∷ (s ++ pat)) pat same in
      absurd (omega (arith, ap length e, length-append s pat))
  | inr differ ↦ differ
]

pub without_suffix-append : (pat s : List Char) → without_suffix pat (s ++ pat) ≡ s
unfolding without_suffix
without_suffix-append pat [] = without_suffix_all pat
without_suffix-append pat (c ∷ s) = rw (longer-ne c s pat, without_suffix-append pat s) refl

split_once_test :
    split_once (chars "://") (chars "HTTP://a://b") ≡ some (chars "HTTP", chars "a://b")
unfolding split_once strip_prefix chars
split_once_test = refl

without_suffix_test : without_suffix (chars "/ws") (chars "a/ws/ws") ≡ chars "a/ws"
unfolding without_suffix eq_chars chars
without_suffix_test = refl

lowercase_test : lowercase (chars "X-Api-Key1") ≡ chars "x-api-key1"
unfolding lowercase lower chars
lowercase_test = refl
