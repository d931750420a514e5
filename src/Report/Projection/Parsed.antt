-- ===== src/Report/Projection/Parsed.antt =====
-- src/report/cost_report.rs, `parse_projection_counts`: which texts are read as which counts.
use Prim.Native.Char.{Char, code}
use soroban_cost_estimator.Prelude.{
  ℕ, ◌<◌, ◌^◌, ◌≡◌, ◌≢◌, refl, ◌↔◌, false, ◌==◌, any, Option, none, some, List, [], ◌∷◌, All, arith,
  ap,
}
use soroban_cost_estimator.Text.{split, is_digit}
use soroban_cost_estimator.Text.Parse.{trim, trim_start, trim_end, parse_u64, parse_digits}
use soroban_cost_estimator.Error.{Externals, ok, err, AppResult, ◌>>=◌}
use soroban_cost_estimator.Report.Projection.{
  unless_empty, check_count, parsed_count, parse_count, parse_counts, parse_projection_counts,
}

-- The counts that the parts of a text spell, part by part.
abbrev pub Spells : List (List Char) → List ℕ → Type 0
Spells [] [] = Unit
Spells (p ∷ ps) (c ∷ cs) = (parse_u64 (trim p) ≡ some c) × Spells ps cs
Spells [] (c ∷ cs) = ⊥
Spells (p ∷ ps) [] = ⊥

abbrev pub InRange : ℕ → Type 0
InRange c = (0 < c) × (c < 2 ^ 63)

abbrev pub Distinct : List ℕ → Type 0
Distinct [] = Unit
Distinct (c ∷ cs) = All (λ k. k ≢ c) cs × Distinct cs

any-All : (c : ℕ) (ks : List ℕ) → (any (λ k. k == c) ks ≡ false) ↔ All (λ k. k ≢ c) ks
any-All c [] = (λ _. tt, λ _. refl)
any-All c (k ∷ ks) = ground (arith, any-All c ks)

minus-unread : (c : Char) (s : List Char) → code c ≡ b'-' → parse_u64 (c ∷ s) ≡ none
unfolding parse_u64 parse_digits is_digit
minus-unread c s h = ground arith

empty-unread : parse_u64 [] ≡ none
unfolding parse_u64
empty-unread = refl

-- What the loop reads, the counts so far being `seen`.
abbrev Accepts : List ℕ → List (List Char) → List ℕ → Type 0
Accepts seen [] [] = Unit
Accepts seen (p ∷ ps) (c ∷ cs) =
    ((parse_u64 (trim p) ≡ some c) × InRange c × All (λ k. k ≢ c) seen) × Accepts (c ∷ seen) ps cs
Accepts seen [] (c ∷ cs) = ⊥
Accepts seen (p ∷ ps) [] = ⊥

abbrev Apart : List ℕ → List ℕ → Type 0
Apart seen cs = All (λ c. All (λ k. k ≢ c) seen) cs

Apart-cons :
    (c : ℕ) (seen cs : List ℕ) → Apart (c ∷ seen) cs ↔ (All (λ k. k ≢ c) cs × Apart seen cs)
Apart-cons c seen [] = (λ h. (tt, tt), λ h. tt)
Apart-cons c seen (d ∷ cs) = ground (arith, Apart-cons c seen cs)

Accepts-iff :
    (ps : List (List Char)) (seen cs : List ℕ)
    → Accepts seen ps cs ↔ (Spells ps cs × All InRange cs × Apart seen cs × Distinct cs)
Accepts-iff [] seen [] = (λ h. (tt, tt, tt, tt), λ h. tt)
Accepts-iff [] seen (c ∷ cs) = (λ h. absurd h, λ h. absurd h.0)
Accepts-iff (p ∷ ps) seen [] = (λ h. absurd h, λ h. absurd h.0)
Accepts-iff (p ∷ ps) seen (c ∷ cs) =
    ground (arith, Accepts-iff ps (c ∷ seen) cs, Apart-cons c seen cs)

module _ {x : Externals} where
  check_count_iff :
      (seen : List ℕ) (part : List Char) (n c : ℕ)
      → (check_count {x = x} seen part n ≡ ok c) ↔ ((n ≡ c) × InRange c × All (λ k. k ≢ c) seen)
  unfolding check_count
  check_count_iff seen part n c = ground (arith, any-All n seen)

  parsed_count_iff :
      (seen : List ℕ) (part : List Char) (o : Option ℕ) (c : ℕ)
      → (parsed_count {x = x} seen part o ≡ ok c)
        ↔ ((o ≡ some c) × InRange c × All (λ k. k ≢ c) seen)
  parsed_count_iff seen part none c = (λ h. absurd (cc), λ h. absurd (cc))
  parsed_count_iff seen part (some n) c = ground (arith, check_count_iff seen part n c)

  parse_count_iff :
      (seen : List ℕ) (part : List Char) (c : ℕ)
      → (parse_count {x = x} seen part ≡ ok c)
        ↔ ((parse_u64 part ≡ some c) × InRange c × All (λ k. k ≢ c) seen)
  unfolding parse_count
  parse_count_iff seen [] c = ground (arith, empty-unread)
  parse_count_iff seen (d ∷ s) c =
      ground (arith, minus-unread d s, parsed_count_iff seen (d ∷ s) (parse_u64 (d ∷ s)) c)

  cons_iff :
      (n c : ℕ) (r : AppResult x (List ℕ)) (cs : List ℕ)
      → ((do counts ← r; ok (n ∷ counts)) ≡ ok (c ∷ cs)) ↔ ((n ≡ c) × (r ≡ ok cs))
  cons_iff n c (ok ds) cs = (λ h. (cc, cc), λ h. cc)
  cons_iff n c (err e) cs = (λ h. absurd (cc), λ h. absurd (cc))

  cons-ne-nil : (n : ℕ) (r : AppResult x (List ℕ)) → (r >>= (λ counts. ok (n ∷ counts))) ≢ ok []
  cons-ne-nil n (ok ds) h = absurd (cc)
  cons-ne-nil n (err e) h = absurd (cc)

  parse_counts-nil :
      (p : List Char) (ps : List (List Char)) (seen : List ℕ)
      → parse_counts {x = x} seen (p ∷ ps) ≢ ok []
  unfolding parse_counts
  parse_counts-nil p ps seen h = go (parse_count {x = x} seen (trim p)) h
    where
      go :
          (r : AppResult x ℕ)
          → (r >>= (λ count. parse_counts (count ∷ seen) ps >>= (λ counts. ok (count ∷ counts))))
            ≢ ok []
      go (ok n) h = cons-ne-nil n (parse_counts (n ∷ seen) ps) h
      go (err e) h = absurd (cc)

  bind_iff :
      (r : AppResult x ℕ) (rest : ℕ → AppResult x (List ℕ)) (c : ℕ) (cs : List ℕ)
      → ((r >>= (λ count. rest count >>= (λ counts. ok (count ∷ counts)))) ≡ ok (c ∷ cs))
        ↔ ((r ≡ ok c) × (rest c ≡ ok cs))
  bind_iff (ok n) rest c cs = (
    λ h. (let (e, r) = (cons_iff n c (rest n) cs).0 h in (ap ok e, rw e at r)),
    λ h. (let e : n ≡ c = cc in (cons_iff n c (rest n) cs).1 (e, rw e h.1)),
  )
  bind_iff (err e) rest c cs = (λ h. absurd (cc), λ h. absurd (cc))

  parse_counts_iff :
      (ps : List (List Char)) (seen cs : List ℕ)
      → (parse_counts {x = x} seen ps ≡ ok cs) ↔ Accepts seen ps cs
  unfolding parse_counts
  parse_counts_iff [] seen [] = (λ h. tt, λ h. refl)
  parse_counts_iff [] seen (c ∷ cs) = (λ h. absurd (cc), λ h. absurd h)
  parse_counts_iff (p ∷ ps) seen [] = (parse_counts-nil p ps seen, λ h. absurd h)
  parse_counts_iff (p ∷ ps) seen (c ∷ cs) =
      let first = parse_count_iff seen (trim p) c in
      let rest = parse_counts_iff ps (c ∷ seen) cs in
      let both = bind_iff (parse_count seen (trim p)) (λ n. parse_counts (n ∷ seen) ps) c cs in
      (λ h. (let (a, b) = both.0 h in (first.0 a, rest.0 b)), λ h. both.1 (first.1 h.0, rest.1 h.1))

Spells-empty : (counts : List ℕ) → ¬ Spells (split b',' []) counts
unfolding split trim trim_start trim_end parse_u64
Spells-empty [] h = h
Spells-empty (c ∷ []) h = absurd (cc h.0)
Spells-empty (c ∷ d ∷ cs) h = absurd (cc h.0)

Apart-nil : (cs : List ℕ) → Apart [] cs
Apart-nil [] = tt
Apart-nil (c ∷ cs) = (tt, Apart-nil cs)

-- A text is read as a list of counts exactly when the parts between the commas of the trimmed text,
-- each trimmed, are decimal u64 numbers, the counts in their order, every count is between 1 and
-- the i64 maximum, and no two counts are equal.
pub parse_projection_counts_iff :
    (x : Externals) (input : List Char) (counts : List ℕ)
    → (parse_projection_counts {x = x} input ≡ ok counts)
      ↔ (Spells (split b',' (trim input)) counts × All InRange counts × Distinct counts)
unfolding parse_projection_counts
parse_projection_counts_iff x input counts = go (trim input)
  where
    go :
        (text : List Char)
        → (unless_empty {x = x} text ≡ ok counts)
          ↔ (Spells (split b',' text) counts × All InRange counts × Distinct counts)
    go [] = (λ h. absurd (cc), λ h. absurd (Spells-empty counts h.0))
    go (c ∷ s) =
        let parts = split b',' (c ∷ s) in
        let read = parse_counts_iff {x = x} parts [] counts in
        let accepted = Accepts-iff parts [] counts in
        (
          λ h. (let (a, b, _, d) = accepted.0 (read.0 h) in (a, b, d)),
          λ (a, b, d). read.1 (accepted.1 (a, b, Apart-nil counts, d)),
        )
