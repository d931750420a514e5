-- ===== src/Wasm/Sections/Accounted.antt =====
-- src/wasm/parser.rs: the sum of a breakdown.
use soroban_cost_estimator.Prelude.{ℕ, ◌+◌, ◌≤◌, ◌<◌, ◌≡◌, refl, List, [], ◌∷◌, arith, ap, ◌∙◌}
use soroban_cost_estimator.Report.Model.{SectionSize}
use soroban_cost_estimator.Wasm.Sections.{
  SectionInfo, usize, insert_offset, by_offset, entries_from, entries, insert_entry, sort_entries,
  from_sections, sum_from, accounted_bytes,
}

-- Sections in the order of the file, from this offset to the end of the last one: the contents lie
-- behind a header of the recorded size, and the next section begins where they end.
abbrev pub Laid : ℕ → List SectionInfo → ℕ → Type 0
Laid cursor [] last = cursor ≡ last
Laid cursor (s ∷ ss) last =
    (0 < s.header_size)
    × (s.offset ≡ cursor + s.header_size)
    × (s.end_ ≡ s.offset + s.size)
    × Laid s.end_ ss last

Laid-le : (cursor : ℕ) (ss : List SectionInfo) (last : ℕ) → Laid cursor ss last → cursor ≤ last
Laid-le cursor [] last h = omega arith
Laid-le cursor (s ∷ ss) last h = omega (arith, Laid-le s.end_ ss last h.3)

insert_first :
    (s : SectionInfo) (cursor : ℕ) (ss : List SectionInfo) (last : ℕ)
    → s.offset ≤ cursor
    → Laid cursor ss last
    → insert_offset s ss ≡ s ∷ ss
unfolding insert_offset
insert_first s cursor [] last h l = refl
insert_first s cursor (t ∷ ts) last h l = ground arith

by_offset-Laid :
    (cursor : ℕ) (ss : List SectionInfo) (last : ℕ) → Laid cursor ss last → by_offset ss ≡ ss
unfolding by_offset
by_offset-Laid cursor [] last h = refl
by_offset-Laid cursor (s ∷ ss) last h =
    rw (by_offset-Laid s.end_ ss last h.3) (insert_first s s.end_ ss last (omega arith) h.3)

module _ {F64 : Type 0} (percent_of : (bytes total_size : ℕ) → F64) where
  abbrev plain : List (SectionSize F64) → ℕ
  plain [] = 0
  plain (e ∷ es) = e.total_size + plain es

  sum_from-plain :
      (n : ℕ) (es : List (SectionSize F64))
      → n + plain es < 18446744073709551616
      → sum_from F64 percent_of n es ≡ n + plain es
  unfolding sum_from
  sum_from-plain n [] h = omega arith
  sum_from-plain n (e ∷ es) h =
      let small : usize (n + e.total_size) ≡ n + e.total_size = omega arith in
      rw small (sum_from-plain (n + e.total_size) es (omega arith) ∙ omega arith)

  plain-insert_entry :
      (a : SectionSize F64) (es : List (SectionSize F64))
      → plain (insert_entry F64 percent_of a es) ≡ a.total_size + plain es
  unfolding insert_entry
  plain-insert_entry a [] = omega arith
  plain-insert_entry a (b ∷ bs) = ground (arith, plain-insert_entry a bs)

  plain-sort_entries :
      (es : List (SectionSize F64)) → plain (sort_entries F64 percent_of es) ≡ plain es
  unfolding sort_entries
  plain-sort_entries [] = refl
  plain-sort_entries (a ∷ es) =
      plain-insert_entry a (sort_entries F64 percent_of es)
      ∙ ap (λ n. a.total_size + n) (plain-sort_entries es)

  plain-entries_from :
      (total cursor : ℕ) (ss : List SectionInfo) (last : ℕ)
      → Laid cursor ss last
      → last ≤ total
      → total < 18446744073709551616
      → cursor + plain (entries_from F64 percent_of total cursor ss) ≡ total
  unfolding entries_from
  plain-entries_from total cursor [] last h le small = ground arith
  plain-entries_from total cursor (s ∷ ss) last h le small =
      let rest = plain-entries_from total s.end_ ss last h.3 le small in
      let low = Laid-le s.end_ ss last h.3 in ground (arith, rest, low)

  -- For a file of less than 2 ^ 64 bytes whose sections, at least one, follow each other from the end
  -- of the module header on, in the order given, the entries of the breakdown account for every byte
  -- of the file, with those behind the last section.
  pub from_sections-accounted :
      (s : SectionInfo) (ss : List SectionInfo) (last total : ℕ)
      → Laid 8 (s ∷ ss) last
      → last ≤ total
      → total < 18446744073709551616
      → accounted_bytes F64 percent_of (from_sections F64 percent_of (s ∷ ss) total) ≡ total
  unfolding from_sections accounted_bytes entries
  from_sections-accounted s ss last total h le small =
      let sorted = by_offset-Laid 8 (s ∷ ss) last h in
      let es = entries F64 percent_of total (s ∷ ss) in
      let sum : plain (sort_entries F64 percent_of es) ≡ total =
        plain-sort_entries es ∙ plain-entries_from total 8 (s ∷ ss) last h le small in
      rw sorted (
        sum_from-plain 0 (sort_entries F64 percent_of es) (omega (arith, sum)) ∙ omega (arith, sum))
