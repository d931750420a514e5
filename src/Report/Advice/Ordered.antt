-- ===== src/Report/Advice/Ordered.antt =====
-- src/report/cost_report.rs, `suggest_optimizations`: which suggestions there are, in which order.
use Prim.Native.String.{String}
use soroban_cost_estimator.Prelude.{
  ℕ, ◌<◌, ◌≡◌, refl, ltb, ◌&&◌, Bool-cases, inl, inr, Option, none, some, List, [], ◌∷◌, All,
  All-append, All-mono, ◌⊎◌, arith,
}
use soroban_cost_estimator.Prelude.Int.{ℤ, pos, ltb_ℤ, pos_part, ◌≤ℤ◌}
use soroban_cost_estimator.Fee.Breakdown.{FeeRates}
use soroban_cost_estimator.Report.Model.{CostReport}
use soroban_cost_estimator.Report.Advice.{
  OptimizationSuggestion, suggestion, insert_suggestion, sort_suggestions, pushed_suggestions,
  suggestions_of, suggest_optimizations,
}

-- No suggestion saves less than one that follows it.
abbrev pub Descending : List OptimizationSuggestion → Type 0
Descending [] = Unit
Descending (s ∷ ss) =
    All (λ t. t.potential_savings_stroops ≤ℤ s.potential_savings_stroops) ss × Descending ss

module _ (P : OptimizationSuggestion → Type 0) where
  All-insert :
      (s : OptimizationSuggestion) (ts : List OptimizationSuggestion)
      → P s
      → All P ts
      → All P (insert_suggestion s ts)
  unfolding insert_suggestion
  All-insert s [] h hs = (h, tt)
  All-insert s (t ∷ ts) h hs = ground (arith, All-insert s ts h hs.1)

  All-sort : (ts : List OptimizationSuggestion) → All P ts → All P (sort_suggestions ts)
  unfolding sort_suggestions
  All-sort [] h = tt
  All-sort (t ∷ ts) h = All-insert t (sort_suggestions ts) h.0 (All-sort ts h.1)

at_most :
    (s t : OptimizationSuggestion)
    → t.potential_savings_stroops ≤ℤ s.potential_savings_stroops
    → (ts : List OptimizationSuggestion)
    → All (λ u. u.potential_savings_stroops ≤ℤ t.potential_savings_stroops) ts
    → All (λ u. u.potential_savings_stroops ≤ℤ s.potential_savings_stroops) ts
at_most s t below =
    All-mono
      {P = λ (u : OptimizationSuggestion).
        u.potential_savings_stroops ≤ℤ t.potential_savings_stroops}
      {Q = λ (u : OptimizationSuggestion).
        u.potential_savings_stroops ≤ℤ s.potential_savings_stroops}
      (λ u h. omega (arith, h, below))

Descending-insert :
    (s : OptimizationSuggestion) (ts : List OptimizationSuggestion)
    → Descending ts
    → Descending (insert_suggestion s ts)
unfolding insert_suggestion
Descending-insert s [] h = (tt, tt)
Descending-insert s (t ∷ ts) h =
    elim (Bool-cases (ltb_ℤ s.potential_savings_stroops t.potential_savings_stroops)) [
      | inl b ↦
          (let below : s.potential_savings_stroops ≤ℤ t.potential_savings_stroops = ground arith in
            rw b (
              All-insert (λ u. u.potential_savings_stroops ≤ℤ t.potential_savings_stroops) s ts
                  below h.0,
              Descending-insert s ts h.1,
            ))
      | inr b ↦
          (let below : t.potential_savings_stroops ≤ℤ s.potential_savings_stroops = ground arith in
            rw b ((below, at_most s t below ts h.0), h))
    ]

Descending-sort : (ts : List OptimizationSuggestion) → Descending (sort_suggestions ts)
unfolding sort_suggestions
Descending-sort [] = tt
Descending-sort (t ∷ ts) = Descending-insert t (sort_suggestions ts) (Descending-sort ts)

-- A positive saving for a resource of the report that is used.
abbrev pub IsBacked : {F64 : Type 0} → CostReport F64 → FeeRates → OptimizationSuggestion → Type 0
IsBacked report rates s =
    (0 < pos_part s.potential_savings_stroops)
    × (((0 < report.write_entries) × (s.potential_savings_stroops ≡ rates.fee_per_write_entry))
        ⊎ ((0 < report.read_entries) × (s.potential_savings_stroops ≡ rates.fee_per_read_entry))
        ⊎ ((0 < report.read_bytes) × (s.potential_savings_stroops ≡ rates.fee_per_read_1kb))
        ⊎ ((0 < report.cpu_instructions) × (s.potential_savings_stroops ≡ rates.fee_per_10k_insns)))

suggestion-All :
    (P : OptimizationSuggestion → Type 0) (title saves unit : String) (used : ℕ) (saving : ℤ)
    → ((s : OptimizationSuggestion)
        → 0 < used
        → 0 < pos_part saving
        → s.potential_savings_stroops ≡ saving
        → P s)
    → All P (suggestion title saves unit used saving)
unfolding suggestion
suggestion-All P title saves unit used saving each =
    elim (Bool-cases (ltb 0 used && ltb_ℤ (pos 0) saving)) [
      | inl b ↦ rw b (each _ (ground arith) (ground arith) refl, tt)
      | inr b ↦ rw b tt
    ]

abbrev pub Backed :
    {F64 : Type 0} → CostReport F64 → Option FeeRates → List OptimizationSuggestion → Type 0
Backed report none ss = ss ≡ []
Backed report (some rates) ss = All (IsBacked report rates) ss

pushed_suggestions-IsBacked :
    {F64 : Type 0} (report : CostReport F64) (rates : FeeRates)
    → All (IsBacked report rates) (pushed_suggestions report rates)
unfolding pushed_suggestions
pushed_suggestions-IsBacked report rates =
    let P = IsBacked report rates in
    All-append P _ _
      (suggestion-All P _ _ _ report.write_entries rates.fee_per_write_entry
        (λ s u p e. (rw e p, inl (u, e))))
      (All-append P _ _
        (suggestion-All P _ _ _ report.read_entries rates.fee_per_read_entry
          (λ s u p e. (rw e p, inr (inl (u, e)))))
        (All-append P _ _
          (suggestion-All P _ _ _ report.read_bytes rates.fee_per_read_1kb
            (λ s u p e. (rw e p, inr (inr (inl (u, e))))))
          (suggestion-All P _ _ _ report.cpu_instructions rates.fee_per_10k_insns
            (λ s u p e. (rw e p, inr (inr (inr (u, e))))))))

suggestions_of-Descending :
    {F64 : Type 0} (report : CostReport F64) (rates : Option FeeRates)
    → Backed report rates (suggestions_of report rates) × Descending (suggestions_of report rates)
unfolding suggestions_of
suggestions_of-Descending report none = (refl, tt)
suggestions_of-Descending report (some rates) =
    let pushed = pushed_suggestions report rates in
    (
      All-sort (IsBacked report rates) pushed (pushed_suggestions-IsBacked report rates),
      Descending-sort pushed,
    )

-- Without rates there are no suggestions. With rates, every suggestion has a positive saving, which
-- is the rate of a resource that the report uses: the write-entry rate with write entries, the
-- read-entry rate with read entries, the 1 KB read rate with read bytes, or the instruction rate
-- with instructions. No suggestion saves less than one behind it.
pub suggest_optimizations-Descending :
    {F64 : Type 0} (report : CostReport F64)
    → Backed report report.rates (suggest_optimizations report)
      × Descending (suggest_optimizations report)
unfolding suggest_optimizations
suggest_optimizations-Descending report = suggestions_of-Descending report report.rates
