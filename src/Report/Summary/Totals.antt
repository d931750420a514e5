-- ===== src/Report/Summary/Totals.antt =====
-- src/report/cost_report.rs, `summarize_estimate_all`: the summary against the single reports.
use soroban_cost_estimator.Prelude.{
  ℕ, suc, ◌+◌, ◌%◌, ◌^◌, ◌≡◌, refl, ◌≤◌, some, List, [], ◌∷◌, length, arith, ap, sym, ◌∙◌, All,
}
use soroban_cost_estimator.Prelude.Int.{ℤ, pos, trunc_div, ◌+ℤ◌, int_laws}
use soroban_cost_estimator.Prelude.Machine.{InI64, i64_max, i64_min, max_ℤ, min_ℤ}
use soroban_cost_estimator.Fee.Percent.{sum_ℤ}
use soroban_cost_estimator.Fee.Range.{FeeRange, as_i64, range_loop, fee_range}
use soroban_cost_estimator.Fee.Range.Bounds.{loop-sum}
use soroban_cost_estimator.Report.Model.{CostReport}
use soroban_cost_estimator.Report.Summary.{
  BatchTotals, EstimateAllSummary, add_report, add_reports, start, summarize_estimate_all,
}
use soroban_cost_estimator.Report.Distribution.{fees_of}

abbrev pub sum_of {ℓ} : {A : Type ℓ} → (A → ℕ) → List A → ℕ
sum_of f [] = 0
sum_of f (a ∷ rest) = f a + sum_of f rest

abbrev fee_part : BatchTotals → ℤ × ℤ × ℤ
fee_part t = (t.min_fee, t.max_fee, t.total_fee)

-- The first fee replaces the ends of the i64 range, which the loop of `fee_range` starts from.
same_start :
    (fee : ℤ) (fees : List ℤ)
    → InI64 fee
    → range_loop fee fee (pos 0) (fee ∷ fees) ≡ range_loop i64_max i64_min (pos 0) (fee ∷ fees)
unfolding range_loop
same_start fee fees h =
    let lo : min_ℤ fee fee ≡ min_ℤ i64_max fee = ground arith in
    let hi : max_ℤ fee fee ≡ max_ℤ i64_min fee = ground arith in
    ap (λ l. range_loop l (max_ℤ fee fee) (pos 0 +ℤ fee) fees) lo
    ∙ ap (λ u. range_loop (min_ℤ i64_max fee) u (pos 0 +ℤ fee) fees) hi

abbrev range_of : ℕ → ℤ × ℤ × ℤ → FeeRange
range_of count p = record {
  count = count;
  min_stroops = p.0;
  max_stroops = p.1;
  avg_stroops = as_i64 (trunc_div p.2 count);
}

fee_range-of :
    (fee : ℤ) (fees : List ℤ)
    → fee_range (fee ∷ fees)
      ≡ some (range_of (suc (length fees)) (range_loop i64_max i64_min (pos 0) (fee ∷ fees)))
unfolding fee_range
fee_range-of fee fees = refl

module _ {F64 : Type 0} where
  add_reports-range_loop :
      (t : BatchTotals) (rs : List (CostReport F64))
      → fee_part (add_reports t rs) ≡ range_loop t.min_fee t.max_fee t.total_fee (fees_of rs)
  unfolding add_reports add_report range_loop
  add_reports-range_loop t [] = refl
  add_reports-range_loop t (r ∷ rs) = add_reports-range_loop (add_report t r) rs

  length-fees_of : (rs : List (CostReport F64)) → length (fees_of rs) ≡ length rs
  length-fees_of [] = refl
  length-fees_of (r ∷ rs) = ap suc (length-fees_of rs)

  -- The counters of the loop, which do not depend on the fees.
  record Counted (t u : BatchTotals) (rs : List (CostReport F64)) : Type 0 where
    cpu : u.total_cpu ≡ t.total_cpu + sum_of (λ r. r.cpu_instructions) rs
    writes : u.total_writes ≡ (t.total_writes + sum_of (λ r. r.write_entries) rs) % 2 ^ 64
    reads : u.total_reads ≡ (t.total_reads + sum_of (λ r. r.read_entries) rs) % 2 ^ 64
    least : (u.min_cpu ≤ t.min_cpu) × All (λ r. u.min_cpu ≤ r.cpu_instructions) rs
    greatest : (t.max_cpu ≤ u.max_cpu) × All (λ r. r.cpu_instructions ≤ u.max_cpu) rs

  add_reports-Counted :
      (t : BatchTotals) (r : CostReport F64) (rs : List (CostReport F64))
      → Counted t (add_reports t (r ∷ rs)) (r ∷ rs)
  unfolding add_reports add_report
  add_reports-Counted t r [] = record {
    cpu = omega arith;
    writes = omega arith;
    reads = omega arith;
    least = (ground arith, (ground arith, tt));
    greatest = (ground arith, (ground arith, tt));
  }
  add_reports-Counted t r (q ∷ qs) =
      let rest = add_reports-Counted (add_report t r) q qs in
      record {
        cpu = omega (arith, rest.cpu);
        writes = omega (arith, rest.writes);
        reads = omega (arith, rest.reads);
        least = (ground (arith, rest.least), (ground (arith, rest.least), rest.least.1));
        greatest =
            (ground (arith, rest.greatest), (ground (arith, rest.greatest), rest.greatest.1));
      }

  -- The summary of a batch against `fee_range` and the sums of its reports.
  pub record Summarizes (rs : List (CostReport F64)) (s : EstimateAllSummary) : Type 0 where
    pub range :
        fee_range (fees_of rs)
        ≡ some (record {
          count = s.functions_evaluated;
          min_stroops = s.min_fee_stroops;
          max_stroops = s.max_fee_stroops;
          avg_stroops = s.avg_fee_stroops;
        })
    pub total_fee : s.total_fee_stroops ≡ as_i64 (sum_ℤ (fees_of rs))
    pub total_cpu : s.total_cpu_instructions ≡ sum_of (λ r. r.cpu_instructions) rs % 2 ^ 64
    pub total_writes : s.total_write_entries ≡ sum_of (λ r. r.write_entries) rs % 2 ^ 64
    pub total_reads : s.total_read_entries ≡ sum_of (λ r. r.read_entries) rs % 2 ^ 64
    pub cpu_bounds :
        All
          (λ r.
            (s.min_cpu_instructions ≤ r.cpu_instructions)
            × (r.cpu_instructions ≤ s.max_cpu_instructions))
          rs

  All-both :
      (lo hi : ℕ) (rs : List (CostReport F64))
      → All (λ r. lo ≤ r.cpu_instructions) rs
      → All (λ r. r.cpu_instructions ≤ hi) rs
      → All (λ r. (lo ≤ r.cpu_instructions) × (r.cpu_instructions ≤ hi)) rs
  All-both lo hi [] h k = tt
  All-both lo hi (r ∷ rs) h k = ((h.0, k.0), All-both lo hi rs h.1 k.1)

  -- A batch of one or more reports whose first fee is an i64 has a summary. Its number of
  -- functions, its least and greatest fee and its average are those that `fee_range` finds for the
  -- fees of the batch; its total fee is the sum of the fees, cast to i64; its totals of
  -- instructions, write entries and read entries are the sums modulo 2^64; and no report has fewer
  -- instructions than its minimum or more than its maximum.
  pub summarize_estimate_all-Summarizes :
      (first : CostReport F64) (rest : List (CostReport F64)) (precision : ℕ)
      → InI64 first.fee.total_stroops
      → (s : EstimateAllSummary) × (summarize_estimate_all (first ∷ rest) precision ≡ some s)
        × Summarizes (first ∷ rest) s
  unfolding summarize_estimate_all
  summarize_estimate_all-Summarizes first rest precision h =
      let rs = first ∷ rest in
      let t = add_reports (start first) rs in
      let counted = add_reports-Counted (start first) first rest in
      let range =
        add_reports-range_loop (start first) rs
        ∙ same_start first.fee.total_stroops (fees_of rest) h in
      (
        _,
        refl,
        record {
          range =
              fee_range-of first.fee.total_stroops (fees_of rest)
              ∙ ap (λ p. some (range_of (suc (length (fees_of rest))) p)) (sym range)
              ∙ ap (λ n. some (range_of (suc n) (fee_part t))) (length-fees_of rest);
          total_fee =
              ap (λ p. as_i64 p.2) range
              ∙ ap as_i64 (loop-sum i64_max i64_min (pos 0) (fees_of rs) ∙ omega int_laws);
          total_cpu = omega (arith, counted.cpu);
          total_writes = omega (arith, counted.writes);
          total_reads = omega (arith, counted.reads);
          cpu_bounds = All-both t.min_cpu t.max_cpu rs counted.least.1 counted.greatest.1;
        },
      )
