-- ===== src/Fee/Breakdown/Accounts.antt =====
-- src/report/fee_calc.rs, `compute_fee_breakdown`: sums of its amounts and of its percentages.
use Prim.Native.String.{String}
use soroban_cost_estimator.Prelude.{
  ℕ, ◌+◌, ◌-◌, ◌^◌, ◌≤◌, ◌<◌, ◌≡◌, refl, ap, ◌∙◌, arith, List, [], ◌∷◌, if◌then◌else◌, length, min,
}
use soroban_cost_estimator.Prelude.Int.{
  ℤ, pos, negsuc, pos_part, neg_part, ◌+ℤ◌, ◌-ℤ◌, ◌≤ℤ◌, ltb_ℤ, +ℤ_parts, int_laws, one_part,
}
use soroban_cost_estimator.Prelude.Machine.{
  InI64, sat_add, sat_sub, max_ℤ, clamp_i64, u64_max, clamp_i64-eq_self,
}
use soroban_cost_estimator.Fee.Scaled.{scaled_fee, scaled_fee_floor, InI64-scaled_fee}
use soroban_cost_estimator.Fee.Percent.{balanced_permilles, sum_ℤ}
use soroban_cost_estimator.Fee.Percent.Sum.{
  sum-balanced_permilles_of_pos, length-balanced_permilles, Small,
}
use soroban_cost_estimator.Fee.Breakdown.{
  FeeRates, FeeBreakdown, Usage, percentage_map, base_fee, compute_fee_breakdown,
}

abbrev pub values : List (String × ℤ) → List ℤ
values [] = []
values ((k, v) ∷ m) = v ∷ values m

abbrev pub parts : FeeBreakdown → List ℤ
parts b =
    b.cpu_fee_stroops ∷ b.storage_fee_stroops ∷ b.bandwidth_fee_stroops ∷ b.base_fee_stroops
    ∷ b.refundable_stroops ∷ []

sum-percentage_map : (l : List ℤ) → length l ≡ 5 → sum_ℤ (values (percentage_map l)) ≡ sum_ℤ l
unfolding percentage_map
sum-percentage_map [] h = absurd (omega arith)
sum-percentage_map (a ∷ []) h = absurd (omega arith)
sum-percentage_map (a ∷ b ∷ []) h = absurd (omega arith)
sum-percentage_map (a ∷ b ∷ c ∷ []) h = absurd (omega arith)
sum-percentage_map (a ∷ b ∷ c ∷ d ∷ []) h = absurd (omega arith)
sum-percentage_map (a ∷ b ∷ c ∷ d ∷ e ∷ []) h = omega int_laws
sum-percentage_map (a ∷ b ∷ c ∷ d ∷ e ∷ f ∷ l) h = absurd (omega arith)

-- A rate or an amount that is not negative and fits i64.
pub record IsAmount (a : ℤ) : Type 0 where
  pub nonneg : neg_part a ≡ 0
  pub fits : pos_part a < 2 ^ 63

pub record IsRates (r : FeeRates) : Type 0 where
  pub insns : IsAmount r.fee_per_10k_insns
  pub read_entry : IsAmount r.fee_per_read_entry
  pub write_entry : IsAmount r.fee_per_write_entry
  pub read_1kb : IsAmount r.fee_per_read_1kb
  pub tx_1kb : IsAmount r.fee_per_1kb

-- The widths of the resource counts: u64 and u32.
pub record IsUsage (u : Usage) : Type 0 where
  pub insns : u.cpu_insns ≤ u64_max
  pub reads : u.read_entries < 2 ^ 32
  pub writes : u.write_entries < 2 ^ 32
  pub bytes : u.read_bytes < 2 ^ 32
  pub size : u.tx_size < 2 ^ 32

sat_add-pos : (a b : ℕ) → sat_add (pos a) (pos b) ≡ pos (min (a + b) (2 ^ 63 - 1))
unfolding sat_add clamp_i64 ◌+ℤ◌
sat_add-pos a b = ground arith

IsAmount-sat_add : (a b : ℤ) → IsAmount a → IsAmount b → IsAmount (sat_add a b)
IsAmount-sat_add (pos a) (pos b) ha hb =
    rw sat_add-pos (record { nonneg = refl; fits = omega arith })
IsAmount-sat_add (pos a) (negsuc b) ha hb = absurd (omega arith)
IsAmount-sat_add (negsuc a) b ha hb = absurd (omega arith)

IsAmount-scaled_fee :
    (u : ℕ) (r : ℤ) (d : ℕ) → u ≤ u64_max → IsAmount r → 0 < d → IsAmount (scaled_fee u r d)
IsAmount-scaled_fee u (pos r) d hu hr hd =
    let (nonneg, below, near) = scaled_fee_floor u r d hu hr.fits hd in
    record { nonneg = nonneg; fits = (InI64-scaled_fee u (pos r) d).0 }
IsAmount-scaled_fee u (negsuc r) d hu hr hd = absurd (omega arith)

sat_add_assoc :
    (a b c : ℤ)
    → IsAmount a
    → IsAmount b
    → IsAmount c
    → sat_add (sat_add a b) c ≡ sat_add a (sat_add b c)
sat_add_assoc (pos a) (pos b) (pos c) ha hb hc =
    rw (sat_add-pos, sat_add-pos) (rw (sat_add-pos, sat_add-pos) (ap pos (omega arith)))
sat_add_assoc (negsuc a) b c ha hb hc = absurd (omega arith)
sat_add_assoc (pos a) (negsuc b) c ha hb hc = absurd (omega arith)
sat_add_assoc (pos a) (pos b) (negsuc c) ha hb hc = absurd (omega arith)

sat_sub-floor :
    (t n : ℤ) → InI64 t → IsAmount n → max_ℤ (sat_sub t n) (pos 0) ≡ max_ℤ (t -ℤ n) (pos 0)
unfolding sat_sub clamp_i64 ◌-ℤ◌
sat_sub-floor t (pos n) ht hn = ground arith
sat_sub-floor t (negsuc n) ht hn = absurd (omega arith)

regroup :
    (cpu read write bytes size : ℤ)
    → IsAmount cpu
    → IsAmount read
    → IsAmount write
    → IsAmount bytes
    → sat_add (sat_add (sat_add (sat_add cpu read) write) bytes) size
      ≡ sat_add (sat_add cpu (sat_add (sat_add read write) bytes)) size
regroup cpu read write bytes size hc hr hw hb =
    ap (λ (s : ℤ). sat_add s size)
      (ap (λ (s : ℤ). sat_add s bytes) (sat_add_assoc cpu read write hc hr hw)
        ∙ sat_add_assoc cpu (sat_add read write) bytes hc (IsAmount-sat_add read write hr hw) hb)

total-exact :
    (t : ℤ)
    → InI64 t
    → pos_part t ≤ 2 ^ 63 - 101
    → sat_add t (base_fee t) ≡ t +ℤ (if ltb_ℤ (pos 0) t then pos 100 else pos 0)
unfolding base_fee sat_add
total-exact t h small = clamp_i64-eq_self _ (
    ground (
      arith,
      +ℤ_parts t (pos 100),
      +ℤ_parts t (pos 0),
      one_part (t +ℤ pos 100),
      one_part (t +ℤ pos 0),
    ))

-- For i64 rates that are not negative and resource counts of their types' widths, the
-- non-refundable fee is the (saturating) sum of the three fees that the report lists, none of them
-- negative; the refundable fee is exactly what the total leaves above it, and zero where it leaves
-- nothing; the total charged is the total resource fee with 100 stroops on top if it is positive
-- (of a total of at most i64::MAX - 100).
pub compute_fee_breakdown_accounts :
    (total_resource_fee : ℤ) (usage : Usage) (rates : FeeRates) (precision : ℕ)
    → InI64 total_resource_fee
    → pos_part total_resource_fee ≤ 2 ^ 63 - 101
    → IsUsage usage
    → IsRates rates
    → let b = compute_fee_breakdown total_resource_fee usage rates precision in
      (b.non_refundable_stroops
        ≡ sat_add (sat_add b.cpu_fee_stroops b.storage_fee_stroops) b.bandwidth_fee_stroops)
      × IsAmount b.cpu_fee_stroops
      × IsAmount b.storage_fee_stroops
      × IsAmount b.bandwidth_fee_stroops
      × (b.refundable_stroops ≡ max_ℤ (total_resource_fee -ℤ b.non_refundable_stroops) (pos 0))
      × (b.total_stroops
          ≡ total_resource_fee +ℤ (if ltb_ℤ (pos 0) total_resource_fee then pos 100 else pos 0))
unfolding compute_fee_breakdown
compute_fee_breakdown_accounts total usage rates precision ht small hu hr =
    let cpu =
      IsAmount-scaled_fee usage.cpu_insns rates.fee_per_10k_insns 10000 hu.insns hr.insns
        (omega arith) in
    let read =
      IsAmount-scaled_fee usage.read_entries rates.fee_per_read_entry 1 (omega arith) hr.read_entry
        (omega arith) in
    let write =
      IsAmount-scaled_fee usage.write_entries rates.fee_per_write_entry 1 (omega arith)
        hr.write_entry (omega arith) in
    let bytes =
      IsAmount-scaled_fee usage.read_bytes rates.fee_per_read_1kb 1024 (omega arith) hr.read_1kb
        (omega arith) in
    let size =
      IsAmount-scaled_fee usage.tx_size rates.fee_per_1kb 1024 (omega arith) hr.tx_1kb
        (omega arith) in
    let storage = IsAmount-sat_add _ _ (IsAmount-sat_add _ _ read write) bytes in
    let all =
      IsAmount-sat_add _ _
        (IsAmount-sat_add _ _ (IsAmount-sat_add _ _ (IsAmount-sat_add _ _ cpu read) write) bytes)
        size in
    (
      regroup _ _ _ _ _ cpu read write bytes,
      cpu,
      storage,
      size,
      sat_sub-floor total _ ht all,
      total-exact total ht small,
    )

-- The percentages of every breakdown with a positive total, whose parts are at most 2 ^ 50 stroops
-- each, add up to exactly 100.0%, also where the parts do not add up to the total.
pub percentages-sum :
    (total_resource_fee : ℤ) (usage : Usage) (rates : FeeRates) (precision : ℕ)
    → let b = compute_fee_breakdown total_resource_fee usage rates precision in
      pos 1 ≤ℤ b.total_stroops → Small (parts b) → sum_ℤ (values b.fee_percentages) ≡ pos 1000
unfolding compute_fee_breakdown
percentages-sum total usage rates precision h small =
    let b = compute_fee_breakdown total usage rates precision in
    sum-percentage_map (balanced_permilles b.total_stroops (parts b))
      (length-balanced_permilles b.total_stroops (parts b))
    ∙ sum-balanced_permilles_of_pos b.total_stroops (parts b) h (λ e. cc) (omega arith) small
