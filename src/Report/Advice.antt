-- ===== src/Report/Advice.antt =====
-- src/report/cost_report.rs: optimization suggestions and tips.
pub mod Ordered
use Prim.Native.String.{String}
use soroban_cost_estimator.Prelude.{
  ℕ, ◌*◌, ◌/◌, ltb, leb, ◌&&◌, min, Bool, if◌then◌else◌, Option, none, some, List, [], ◌∷◌, ◌++◌,
}
use soroban_cost_estimator.Prelude.Int.{ℤ, pos, pos_part, ltb_ℤ}
use soroban_cost_estimator.Prelude.Machine.{u64_max}
use soroban_cost_estimator.Text.{◌<>◌, of_chars, show, show_ℤ}
use soroban_cost_estimator.Fee.Breakdown.{FeeRates}
use soroban_cost_estimator.Report.Model.{CostReport}

pub record OptimizationSuggestion : Type 0 where
  pub title : String
  pub detail : String
  pub potential_savings_stroops : ℤ

-- What is pushed for one resource.
unfoldable pub suggestion :
    (title saves unit : String) → (used : ℕ) → (saving : ℤ) → List OptimizationSuggestion
suggestion title saves unit used saving =
    if ltb 0 used && ltb_ℤ (pos 0) saving
    then record {
      title = title;
      detail =
          saves
          <> of_chars (show_ℤ saving)
          <> " stroops (current: "
          <> of_chars (show used)
          <> " "
          <> unit
          <> ")";
      potential_savings_stroops = saving;
    }
      ∷ []
    else []

-- The stable `sort_by` with the larger saving first.
unfoldable pub insert_suggestion :
    OptimizationSuggestion → List OptimizationSuggestion → List OptimizationSuggestion
insert_suggestion s [] = s ∷ []
insert_suggestion s (t ∷ ts) =
    let rest = insert_suggestion s ts in
    if ltb_ℤ s.potential_savings_stroops t.potential_savings_stroops then t ∷ rest else s ∷ t ∷ ts

unfoldable pub sort_suggestions : List OptimizationSuggestion → List OptimizationSuggestion
unfolding insert_suggestion
sort_suggestions [] = []
sort_suggestions (s ∷ ss) = insert_suggestion s (sort_suggestions ss)

module _ {F64 : Type 0} where
  -- The suggestions in the order in which they are pushed.
  unfoldable pub pushed_suggestions : CostReport F64 → FeeRates → List OptimizationSuggestion
  pushed_suggestions report rates =
      suggestion "Reduce ledger write entries" "Removing one write entry saves ~" "write entries"
        report.write_entries rates.fee_per_write_entry
      ++ (suggestion "Reduce ledger read entries" "Removing one read entry saves ~" "read entries"
            report.read_entries rates.fee_per_read_entry
          ++ (suggestion "Reduce disk read bytes" "Reducing disk reads by 1 KB saves ~" "read bytes"
                report.read_bytes rates.fee_per_read_1kb
              ++ suggestion "Optimize CPU hot path" "Cutting 10,000 CPU instructions saves ~"
                  "instructions" report.cpu_instructions rates.fee_per_10k_insns))

  unfoldable pub suggestions_of : CostReport F64 → Option FeeRates → List OptimizationSuggestion
  unfolding sort_suggestions pushed_suggestions
  suggestions_of report none = []
  suggestions_of report (some rates) = sort_suggestions (pushed_suggestions report rates)

  unfoldable pub suggest_optimizations : CostReport F64 → List OptimizationSuggestion
  unfolding suggestions_of
  suggest_optimizations report = suggestions_of report report.rates

suggestion_lines : List OptimizationSuggestion → String
suggestion_lines [] = ""
suggestion_lines (s ∷ ss) =
    "  - "
    <> s.title
    <> ": "
    <> s.detail
    <> " (potential saving: "
    <> of_chars (show_ℤ s.potential_savings_stroops)
    <> " stroops)\n"
    <> suggestion_lines ss

unfoldable pub format_suggestions : List OptimizationSuggestion → String
unfolding suggestion_lines
format_suggestions [] =
    "Optimization Suggestions:\n  No cost optimizations identified (fee rates unavailable or no reducible resources).\n"
format_suggestions (s ∷ ss) = "Optimization Suggestions:\n" <> suggestion_lines (s ∷ ss)

abbrev pub wasm_size_tip_threshold_bytes : ℕ
wasm_size_tip_threshold_bytes = 30 * 1024

abbrev pub dominant_cost_pct : ℕ
dominant_cost_pct = 40

abbrev pub multi_entry_threshold : ℕ
multi_entry_threshold = 3

abbrev pub large_tx_bytes : ℕ
large_tx_bytes = 1024

-- Both are positive where the division is made, and the i128 product of an i64 is exact.
unfoldable pub share_pct : ℤ → ℤ → ℕ
share_pct part total =
    if ltb_ℤ (pos 0) total && ltb_ℤ (pos 0) part
    then min (pos_part part * 100 / pos_part total) u64_max
    else 0

abbrev pub tip : Bool → String → List String
tip b text = if b then text ∷ [] else []

unfoldable pub generate_optimization_tips : {F64 : Type 0} → CostReport F64 → List String
unfolding share_pct
generate_optimization_tips report =
    let total = report.fee.total_stroops in
    let storage_share = share_pct report.fee.storage_fee_stroops total in
    let cpu_share = share_pct report.fee.cpu_fee_stroops total in
    let bandwidth_share = share_pct report.fee.bandwidth_fee_stroops total in
    let refundable_share = share_pct report.fee.refundable_stroops total in
    tip (ltb wasm_size_tip_threshold_bytes report.wasm_size) (
      "Tip: the contract WASM is "
      <> of_chars (show report.wasm_size)
      <> " bytes, over the "
      <> of_chars (show (wasm_size_tip_threshold_bytes / 1024))
      <> " KB threshold. Uploads are charged bandwidth on every byte, so consider a release build with LTO and `strip = true` to shrink the binary.")
    ++ (tip (leb multi_entry_threshold report.write_entries && leb dominant_cost_pct storage_share)
          ("Tip: writing "
            <> of_chars (show report.write_entries)
            <> " ledger entries accounts for "
            <> of_chars (show storage_share)
            <> "% of the total fee. Consider combining related state into a single entry.")
        ++ (tip
              (leb multi_entry_threshold report.read_entries && leb dominant_cost_pct storage_share)
              ("Tip: reading "
                <> of_chars (show report.read_entries)
                <> " ledger entries accounts for "
                <> of_chars (show storage_share)
                <> "% of the total fee. Consider caching hot state or batching the reads into one call.")
            ++ (tip (ltb 0 report.cpu_instructions && leb dominant_cost_pct cpu_share) (
                  "Tip: CPU instructions account for "
                  <> of_chars (show cpu_share)
                  <> "% of the total fee ("
                  <> of_chars (show report.cpu_instructions)
                  <> " instructions consumed). Consider profiling the hot path and moving work off-chain.")
                ++ (tip (leb large_tx_bytes report.tx_size && leb dominant_cost_pct bandwidth_share)
                      ("Tip: the transaction envelope is "
                        <> of_chars (show report.tx_size)
                        <> " bytes and its bandwidth fee accounts for "
                        <> of_chars (show bandwidth_share)
                        <> "% of the total fee. Consider trimming large argument payloads or passing a reference instead of the full value.")
                    ++ tip
                        (ltb_ℤ (pos 0) report.fee.refundable_stroops
                          && leb dominant_cost_pct refundable_share)
                        ("Tip: "
                          <> of_chars (show refundable_share)
                          <> "% of the total fee is refundable, which comes from ledger rent bumps and contract events. Consider reducing state growth and the number or size of emitted events.")))))

tip_lines : List String → String
tip_lines [] = ""
tip_lines (t ∷ ts) = "  " <> t <> "\n" <> tip_lines ts

unfoldable pub format_tips : List String → String
unfolding tip_lines
format_tips [] = ""
format_tips (t ∷ ts) = "Optimization Tips:\n" <> tip_lines (t ∷ ts)
