-- ===== src/Snapshot/Diff/Exact/LedgerCost.antt =====
-- src/config_snapshot/diff.rs, `compare_ledger_cost`: sections for which nothing is pushed.
use soroban_cost_estimator.Prelude.{◌≡◌, refl, ap, ◌↔◌, Option, none, some, []}
use soroban_cost_estimator.Snapshot.Model.{ContractLedgerCostV0}
use soroban_cost_estimator.Snapshot.Diff.Field.{nat_shown, int_shown, push_presence_change}
use soroban_cost_estimator.Snapshot.Diff.Sections.{ledger_cost_fields, compare_ledger_cost}
use soroban_cost_estimator.Snapshot.Diff.Exact.{cons_empty, check_empty, check_next, check_skip}

-- A ledger-cost section without the four per-transaction limits that no check reads.
unfoldable pub tracked : ContractLedgerCostV0 → ContractLedgerCostV0
tracked s = record {
  ledger_max_disk_read_entries = s.ledger_max_disk_read_entries;
  ledger_max_disk_read_bytes = s.ledger_max_disk_read_bytes;
  ledger_max_write_ledger_entries = s.ledger_max_write_ledger_entries;
  ledger_max_write_bytes = s.ledger_max_write_bytes;
  tx_max_disk_read_entries = 0;
  tx_max_disk_read_bytes = 0;
  tx_max_write_ledger_entries = 0;
  tx_max_write_bytes = 0;
  fee_disk_read_ledger_entry = s.fee_disk_read_ledger_entry;
  fee_write_ledger_entry = s.fee_write_ledger_entry;
  fee_disk_read1_kb = s.fee_disk_read1_kb;
  soroban_state_target_size_bytes = s.soroban_state_target_size_bytes;
  rent_fee1_kb_soroban_state_size_low = s.rent_fee1_kb_soroban_state_size_low;
  rent_fee1_kb_soroban_state_size_high = s.rent_fee1_kb_soroban_state_size_high;
  soroban_state_rent_fee_growth_factor = s.soroban_state_rent_fee_growth_factor;
}

unfoldable pub tracked_section : Option ContractLedgerCostV0 → Option ContractLedgerCostV0
tracked_section none = none
tracked_section (some s) = some (tracked s)

ledger_cost_equal :
    (old new : ContractLedgerCostV0) → ledger_cost_fields old new ≡ [] → tracked old ≡ tracked new
unfolding ledger_cost_fields tracked
ledger_cost_equal old new e =
    let (e0, r0) = check_next _ _ _ _ _ e in
    let (e1, r1) = check_next _ _ _ _ _ r0 in
    let (e2, r2) = check_next _ _ _ _ _ r1 in
    let (e3, r3) = check_next _ _ _ _ _ r2 in
    let (e4, r4) = check_next _ _ _ _ _ r3 in
    let (e5, r5) = check_next _ _ _ _ _ r4 in
    let (e6, r6) = check_next _ _ _ _ _ r5 in
    let (e7, r7) = check_next _ _ _ _ _ r6 in
    let (e8, r8) = check_next _ _ _ _ _ r7 in
    let (e9, r9) = check_next _ _ _ _ _ r8 in
    let e10 = (check_empty _ _ _ _).0 r9 in
    λ i. record {
      ledger_max_disk_read_entries = e0 i;
      ledger_max_disk_read_bytes = e1 i;
      ledger_max_write_ledger_entries = e2 i;
      ledger_max_write_bytes = e3 i;
      tx_max_disk_read_entries = 0;
      tx_max_disk_read_bytes = 0;
      tx_max_write_ledger_entries = 0;
      tx_max_write_bytes = 0;
      fee_disk_read_ledger_entry = e4 i;
      fee_write_ledger_entry = e5 i;
      fee_disk_read1_kb = e6 i;
      soroban_state_target_size_bytes = e7 i;
      rent_fee1_kb_soroban_state_size_low = e8 i;
      rent_fee1_kb_soroban_state_size_high = e9 i;
      soroban_state_rent_fee_growth_factor = e10 i;
    }

ledger_cost_same :
    (old new : ContractLedgerCostV0) → tracked old ≡ tracked new → ledger_cost_fields old new ≡ []
unfolding ledger_cost_fields tracked
ledger_cost_same old new e = check_skip _ _ _ _ _ (ap (λ t. t.ledger_max_disk_read_entries) e) (
    check_skip _ _ _ _ _ (ap (λ t. t.ledger_max_disk_read_bytes) e) (
      check_skip _ _ _ _ _ (ap (λ t. t.ledger_max_write_ledger_entries) e) (
        check_skip _ _ _ _ _ (ap (λ t. t.ledger_max_write_bytes) e) (
          check_skip _ _ _ _ _ (ap (λ t. t.fee_disk_read_ledger_entry) e) (
            check_skip _ _ _ _ _ (ap (λ t. t.fee_write_ledger_entry) e) (
              check_skip _ _ _ _ _ (ap (λ t. t.fee_disk_read1_kb) e) (
                check_skip _ _ _ _ _ (ap (λ t. t.soroban_state_target_size_bytes) e) (
                  check_skip _ _ _ _ _ (ap (λ t. t.rent_fee1_kb_soroban_state_size_low) e) (
                    check_skip _ _ _ _ _ (ap (λ t. t.rent_fee1_kb_soroban_state_size_high) e) (
                      (check_empty _ _ _ _).1
                        (ap (λ t. t.soroban_state_rent_fee_growth_factor) e)))))))))))

pub compare_ledger_cost_exact :
    (old new : Option ContractLedgerCostV0)
    → (compare_ledger_cost old new ≡ []) ↔ (tracked_section old ≡ tracked_section new)
unfolding compare_ledger_cost push_presence_change tracked_section
compare_ledger_cost_exact none none = (λ e. refl, λ e. refl)
compare_ledger_cost_exact none (some new) = (λ e. cons_empty e, λ e. absurd (cc))
compare_ledger_cost_exact (some old) none = (λ e. cons_empty e, λ e. absurd (cc))
compare_ledger_cost_exact (some old) (some new) =
    (λ e. ap some (ledger_cost_equal old new e), λ e. ledger_cost_same old new (cc))
