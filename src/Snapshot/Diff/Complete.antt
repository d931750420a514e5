-- ===== src/Snapshot/Diff/Complete.antt =====
-- src/config_snapshot/diff.rs, `diff_snapshots`: which differences between two snapshots it reports.
use soroban_cost_estimator.Prelude.{
  ◌≡◌, ◌↔◌, [], ℕ, Bool, true, false, Option, none, some, refl, ap, ◌∙◌,
}
use soroban_cost_estimator.Snapshot.Model.{ConfigSnapshot, ContractLedgerCostV0}
use soroban_cost_estimator.Snapshot.Diff.Exact.{
  ++_empty, compare_contract_compute_exact, compare_historical_data_exact, compare_events_exact,
  compare_bandwidth_exact,
}
use soroban_cost_estimator.Snapshot.Diff.Exact.LedgerCost.{
  tracked, tracked_section, compare_ledger_cost_exact,
}
use soroban_cost_estimator.Snapshot.Diff.Exact.StateArchival.{compare_state_archival_exact}
use soroban_cost_estimator.Snapshot.Diff.Report.{
  SnapshotInfo, snapshot_info, Floats, resolve_exit_code, has_any_changes,
  has_significant_pricing_changes, diff_snapshots, all_changes, of_changes,
}

-- Two snapshots whose six sections agree, the per-transaction limits of the ledger-cost section
-- aside.
pub record SameSettings (old new : ConfigSnapshot) : Type 0 where
  pub contract_compute : old.contract_compute ≡ new.contract_compute
  pub ledger_cost :
      tracked_section old.contract_ledger_cost ≡ tracked_section new.contract_ledger_cost
  pub historical_data : old.contract_historical_data ≡ new.contract_historical_data
  pub events : old.contract_events ≡ new.contract_events
  pub bandwidth : old.contract_bandwidth ≡ new.contract_bandwidth
  pub state_archival : old.state_archival ≡ new.state_archival

-- `diff_snapshots` reports no change exactly when the two snapshots agree on every section, where
-- an absent section agrees only with an absent one, and a ledger-cost section is compared without
-- tx_max_disk_read_entries, tx_max_disk_read_bytes, tx_max_write_ledger_entries and
-- tx_max_write_bytes.
pub diff_snapshots_complete :
    (old new : ConfigSnapshot) → ((diff_snapshots old new).changes ≡ []) ↔ SameSettings old new
unfolding diff_snapshots of_changes all_changes
diff_snapshots_complete old new = (
  λ e.
      let (c0, e0) = (++_empty _ _).0 e in
      let (c1, e1) = (++_empty _ _).0 e0 in
      let (c2, e2) = (++_empty _ _).0 e1 in
      let (c3, e3) = (++_empty _ _).0 e2 in
      let (c4, c5) = (++_empty _ _).0 e3 in
      record {
        contract_compute = (compare_contract_compute_exact _ _).0 c0;
        ledger_cost = (compare_ledger_cost_exact _ _).0 c1;
        historical_data = (compare_historical_data_exact _ _).0 c2;
        events = (compare_events_exact _ _).0 c3;
        bandwidth = (compare_bandwidth_exact _ _).0 c4;
        state_archival = (compare_state_archival_exact _ _).0 c5;
      },
  λ s. (++_empty _ _).1 (
    (compare_contract_compute_exact _ _).1 s.contract_compute,
    (++_empty _ _).1 (
      (compare_ledger_cost_exact _ _).1 s.ledger_cost,
      (++_empty _ _).1 (
        (compare_historical_data_exact _ _).1 s.historical_data,
        (++_empty _ _).1 (
          (compare_events_exact _ _).1 s.events,
          (++_empty _ _).1 (
            (compare_bandwidth_exact _ _).1 s.bandwidth,
            (compare_state_archival_exact _ _).1 s.state_archival,
          ),
        ),
      ),
    ),
  ),
)

-- A snapshot with its four per-transaction ledger-cost limits replaced by any others.
unfoldable pub with_tx_limits : ℕ → ℕ → ℕ → ℕ → ContractLedgerCostV0 → ContractLedgerCostV0
with_tx_limits read_entries read_bytes write_entries write_bytes c = record c {
  tx_max_disk_read_entries = read_entries;
  tx_max_disk_read_bytes = read_bytes;
  tx_max_write_ledger_entries = write_entries;
  tx_max_write_bytes = write_bytes;
}

exit_code-empty :
    (floats : Floats) (old new : SnapshotInfo) (ignore fail_on_any : Bool)
    (threshold : Option floats.F64)
    → resolve_exit_code floats (of_changes old new []) ignore fail_on_any threshold ≡ 0
unfolding resolve_exit_code has_any_changes has_significant_pricing_changes of_changes
exit_code-empty floats old new true fail_on_any threshold = refl
exit_code-empty floats old new false true threshold = refl
exit_code-empty floats old new false false none = refl
exit_code-empty floats old new false false (some t) = refl

-- Two snapshots that differ only in tx_max_disk_read_entries, tx_max_disk_read_bytes,
-- tx_max_write_ledger_entries and tx_max_write_bytes, by whatever amounts, have a diff without
-- changes, which has no pricing change and whose exit code is 0 under every flag.
pub tx_limits_unreported :
    (floats : Floats) (s : ConfigSnapshot) (c : ContractLedgerCostV0)
    (read_entries read_bytes write_entries write_bytes : ℕ) (ignore fail_on_any : Bool)
    (threshold : Option floats.F64)
    → let old = record s { contract_ledger_cost = some c } in
      let new = record s {
        contract_ledger_cost =
            some (with_tx_limits read_entries read_bytes write_entries write_bytes c);
      } in
      ((diff_snapshots old new).changes ≡ [])
      × (resolve_exit_code floats (diff_snapshots old new) ignore fail_on_any threshold ≡ 0)
unfolding tracked_section tracked with_tx_limits diff_snapshots of_changes
tx_limits_unreported floats s c read_entries read_bytes write_entries write_bytes ignore fail_on_any
      threshold =
    let old = record s { contract_ledger_cost = some c } in
    let new = record s {
      contract_ledger_cost =
          some (with_tx_limits read_entries read_bytes write_entries write_bytes c);
    } in
    let same : SameSettings old new = record {
      contract_compute = refl;
      ledger_cost = refl;
      historical_data = refl;
      events = refl;
      bandwidth = refl;
      state_archival = refl;
    } in
    let silent = (diff_snapshots_complete old new).1 same in
    (
      silent,
      ap
            (λ changes.
              resolve_exit_code floats (of_changes (snapshot_info old) (snapshot_info new) changes)
                ignore fail_on_any threshold)
            silent
          ∙ exit_code-empty floats _ _ ignore fail_on_any threshold,
    )
