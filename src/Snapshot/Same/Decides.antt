-- ===== src/Snapshot/Same/Decides.antt =====
-- src/config_snapshot/model.rs: what `same_configuration` decides, and what a diff says then.
use text.Mathlib.TextEquality.{eq_iff as str_eq_iff}
use soroban_cost_estimator.Prelude.{◌≡◌, ap, ◌↔◌, true, ==_iff, []}
use soroban_cost_estimator.Snapshot.Model.{ConfigSnapshot, ContractBandwidthV0, StateArchivalV0}
use soroban_cost_estimator.Snapshot.Same.{eq_bandwidth, eq_state_archival, same_configuration}
use soroban_cost_estimator.Snapshot.Diff.Field.{eq_ℤ_iff}
use soroban_cost_estimator.Snapshot.Diff.Exact.LedgerCost.{tracked_section}
use soroban_cost_estimator.Snapshot.Diff.Report.{diff_snapshots}
use soroban_cost_estimator.Snapshot.Diff.Complete.{diff_snapshots_complete}
use soroban_cost_estimator.Snapshot.Same.Equality.{
  join, eq_option_iff, eq_contract_compute_iff, eq_ledger_cost_iff, eq_historical_data_iff,
  eq_events_iff,
}

eq_bandwidth_iff : (s t : ContractBandwidthV0) → (eq_bandwidth s t ≡ true) ↔ (s ≡ t)
unfolding eq_bandwidth
eq_bandwidth_iff s t =
    let decides : (eq_bandwidth s t ≡ true) ↔ (
        (s.ledger_max_txs_size_bytes ≡ t.ledger_max_txs_size_bytes)
        × ((s.tx_max_size_bytes ≡ t.tx_max_size_bytes) × (s.fee_tx_size1_kb ≡ t.fee_tx_size1_kb))) =
      (join (==_iff _ _) (join (==_iff _ _) (eq_ℤ_iff _ _))) in
    (
      λ h.
          let (e0, (e1, e2)) = decides.0 h in
          λ i. record {
            ledger_max_txs_size_bytes = e0 i;
            tx_max_size_bytes = e1 i;
            fee_tx_size1_kb = e2 i;
          },
      λ h. decides.1 (
          (
            ap (λ r. r.ledger_max_txs_size_bytes) h,
            (ap (λ r. r.tx_max_size_bytes) h, ap (λ r. r.fee_tx_size1_kb) h),
          )),
    )

eq_state_archival_iff : (s t : StateArchivalV0) → (eq_state_archival s t ≡ true) ↔ (s ≡ t)
unfolding eq_state_archival
eq_state_archival_iff s t =
    let decides : (eq_state_archival s t ≡ true) ↔ (
        (s.max_entry_ttl ≡ t.max_entry_ttl)
        × ((s.min_temporary_ttl ≡ t.min_temporary_ttl)
            × ((s.min_persistent_ttl ≡ t.min_persistent_ttl)
                × ((s.persistent_rent_rate_denominator ≡ t.persistent_rent_rate_denominator)
                    × ((s.temp_rent_rate_denominator ≡ t.temp_rent_rate_denominator)
                        × ((s.max_entries_to_archive ≡ t.max_entries_to_archive)
                            × ((s.live_soroban_state_size_window_sample_size
                                  ≡ t.live_soroban_state_size_window_sample_size)
                                × ((s.live_soroban_state_size_window_sample_period
                                      ≡ t.live_soroban_state_size_window_sample_period)
                                    × ((s.eviction_scan_size ≡ t.eviction_scan_size)
                                        × (s.starting_eviction_scan_level
                                            ≡ t.starting_eviction_scan_level)))))))))) =
      (join (==_iff _ _) (
        join (==_iff _ _) (
          join (==_iff _ _) (
            join (eq_ℤ_iff _ _) (
              join (eq_ℤ_iff _ _) (
                join (==_iff _ _)
                  (join (==_iff _ _) (join (==_iff _ _) (join (==_iff _ _) (==_iff _ _)))))))))) in
    (
      λ h.
          let (e0, (e1, (e2, (e3, (e4, (e5, (e6, (e7, (e8, e9))))))))) = decides.0 h in
          λ i. record {
            max_entry_ttl = e0 i;
            min_temporary_ttl = e1 i;
            min_persistent_ttl = e2 i;
            persistent_rent_rate_denominator = e3 i;
            temp_rent_rate_denominator = e4 i;
            max_entries_to_archive = e5 i;
            live_soroban_state_size_window_sample_size = e6 i;
            live_soroban_state_size_window_sample_period = e7 i;
            eviction_scan_size = e8 i;
            starting_eviction_scan_level = e9 i;
          },
      λ h. decides.1 (
          (
            ap (λ r. r.max_entry_ttl) h,
            (
              ap (λ r. r.min_temporary_ttl) h,
              (
                ap (λ r. r.min_persistent_ttl) h,
                (
                  ap (λ r. r.persistent_rent_rate_denominator) h,
                  (
                    ap (λ r. r.temp_rent_rate_denominator) h,
                    (
                      ap (λ r. r.max_entries_to_archive) h,
                      (
                        ap (λ r. r.live_soroban_state_size_window_sample_size) h,
                        (
                          ap (λ r. r.live_soroban_state_size_window_sample_period) h,
                          (
                            ap (λ r. r.eviction_scan_size) h,
                            ap (λ r. r.starting_eviction_scan_level) h,
                          ),
                        ),
                      ),
                    ),
                  ),
                ),
              ),
            ),
          )),
    )

-- What `same_configuration` compares.
pub record SameConfiguration (s t : ConfigSnapshot) : Type 0 where
  pub network : s.network ≡ t.network
  pub protocol_version : s.protocol_version ≡ t.protocol_version
  pub contract_compute : s.contract_compute ≡ t.contract_compute
  pub ledger_cost : s.contract_ledger_cost ≡ t.contract_ledger_cost
  pub historical_data : s.contract_historical_data ≡ t.contract_historical_data
  pub events : s.contract_events ≡ t.contract_events
  pub bandwidth : s.contract_bandwidth ≡ t.contract_bandwidth
  pub state_archival : s.state_archival ≡ t.state_archival

-- `same_configuration` holds exactly when the network, the protocol version and all six sections
-- are equal, every field of theirs included; the capture's ledger, time and file version, and the
-- ledgers at which settings were last modified do not count.
pub same_configuration_decides :
    (s t : ConfigSnapshot) → (same_configuration s t ≡ true) ↔ SameConfiguration s t
unfolding same_configuration
same_configuration_decides s t =
    let decides = join (str_eq_iff _ _) (
      join (eq_option_iff _ ==_iff _ _) (
        join (eq_option_iff _ eq_contract_compute_iff _ _) (
          join (eq_option_iff _ eq_ledger_cost_iff _ _) (
            join (eq_option_iff _ eq_historical_data_iff _ _) (
              join (eq_option_iff _ eq_events_iff _ _) (
                join (eq_option_iff _ eq_bandwidth_iff _ _)
                  (eq_option_iff _ eq_state_archival_iff _ _))))))) in
    (
      λ h.
          let (e0, (e1, (e2, (e3, (e4, (e5, (e6, e7))))))) = decides.0 h in
          record {
            network = e0;
            protocol_version = e1;
            contract_compute = e2;
            ledger_cost = e3;
            historical_data = e4;
            events = e5;
            bandwidth = e6;
            state_archival = e7;
          },
      λ h. decides.1 (
        h.network,
        (
          h.protocol_version,
          (
            h.contract_compute,
            (h.ledger_cost, (h.historical_data, (h.events, (h.bandwidth, h.state_archival)))),
          ),
        ),
      ),
    )

-- Snapshots of the same configuration have a diff without changes.
pub same_configuration-diff_snapshots :
    (s t : ConfigSnapshot) → same_configuration s t ≡ true → (diff_snapshots s t).changes ≡ []
same_configuration-diff_snapshots s t h =
    let same = (same_configuration_decides s t).0 h in
    (diff_snapshots_complete s t).1 (record {
      contract_compute = same.contract_compute;
      ledger_cost = ap tracked_section same.ledger_cost;
      historical_data = same.historical_data;
      events = same.events;
      bandwidth = same.bandwidth;
      state_archival = same.state_archival;
    })
