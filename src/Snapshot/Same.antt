-- ===== src/Snapshot/Same.antt =====
-- src/config_snapshot/model.rs, `same_configuration`, with the derived equality of the sections.
pub mod Equality
pub mod Decides
use Prim.Native.String.{String}
use text.Mathlib.Text.{◌==◌ as str_eq}
use soroban_cost_estimator.Prelude.{ℕ, Bool, true, false, ◌&&◌, ◌==◌, Option, none, some}
use soroban_cost_estimator.Prelude.Int.{ℤ, eq_ℤ}
use soroban_cost_estimator.Snapshot.Model.{
  ConfigSnapshot, ContractComputeV0, ContractLedgerCostV0, ContractHistoricalDataV0,
  ContractEventsV0, ContractBandwidthV0, StateArchivalV0,
}

unfoldable pub eq_option : {A : Type 0} → (A → A → Bool) → Option A → Option A → Bool
eq_option eq none none = true
eq_option eq (some a) (some b) = eq a b
eq_option eq none (some b) = false
eq_option eq (some a) none = false

unfoldable pub eq_contract_compute : ContractComputeV0 → ContractComputeV0 → Bool
eq_contract_compute s t =
    eq_ℤ s.ledger_max_instructions t.ledger_max_instructions
    && (eq_ℤ s.tx_max_instructions t.tx_max_instructions
        && (eq_ℤ s.fee_rate_per_instructions_increment t.fee_rate_per_instructions_increment
            && ((s.tx_memory_limit == t.tx_memory_limit))))

unfoldable pub eq_ledger_cost : ContractLedgerCostV0 → ContractLedgerCostV0 → Bool
eq_ledger_cost s t =
    (s.ledger_max_disk_read_entries == t.ledger_max_disk_read_entries)
    && ((s.ledger_max_disk_read_bytes == t.ledger_max_disk_read_bytes)
        && ((s.ledger_max_write_ledger_entries == t.ledger_max_write_ledger_entries)
            && ((s.ledger_max_write_bytes == t.ledger_max_write_bytes)
                && ((s.tx_max_disk_read_entries == t.tx_max_disk_read_entries)
                    && ((s.tx_max_disk_read_bytes == t.tx_max_disk_read_bytes)
                        && ((s.tx_max_write_ledger_entries == t.tx_max_write_ledger_entries)
                            && ((s.tx_max_write_bytes == t.tx_max_write_bytes)
                                && (eq_ℤ s.fee_disk_read_ledger_entry t.fee_disk_read_ledger_entry
                                    && (eq_ℤ s.fee_write_ledger_entry t.fee_write_ledger_entry
                                        && (eq_ℤ s.fee_disk_read1_kb t.fee_disk_read1_kb
                                            && (eq_ℤ s.soroban_state_target_size_bytes
                                                  t.soroban_state_target_size_bytes
                                                && (eq_ℤ s.rent_fee1_kb_soroban_state_size_low
                                                      t.rent_fee1_kb_soroban_state_size_low
                                                    && (eq_ℤ s.rent_fee1_kb_soroban_state_size_high
                                                          t.rent_fee1_kb_soroban_state_size_high
                                                        && ((s.soroban_state_rent_fee_growth_factor
                                                            == t.soroban_state_rent_fee_growth_factor)))))))))))))))

unfoldable pub eq_historical_data : ContractHistoricalDataV0 → ContractHistoricalDataV0 → Bool
eq_historical_data s t = eq_ℤ s.fee_historical1_kb t.fee_historical1_kb

unfoldable pub eq_events : ContractEventsV0 → ContractEventsV0 → Bool
eq_events s t =
    (s.tx_max_contract_events_size_bytes == t.tx_max_contract_events_size_bytes)
    && (eq_ℤ s.fee_contract_events1_kb t.fee_contract_events1_kb)

unfoldable pub eq_bandwidth : ContractBandwidthV0 → ContractBandwidthV0 → Bool
eq_bandwidth s t =
    (s.ledger_max_txs_size_bytes == t.ledger_max_txs_size_bytes)
    && ((s.tx_max_size_bytes == t.tx_max_size_bytes) && (eq_ℤ s.fee_tx_size1_kb t.fee_tx_size1_kb))

unfoldable pub eq_state_archival : StateArchivalV0 → StateArchivalV0 → Bool
eq_state_archival s t =
    (s.max_entry_ttl == t.max_entry_ttl)
    && ((s.min_temporary_ttl == t.min_temporary_ttl)
        && ((s.min_persistent_ttl == t.min_persistent_ttl)
            && (eq_ℤ s.persistent_rent_rate_denominator t.persistent_rent_rate_denominator
                && (eq_ℤ s.temp_rent_rate_denominator t.temp_rent_rate_denominator
                    && ((s.max_entries_to_archive == t.max_entries_to_archive)
                        && ((s.live_soroban_state_size_window_sample_size
                              == t.live_soroban_state_size_window_sample_size)
                            && ((s.live_soroban_state_size_window_sample_period
                                  == t.live_soroban_state_size_window_sample_period)
                                && ((s.eviction_scan_size == t.eviction_scan_size)
                                    && ((s.starting_eviction_scan_level
                                        == t.starting_eviction_scan_level))))))))))

unfoldable pub same_configuration : ConfigSnapshot → ConfigSnapshot → Bool
same_configuration s t =
    str_eq s.network t.network
    && (eq_option (λ a b. a == b) s.protocol_version t.protocol_version
        && (eq_option eq_contract_compute s.contract_compute t.contract_compute
            && (eq_option eq_ledger_cost s.contract_ledger_cost t.contract_ledger_cost
                && (eq_option eq_historical_data s.contract_historical_data
                      t.contract_historical_data
                    && (eq_option eq_events s.contract_events t.contract_events
                        && (eq_option eq_bandwidth s.contract_bandwidth t.contract_bandwidth
                            && eq_option eq_state_archival s.state_archival t.state_archival))))))
