-- ===== src/Snapshot/Diff/Sections.antt =====
-- src/config_snapshot/diff.rs, `compare_contract_compute` to `compare_state_archival`: the checks of
-- each section, in the order of the source.
use soroban_cost_estimator.Prelude.{Option, none, some, List, [], ◌++◌, true, false}
use soroban_cost_estimator.Snapshot.Model.{
  ContractComputeV0, ContractLedgerCostV0, ContractHistoricalDataV0, ContractEventsV0,
  ContractBandwidthV0, StateArchivalV0,
}
use soroban_cost_estimator.Snapshot.Diff.Field.{
  FieldDiff, nat_shown, int_shown, check, push_presence_change,
}

unfoldable pub contract_compute_fields : ContractComputeV0 → ContractComputeV0 → List FieldDiff
contract_compute_fields old new =
    check "contract_compute.ledger_max_instructions" old.ledger_max_instructions
      new.ledger_max_instructions false
    ++ (check "contract_compute.tx_max_instructions" old.tx_max_instructions new.tx_max_instructions
          false
        ++ (check "contract_compute.fee_rate_per_instructions_increment"
              old.fee_rate_per_instructions_increment new.fee_rate_per_instructions_increment true
            ++ (check "contract_compute.tx_memory_limit" old.tx_memory_limit new.tx_memory_limit
                false)))

unfoldable pub compare_contract_compute :
    Option ContractComputeV0 → Option ContractComputeV0 → List FieldDiff
compare_contract_compute (some old) (some new) = contract_compute_fields old new
compare_contract_compute none (some new) = push_presence_change "contract_compute" true
compare_contract_compute (some old) none = push_presence_change "contract_compute" false
compare_contract_compute none none = []

unfoldable pub ledger_cost_fields : ContractLedgerCostV0 → ContractLedgerCostV0 → List FieldDiff
ledger_cost_fields old new =
    check "contract_ledger_cost.ledger_max_disk_read_entries" old.ledger_max_disk_read_entries
      new.ledger_max_disk_read_entries false
    ++ (check "contract_ledger_cost.ledger_max_disk_read_bytes" old.ledger_max_disk_read_bytes
          new.ledger_max_disk_read_bytes false
        ++ (check "contract_ledger_cost.ledger_max_write_ledger_entries"
              old.ledger_max_write_ledger_entries new.ledger_max_write_ledger_entries false
            ++ (check "contract_ledger_cost.ledger_max_write_bytes" old.ledger_max_write_bytes
                  new.ledger_max_write_bytes false
                ++ (check "contract_ledger_cost.fee_disk_read_ledger_entry"
                      old.fee_disk_read_ledger_entry new.fee_disk_read_ledger_entry true
                    ++ (check "contract_ledger_cost.fee_write_ledger_entry"
                          old.fee_write_ledger_entry new.fee_write_ledger_entry true
                        ++ (check "contract_ledger_cost.fee_disk_read1_kb" old.fee_disk_read1_kb
                              new.fee_disk_read1_kb true
                            ++ (check "contract_ledger_cost.soroban_state_target_size_bytes"
                                  old.soroban_state_target_size_bytes
                                  new.soroban_state_target_size_bytes false
                                ++ (check "contract_ledger_cost.rent_fee1_kb_soroban_state_size_low"
                                      old.rent_fee1_kb_soroban_state_size_low
                                      new.rent_fee1_kb_soroban_state_size_low true
                                    ++ (check
                                          "contract_ledger_cost.rent_fee1_kb_soroban_state_size_high"
                                          old.rent_fee1_kb_soroban_state_size_high
                                          new.rent_fee1_kb_soroban_state_size_high true
                                        ++ (check
                                            "contract_ledger_cost.soroban_state_rent_fee_growth_factor"
                                            old.soroban_state_rent_fee_growth_factor
                                            new.soroban_state_rent_fee_growth_factor false))))))))))

unfoldable pub compare_ledger_cost :
    Option ContractLedgerCostV0 → Option ContractLedgerCostV0 → List FieldDiff
compare_ledger_cost (some old) (some new) = ledger_cost_fields old new
compare_ledger_cost none (some new) = push_presence_change "contract_ledger_cost" true
compare_ledger_cost (some old) none = push_presence_change "contract_ledger_cost" false
compare_ledger_cost none none = []

unfoldable pub historical_data_fields :
    ContractHistoricalDataV0 → ContractHistoricalDataV0 → List FieldDiff
historical_data_fields old new =
    check "contract_historical_data.fee_historical1_kb" old.fee_historical1_kb
      new.fee_historical1_kb true

unfoldable pub compare_historical_data :
    Option ContractHistoricalDataV0 → Option ContractHistoricalDataV0 → List FieldDiff
compare_historical_data (some old) (some new) = historical_data_fields old new
compare_historical_data none (some new) = push_presence_change "contract_historical_data" true
compare_historical_data (some old) none = push_presence_change "contract_historical_data" false
compare_historical_data none none = []

unfoldable pub events_fields : ContractEventsV0 → ContractEventsV0 → List FieldDiff
events_fields old new =
    check "contract_events.tx_max_contract_events_size_bytes" old.tx_max_contract_events_size_bytes
      new.tx_max_contract_events_size_bytes false
    ++ (check "contract_events.fee_contract_events1_kb" old.fee_contract_events1_kb
        new.fee_contract_events1_kb true)

unfoldable pub compare_events : Option ContractEventsV0 → Option ContractEventsV0 → List FieldDiff
compare_events (some old) (some new) = events_fields old new
compare_events none (some new) = push_presence_change "contract_events" true
compare_events (some old) none = push_presence_change "contract_events" false
compare_events none none = []

unfoldable pub bandwidth_fields : ContractBandwidthV0 → ContractBandwidthV0 → List FieldDiff
bandwidth_fields old new =
    check "contract_bandwidth.ledger_max_txs_size_bytes" old.ledger_max_txs_size_bytes
      new.ledger_max_txs_size_bytes false
    ++ (check "contract_bandwidth.tx_max_size_bytes" old.tx_max_size_bytes new.tx_max_size_bytes
          false
        ++ (check "contract_bandwidth.fee_tx_size1_kb" old.fee_tx_size1_kb new.fee_tx_size1_kb
            true))

unfoldable pub compare_bandwidth :
    Option ContractBandwidthV0 → Option ContractBandwidthV0 → List FieldDiff
compare_bandwidth (some old) (some new) = bandwidth_fields old new
compare_bandwidth none (some new) = push_presence_change "contract_bandwidth" true
compare_bandwidth (some old) none = push_presence_change "contract_bandwidth" false
compare_bandwidth none none = []

unfoldable pub state_archival_fields : StateArchivalV0 → StateArchivalV0 → List FieldDiff
state_archival_fields old new =
    check "state_archival.max_entry_ttl" old.max_entry_ttl new.max_entry_ttl false
    ++ (check "state_archival.min_temporary_ttl" old.min_temporary_ttl new.min_temporary_ttl false
        ++ (check "state_archival.min_persistent_ttl" old.min_persistent_ttl new.min_persistent_ttl
              false
            ++ (check "state_archival.persistent_rent_rate_denominator"
                  old.persistent_rent_rate_denominator new.persistent_rent_rate_denominator true
                ++ (check "state_archival.temp_rent_rate_denominator" old.temp_rent_rate_denominator
                      new.temp_rent_rate_denominator true
                    ++ (check "state_archival.max_entries_to_archive" old.max_entries_to_archive
                          new.max_entries_to_archive false
                        ++ (check "state_archival.live_soroban_state_size_window_sample_size"
                              old.live_soroban_state_size_window_sample_size
                              new.live_soroban_state_size_window_sample_size false
                            ++ (check "state_archival.live_soroban_state_size_window_sample_period"
                                  old.live_soroban_state_size_window_sample_period
                                  new.live_soroban_state_size_window_sample_period false
                                ++ (check "state_archival.eviction_scan_size" old.eviction_scan_size
                                      new.eviction_scan_size false
                                    ++ (check "state_archival.starting_eviction_scan_level"
                                        old.starting_eviction_scan_level
                                        new.starting_eviction_scan_level false)))))))))

unfoldable pub compare_state_archival :
    Option StateArchivalV0 → Option StateArchivalV0 → List FieldDiff
compare_state_archival (some old) (some new) = state_archival_fields old new
compare_state_archival none (some new) = push_presence_change "state_archival" true
compare_state_archival (some old) none = push_presence_change "state_archival" false
compare_state_archival none none = []
