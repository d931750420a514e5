-- ===== src/Snapshot/Diff/Explanation.antt =====
-- src/config_snapshot/diff.rs, `setting_explanation`.
use Prim.Native.String.{String}
use soroban_cost_estimator.Prelude.{Option, [], ◌∷◌}
use soroban_cost_estimator.Snapshot.Model.Tables.{entry}

unfoldable pub setting_explanation : String → Option String
unfolding entry
setting_explanation = entry (
    (
      "contract_compute.ledger_max_instructions",
      "Maximum CPU instructions a single ledger can execute across all transactions",
    )
    ∷ (
      "contract_compute.tx_max_instructions",
      "Maximum CPU instructions a single transaction can execute",
    )
    ∷ (
      "contract_compute.fee_rate_per_instructions_increment",
      "Stroops charged per 10,000 CPU instructions (non-refundable fee)",
    )
    ∷ (
      "contract_compute.tx_memory_limit",
      "Maximum memory (in bytes) a single transaction can allocate",
    )
    ∷ (
      "contract_ledger_cost.ledger_max_disk_read_entries",
      "Maximum ledger entries readable per ledger",
    )
    ∷ (
      "contract_ledger_cost.ledger_max_disk_read_bytes",
      "Maximum bytes readable from disk per ledger",
    )
    ∷ (
      "contract_ledger_cost.ledger_max_write_ledger_entries",
      "Maximum ledger entries writable per ledger",
    )
    ∷ ("contract_ledger_cost.ledger_max_write_bytes", "Maximum bytes writable to disk per ledger")
    ∷ (
      "contract_ledger_cost.fee_disk_read_ledger_entry",
      "Stroops charged per ledger entry read (non-refundable fee)",
    )
    ∷ (
      "contract_ledger_cost.fee_write_ledger_entry",
      "Stroops charged per ledger entry written (non-refundable fee)",
    )
    ∷ (
      "contract_ledger_cost.fee_disk_read1_kb",
      "Stroops charged per 1 KB read from disk (non-refundable fee)",
    )
    ∷ (
      "contract_ledger_cost.soroban_state_target_size_bytes",
      "Target total Soroban state size in bytes for rent fee calculation",
    )
    ∷ (
      "contract_ledger_cost.rent_fee1_kb_soroban_state_size_low",
      "Rent fee per 1 KB when Soroban state is below the target size",
    )
    ∷ (
      "contract_ledger_cost.rent_fee1_kb_soroban_state_size_high",
      "Rent fee per 1 KB when Soroban state is above the target size",
    )
    ∷ (
      "contract_ledger_cost.soroban_state_rent_fee_growth_factor",
      "Growth factor applied to rent fees as state grows",
    )
    ∷ (
      "contract_historical_data.fee_historical1_kb",
      "Stroops charged per 1 KB of historical (archive) data",
    )
    ∷ (
      "contract_events.tx_max_contract_events_size_bytes",
      "Maximum total size of events (in bytes) per transaction",
    )
    ∷ (
      "contract_events.fee_contract_events1_kb",
      "Stroops charged per 1 KB of events (refundable fee)",
    )
    ∷ (
      "contract_bandwidth.ledger_max_txs_size_bytes",
      "Maximum total transaction size (in bytes) per ledger",
    )
    ∷ ("contract_bandwidth.tx_max_size_bytes", "Maximum size (in bytes) of a single transaction")
    ∷ (
      "contract_bandwidth.fee_tx_size1_kb",
      "Stroops charged per 1 KB of transaction size (non-refundable fee)",
    )
    ∷ (
      "state_archival.max_entry_ttl", "Maximum time-to-live (in ledgers) for a contract data entry",
    )
    ∷ (
      "state_archival.min_temporary_ttl",
      "Minimum TTL (in ledgers) for temporary contract data entries",
    )
    ∷ (
      "state_archival.min_persistent_ttl",
      "Minimum TTL (in ledgers) for persistent contract data entries",
    )
    ∷ (
      "state_archival.persistent_rent_rate_denominator",
      "Denominator for the persistent entry rent rate formula",
    )
    ∷ (
      "state_archival.temp_rent_rate_denominator",
      "Denominator for the temporary entry rent rate formula",
    )
    ∷ (
      "state_archival.max_entries_to_archive",
      "Maximum entries archived in a single archival sweep",
    )
    ∷ (
      "state_archival.live_soroban_state_size_window_sample_size",
      "Number of samples in the live Soroban state size window",
    )
    ∷ (
      "state_archival.live_soroban_state_size_window_sample_period",
      "Period (in ledgers) between Soroban state size samples",
    )
    ∷ ("state_archival.eviction_scan_size", "Number of entries scanned per eviction sweep")
    ∷ (
      "state_archival.starting_eviction_scan_level",
      "B-tree level at which eviction scanning begins",
    )
    ∷ [])
