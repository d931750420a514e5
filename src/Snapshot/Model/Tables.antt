-- ===== src/Snapshot/Model/Tables.antt =====
-- src/config_snapshot/model.rs and diff.rs: what the program knows of a setting by its field path.
-- A `match` on string literals is a table, read from the top.
use Prim.Native.String.{String}
use text.Mathlib.Text.{◌==◌ as str_eq}
use soroban_cost_estimator.Prelude.{
  ℕ, Bool, true, false, Option, none, some, List, [], ◌∷◌, if◌then◌else◌,
}
use soroban_cost_estimator.Snapshot.Model.{
  ConfigSettingId, contract_compute_v0, contract_ledger_cost_v0, contract_historical_data_v0,
  contract_events_v0, contract_bandwidth_v0, state_archival_settings, PricingClassification,
  fee_rate, limit, archival,
}

unfoldable pub entry {ℓ} : {A : Type ℓ} → List (String × A) → String → Option A
entry [] key = none
entry ((k, v) ∷ rest) key = if str_eq key k then some v else entry rest key

unfoldable pub config_setting_human_name : ConfigSettingId → String
config_setting_human_name contract_compute_v0 = "Contract Compute V0"
config_setting_human_name contract_ledger_cost_v0 = "Contract Ledger Cost V0"
config_setting_human_name contract_historical_data_v0 = "Contract Historical Data V0"
config_setting_human_name contract_events_v0 = "Contract Events V0"
config_setting_human_name contract_bandwidth_v0 = "Contract Bandwidth V0"
config_setting_human_name state_archival_settings = "State Archival"

-- `id as u32`
unfoldable pub setting_number : ConfigSettingId → ℕ
setting_number contract_compute_v0 = 0
setting_number contract_ledger_cost_v0 = 1
setting_number contract_historical_data_v0 = 2
setting_number contract_events_v0 = 3
setting_number contract_bandwidth_v0 = 4
setting_number state_archival_settings = 5

unfoldable pub config_setting_id_for_prefix : String → Option ConfigSettingId
unfolding entry
config_setting_id_for_prefix = entry (
    ("contract_compute", contract_compute_v0)
    ∷ ("contract_ledger_cost", contract_ledger_cost_v0)
    ∷ ("contract_historical_data", contract_historical_data_v0)
    ∷ ("contract_events", contract_events_v0)
    ∷ ("contract_bandwidth", contract_bandwidth_v0)
    ∷ ("state_archival", state_archival_settings)
    ∷ [])

unfoldable pub directly_affects_pricing : PricingClassification → Bool
directly_affects_pricing fee_rate = true
directly_affects_pricing _ = false

unfoldable pub setting_pricing_classification : String → Option PricingClassification
unfolding entry
setting_pricing_classification = entry (
    ("contract_compute.fee_rate_per_instructions_increment", fee_rate)
    ∷ ("contract_ledger_cost.fee_disk_read_ledger_entry", fee_rate)
    ∷ ("contract_ledger_cost.fee_write_ledger_entry", fee_rate)
    ∷ ("contract_ledger_cost.fee_disk_read1_kb", fee_rate)
    ∷ ("contract_ledger_cost.rent_fee1_kb_soroban_state_size_low", fee_rate)
    ∷ ("contract_ledger_cost.rent_fee1_kb_soroban_state_size_high", fee_rate)
    ∷ ("contract_historical_data.fee_historical1_kb", fee_rate)
    ∷ ("contract_events.fee_contract_events1_kb", fee_rate)
    ∷ ("contract_bandwidth.fee_tx_size1_kb", fee_rate)
    ∷ ("state_archival.persistent_rent_rate_denominator", fee_rate)
    ∷ ("state_archival.temp_rent_rate_denominator", fee_rate)
    ∷ ("contract_compute.ledger_max_instructions", limit)
    ∷ ("contract_compute.tx_max_instructions", limit)
    ∷ ("contract_compute.tx_memory_limit", limit)
    ∷ ("contract_ledger_cost.ledger_max_disk_read_entries", limit)
    ∷ ("contract_ledger_cost.ledger_max_disk_read_bytes", limit)
    ∷ ("contract_ledger_cost.ledger_max_write_ledger_entries", limit)
    ∷ ("contract_ledger_cost.ledger_max_write_bytes", limit)
    ∷ ("contract_ledger_cost.tx_max_disk_read_entries", limit)
    ∷ ("contract_ledger_cost.tx_max_disk_read_bytes", limit)
    ∷ ("contract_ledger_cost.tx_max_write_ledger_entries", limit)
    ∷ ("contract_ledger_cost.tx_max_write_bytes", limit)
    ∷ ("contract_ledger_cost.soroban_state_target_size_bytes", limit)
    ∷ ("contract_ledger_cost.soroban_state_rent_fee_growth_factor", limit)
    ∷ ("contract_events.tx_max_contract_events_size_bytes", limit)
    ∷ ("contract_bandwidth.ledger_max_txs_size_bytes", limit)
    ∷ ("contract_bandwidth.tx_max_size_bytes", limit)
    ∷ ("state_archival.max_entry_ttl", archival)
    ∷ ("state_archival.min_temporary_ttl", archival)
    ∷ ("state_archival.min_persistent_ttl", archival)
    ∷ ("state_archival.max_entries_to_archive", archival)
    ∷ ("state_archival.live_soroban_state_size_window_sample_size", archival)
    ∷ ("state_archival.live_soroban_state_size_window_sample_period", archival)
    ∷ ("state_archival.eviction_scan_size", archival)
    ∷ ("state_archival.starting_eviction_scan_level", archival)
    ∷ [])

-- `setting_unit` is `setting_unit_description`.
unfoldable pub setting_unit : String → Option String
unfolding entry
setting_unit = entry (
    ("contract_compute.fee_rate_per_instructions_increment", "stroops per 10,000 CPU instructions")
    ∷ ("contract_ledger_cost.fee_disk_read_ledger_entry", "stroops per entry")
    ∷ ("contract_ledger_cost.fee_write_ledger_entry", "stroops per entry")
    ∷ ("contract_ledger_cost.fee_disk_read1_kb", "stroops per 1KB")
    ∷ ("contract_ledger_cost.rent_fee1_kb_soroban_state_size_low", "stroops per 1KB")
    ∷ ("contract_ledger_cost.rent_fee1_kb_soroban_state_size_high", "stroops per 1KB")
    ∷ ("contract_historical_data.fee_historical1_kb", "stroops per 1KB")
    ∷ ("contract_events.fee_contract_events1_kb", "stroops per 1KB")
    ∷ ("contract_bandwidth.fee_tx_size1_kb", "stroops per 1KB")
    ∷ ("state_archival.persistent_rent_rate_denominator", "fractional fee scaling")
    ∷ ("state_archival.temp_rent_rate_denominator", "fractional fee scaling")
    ∷ ("contract_compute.ledger_max_instructions", "instructions")
    ∷ ("contract_compute.tx_max_instructions", "instructions")
    ∷ ("contract_compute.tx_memory_limit", "bytes")
    ∷ ("contract_ledger_cost.ledger_max_disk_read_bytes", "bytes")
    ∷ ("contract_ledger_cost.ledger_max_write_bytes", "bytes")
    ∷ ("contract_ledger_cost.tx_max_disk_read_bytes", "bytes")
    ∷ ("contract_ledger_cost.tx_max_write_bytes", "bytes")
    ∷ ("contract_ledger_cost.soroban_state_target_size_bytes", "bytes")
    ∷ ("contract_events.tx_max_contract_events_size_bytes", "bytes")
    ∷ ("contract_bandwidth.ledger_max_txs_size_bytes", "bytes")
    ∷ ("contract_bandwidth.tx_max_size_bytes", "bytes")
    ∷ ("contract_ledger_cost.ledger_max_disk_read_entries", "entries")
    ∷ ("contract_ledger_cost.ledger_max_write_ledger_entries", "entries")
    ∷ ("contract_ledger_cost.tx_max_disk_read_entries", "entries")
    ∷ ("contract_ledger_cost.tx_max_write_ledger_entries", "entries")
    ∷ ("state_archival.max_entries_to_archive", "entries")
    ∷ ("state_archival.eviction_scan_size", "entries")
    ∷ ("contract_ledger_cost.soroban_state_rent_fee_growth_factor", "growth factor")
    ∷ ("state_archival.max_entry_ttl", "ledgers")
    ∷ ("state_archival.min_temporary_ttl", "ledgers")
    ∷ ("state_archival.min_persistent_ttl", "ledgers")
    ∷ ("state_archival.live_soroban_state_size_window_sample_period", "ledgers")
    ∷ ("state_archival.live_soroban_state_size_window_sample_size", "samples")
    ∷ ("state_archival.starting_eviction_scan_level", "level")
    ∷ [])
