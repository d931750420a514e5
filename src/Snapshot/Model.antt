-- ===== src/Snapshot/Model.antt =====
-- src/config_snapshot/model.rs: the settings of a snapshot, as serde reads and writes them. u32
-- fields are natural numbers and i64 fields are integers.
pub mod Tables
use Prim.Native.String.{String}
use soroban_cost_estimator.Prelude.{ℕ, Option, List}
use soroban_cost_estimator.Prelude.Int.{ℤ}

pub record ContractComputeV0 : Type 0 where
  pub ledger_max_instructions : ℤ
  pub tx_max_instructions : ℤ
  pub fee_rate_per_instructions_increment : ℤ
  pub tx_memory_limit : ℕ

pub record ContractLedgerCostV0 : Type 0 where
  pub ledger_max_disk_read_entries : ℕ
  pub ledger_max_disk_read_bytes : ℕ
  pub ledger_max_write_ledger_entries : ℕ
  pub ledger_max_write_bytes : ℕ
  pub tx_max_disk_read_entries : ℕ
  pub tx_max_disk_read_bytes : ℕ
  pub tx_max_write_ledger_entries : ℕ
  pub tx_max_write_bytes : ℕ
  pub fee_disk_read_ledger_entry : ℤ
  pub fee_write_ledger_entry : ℤ
  pub fee_disk_read1_kb : ℤ
  pub soroban_state_target_size_bytes : ℤ
  pub rent_fee1_kb_soroban_state_size_low : ℤ
  pub rent_fee1_kb_soroban_state_size_high : ℤ
  pub soroban_state_rent_fee_growth_factor : ℕ

pub record ContractHistoricalDataV0 : Type 0 where
  pub fee_historical1_kb : ℤ

pub record ContractEventsV0 : Type 0 where
  pub tx_max_contract_events_size_bytes : ℕ
  pub fee_contract_events1_kb : ℤ

pub record ContractBandwidthV0 : Type 0 where
  pub ledger_max_txs_size_bytes : ℕ
  pub tx_max_size_bytes : ℕ
  pub fee_tx_size1_kb : ℤ

pub record StateArchivalV0 : Type 0 where
  pub max_entry_ttl : ℕ
  pub min_temporary_ttl : ℕ
  pub min_persistent_ttl : ℕ
  pub persistent_rent_rate_denominator : ℤ
  pub temp_rent_rate_denominator : ℤ
  pub max_entries_to_archive : ℕ
  pub live_soroban_state_size_window_sample_size : ℕ
  pub live_soroban_state_size_window_sample_period : ℕ
  pub eviction_scan_size : ℕ
  pub starting_eviction_scan_level : ℕ

-- `settings_last_modified` is a `BTreeMap`, here in the order of its keys.
pub record ConfigSnapshot : Type 0 where
  pub schema_version : ℕ
  pub network : String
  pub timestamp : String
  pub ledger : ℕ
  pub settings_last_modified : List (String × ℕ)
  pub protocol_version : Option ℕ
  pub contract_compute : Option ContractComputeV0
  pub contract_ledger_cost : Option ContractLedgerCostV0
  pub contract_historical_data : Option ContractHistoricalDataV0
  pub contract_events : Option ContractEventsV0
  pub contract_bandwidth : Option ContractBandwidthV0
  pub state_archival : Option StateArchivalV0

-- src/rpc/config.rs, `ConfigSettingId`
pub data ConfigSettingId : Type 0 where
  contract_compute_v0 : ConfigSettingId
  contract_ledger_cost_v0 : ConfigSettingId
  contract_historical_data_v0 : ConfigSettingId
  contract_events_v0 : ConfigSettingId
  contract_bandwidth_v0 : ConfigSettingId
  state_archival_settings : ConfigSettingId

pub data PricingClassification : Type 0 where
  fee_rate : PricingClassification
  limit : PricingClassification
  archival : PricingClassification
  unknown : PricingClassification
