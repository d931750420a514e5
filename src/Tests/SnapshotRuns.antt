-- ===== src/Tests/SnapshotRuns.antt =====
-- The theorems on snapshots and their diffs, at concrete snapshots.
use soroban_cost_estimator.Prelude.{ℕ, ◌≡◌, ◌↔◌, true, false, leb, Option, none, some, []}
use soroban_cost_estimator.Prelude.Int.{pos}
use soroban_cost_estimator.Snapshot.Model.{
  ConfigSnapshot, ContractComputeV0, ContractLedgerCostV0, ContractEventsV0,
}
use soroban_cost_estimator.Prelude.{refl, ◌∷◌}
use soroban_cost_estimator.Snapshot.Same.{
  same_configuration, eq_option, eq_contract_compute, eq_ledger_cost,
}
use soroban_cost_estimator.Snapshot.Same.Decides.{SameConfiguration, same_configuration_decides}
use Prim.Native.String.{String}
use soroban_cost_estimator.Prelude.{◌==◌, ==_iff, ◌++◌}
use soroban_cost_estimator.Snapshot.Model.Tables.{entry}
use soroban_cost_estimator.Snapshot.Payload.{JsonValues, SnapshotPayload, diff_payloads}
use soroban_cost_estimator.Snapshot.Payload.Complete.{diff_payloads_complete}
use soroban_cost_estimator.Snapshot.Payload.Fields.{
  Encoders, modified_member, stored_members, of_object, of_object-stored_members,
}
use soroban_cost_estimator.Snapshot.Diff.Report.{
  Floats, diff_snapshots, pricing_only, resolve_exit_code,
}
use soroban_cost_estimator.Snapshot.Diff.Complete.{
  SameSettings, diff_snapshots_complete, with_tx_limits, tx_limits_unreported,
}
use soroban_cost_estimator.Snapshot.Diff.ExitCode.{resolve_exit_code-pricing_only}

abbrev compute : ContractComputeV0
compute = record {
  ledger_max_instructions = pos 100;
  tx_max_instructions = pos 101;
  fee_rate_per_instructions_increment = pos 102;
  tx_memory_limit = 103;
}

abbrev dearer_compute : ContractComputeV0
dearer_compute = record {
  ledger_max_instructions = pos 100;
  tx_max_instructions = pos 101;
  fee_rate_per_instructions_increment = pos 900;
  tx_memory_limit = 103;
}

abbrev ledger_cost : ContractLedgerCostV0
ledger_cost = record {
  ledger_max_disk_read_entries = 10;
  ledger_max_disk_read_bytes = 11;
  ledger_max_write_ledger_entries = 12;
  ledger_max_write_bytes = 13;
  tx_max_disk_read_entries = 14;
  tx_max_disk_read_bytes = 15;
  tx_max_write_ledger_entries = 16;
  tx_max_write_bytes = 17;
  fee_disk_read_ledger_entry = pos 18;
  fee_write_ledger_entry = pos 19;
  fee_disk_read1_kb = pos 20;
  soroban_state_target_size_bytes = pos 21;
  rent_fee1_kb_soroban_state_size_low = pos 22;
  rent_fee1_kb_soroban_state_size_high = pos 23;
  soroban_state_rent_fee_growth_factor = 24;
}

abbrev events : ContractEventsV0
events = record { tx_max_contract_events_size_bytes = 50; fee_contract_events1_kb = pos 51 }

abbrev snapshot : ContractComputeV0 → Option ContractEventsV0 → ConfigSnapshot
snapshot compute_settings event_settings = record {
  schema_version = 1;
  network = "testnet";
  timestamp = "2026-01-01T00:00:00Z";
  ledger = 100;
  settings_last_modified = [];
  protocol_version = some 23;
  contract_compute = some compute_settings;
  contract_ledger_cost = some ledger_cost;
  contract_historical_data = none;
  contract_events = event_settings;
  contract_bandwidth = none;
  state_archival = none;
}

abbrev pub before : ConfigSnapshot
before = snapshot compute none

abbrev pub behind : ConfigSnapshot
behind = snapshot dearer_compute (some events)

-- Numbers of which none is read from a text.
abbrev unread : Floats
unread = record {
  F64 = ℕ;
  parse = λ s. none;
  abs = λ a. a;
  max = λ a b. a;
  sub = λ a b. a;
  div = λ a b. a;
  mul = λ a b. a;
  geq = λ a b. leb b a;
  epsilon = 1;
  hundred = 100;
}

diff_snapshots_complete_example :
    ((diff_snapshots before behind).changes ≡ []) ↔ SameSettings before behind
diff_snapshots_complete_example = diff_snapshots_complete before behind

resolve_exit_code-pricing_only_example :
    resolve_exit_code unread (pricing_only (diff_snapshots before behind)) false false (some 5)
    ≡ resolve_exit_code unread (diff_snapshots before behind) false false (some 5)
resolve_exit_code-pricing_only_example =
    resolve_exit_code-pricing_only unread before behind false (some 5)

tx_limits_unreported_example :
    let new = record before { contract_ledger_cost = some (with_tx_limits 1 2 3 4 ledger_cost) } in
    ((diff_snapshots before new).changes ≡ [])
    × (resolve_exit_code unread (diff_snapshots before new) false true none ≡ 0)
tx_limits_unreported_example =
    tx_limits_unreported unread before ledger_cost 1 2 3 4 false true none

same_configuration_decides_example :
    (same_configuration before behind ≡ true) ↔ SameConfiguration before behind
same_configuration_decides_example = same_configuration_decides before behind

recaptured : same_configuration before (record before { ledger = 200 }) ≡ true
unfolding same_configuration eq_option eq_contract_compute eq_ledger_cost
recaptured = refl

-- JSON values that are numbers, none of them a string.
abbrev numbers : JsonValues
numbers = record { Value = ℕ; eq = λ a b. a == b; as_str = λ a. none; to_string = λ a. "number" }

abbrev payload : ℕ → SnapshotPayload numbers
payload n = record { snapshot = before; unknown_fields = ("fee_model", n) ∷ [] }

diff_payloads_complete_example : ((diff_payloads numbers (payload 1) (payload 2)).changes ≡ []) ↔ (
    SameSettings before before
    × ((name : String)
        → entry (payload 1).unknown_fields name ≡ entry (payload 2).unknown_fields name))
diff_payloads_complete_example = diff_payloads_complete numbers ==_iff (payload 1) (payload 2)

-- Every value is written as 0.
abbrev zeros : Encoders numbers
zeros = record {
  number = λ a. 0;
  string = λ a. 0;
  ledgers = λ a. 0;
  compute = λ a. 0;
  ledger_cost = λ a. 0;
  historical_data = λ a. 0;
  events = λ a. 0;
  bandwidth = λ a. 0;
  archival = λ a. 0;
}

-- A snapshot that says when a setting was last changed.
abbrev provenance : ConfigSnapshot
provenance = record before { settings_last_modified = ("contract_compute_v0", 90) ∷ [] }

of_object-stored_members_example :
    (of_object numbers before
      (stored_members numbers zeros provenance ++ ("fee_model", 7) ∷ [])).unknown_fields
    ≡ modified_member numbers zeros provenance.settings_last_modified ++ ("fee_model", 7) ∷ []
of_object-stored_members_example =
    of_object-stored_members numbers zeros before provenance (("fee_model", 7) ∷ []) (refl, tt)
