-- ===== src/Snapshot/Payload/Fields.antt =====
-- src/config_snapshot/model.rs, `KNOWN_SNAPSHOT_FIELDS` and the fields that `SnapshotPayload::parse`
-- keeps, and the members that a snapshot is stored with. What serde_json parses is an argument: the
-- snapshot, and the object's members; what it writes for a value is one too.
-- The order of an object's members is not modelled: they are listed as they are written.
use Prim.Native.String.{String}
use text.Mathlib.Text.{◌==◌ as str_eq}
use soroban_cost_estimator.Prelude.{
  ℕ, ◌≡◌, refl, Bool, false, not, any, Option, none, some, List, [], ◌∷◌, ◌++◌, All, arith, ap,
  ◌||◌,
}
use soroban_cost_estimator.Snapshot.Model.{
  ConfigSnapshot, ContractComputeV0, ContractLedgerCostV0, ContractHistoricalDataV0,
  ContractEventsV0, ContractBandwidthV0, StateArchivalV0,
}
use soroban_cost_estimator.Snapshot.Diff.Report.{filter}
use soroban_cost_estimator.Snapshot.Payload.{JsonValues, SnapshotPayload, keys}

abbrev pub known_snapshot_fields : List String
known_snapshot_fields =
    "schema_version" ∷ "network" ∷ "timestamp" ∷ "ledger" ∷ "protocol_version" ∷ "contract_compute"
    ∷ "contract_ledger_cost" ∷ "contract_historical_data" ∷ "contract_events" ∷ "contract_bandwidth"
    ∷ "state_archival" ∷ []

-- `KNOWN_SNAPSHOT_FIELDS.contains(&name)`
unfoldable pub is_known : String → Bool
is_known name = any (λ known. str_eq known name) known_snapshot_fields

module _ (json : JsonValues) where
  unfoldable pub from_snapshot : ConfigSnapshot → SnapshotPayload json
  from_snapshot snapshot = record { snapshot = snapshot; unknown_fields = [] }

  unfoldable pub of_object : ConfigSnapshot → List (String × json.Value) → SnapshotPayload json
  of_object snapshot object = record {
    snapshot = snapshot;
    unknown_fields = filter (λ member. not (is_known member.0)) object;
  }

  unfoldable pub unknown_field_names : SnapshotPayload json → List String
  unknown_field_names payload = keys payload.unknown_fields

one_less :
    (a b c d e rest : Bool)
    → (a || (b || (c || (d || (e || rest))))) ≡ false
    → (a || (b || (c || (d || rest)))) ≡ false
one_less a b c d e rest h = ground (arith, h)

-- What serde_json writes for a value of each type.
pub record Encoders (json : JsonValues) : Type 0 where
  pub number : ℕ → json.Value
  pub string : String → json.Value
  pub ledgers : List (String × ℕ) → json.Value
  pub compute : Option ContractComputeV0 → json.Value
  pub ledger_cost : Option ContractLedgerCostV0 → json.Value
  pub historical_data : Option ContractHistoricalDataV0 → json.Value
  pub events : Option ContractEventsV0 → json.Value
  pub bandwidth : Option ContractBandwidthV0 → json.Value
  pub archival : Option StateArchivalV0 → json.Value

-- The names of the fields of `ConfigSnapshot`.
abbrev pub declared_fields : List String
declared_fields =
    "schema_version" ∷ "network" ∷ "timestamp" ∷ "ledger" ∷ "settings_last_modified"
    ∷ "protocol_version" ∷ "contract_compute" ∷ "contract_ledger_cost" ∷ "contract_historical_data"
    ∷ "contract_events" ∷ "contract_bandwidth" ∷ "state_archival" ∷ []

module _ (json : JsonValues) (enc : Encoders json) where
  -- `skip_serializing_if = "BTreeMap::is_empty"`
  unfoldable pub modified_member : List (String × ℕ) → List (String × json.Value)
  modified_member [] = []
  modified_member (m ∷ ms) = ("settings_last_modified", enc.ledgers (m ∷ ms)) ∷ []

  -- `skip_serializing_if = "Option::is_none"`
  unfoldable pub protocol_member : Option ℕ → List (String × json.Value)
  protocol_member none = []
  protocol_member (some version) = ("protocol_version", enc.number version) ∷ []

  -- The members of the object that the derived `Serialize` writes for a snapshot.
  unfoldable pub stored_members : ConfigSnapshot → List (String × json.Value)
  unfolding modified_member protocol_member
  stored_members s =
      ("schema_version", enc.number s.schema_version)
      ∷ ("network", enc.string s.network)
      ∷ ("timestamp", enc.string s.timestamp)
      ∷ ("ledger", enc.number s.ledger)
      ∷ (modified_member s.settings_last_modified
          ++ (protocol_member s.protocol_version
              ++ ("contract_compute", enc.compute s.contract_compute)
                ∷ ("contract_ledger_cost", enc.ledger_cost s.contract_ledger_cost)
                ∷ ("contract_historical_data", enc.historical_data s.contract_historical_data)
                ∷ ("contract_events", enc.events s.contract_events)
                ∷ ("contract_bandwidth", enc.bandwidth s.contract_bandwidth)
                ∷ ("state_archival", enc.archival s.state_archival)
                ∷ []))

  -- The name of no field of `ConfigSnapshot`.
  abbrev pub Foreign : String × json.Value → Type 0
  Foreign member = any (λ field. str_eq field member.0) declared_fields ≡ false

  unknown-Foreign :
      (name : String)
      → any (λ field. str_eq field name) declared_fields ≡ false
      → is_known name ≡ false
  unfolding is_known
  unknown-Foreign name h =
      one_less (str_eq "schema_version" name) (str_eq "network" name) (str_eq "timestamp" name)
        (str_eq "ledger" name) (str_eq "settings_last_modified" name) _ h

  -- Foreign members are kept.
  filter-Foreign :
      (extras : List (String × json.Value))
      → All Foreign extras
      → filter (λ member. not (is_known member.0)) extras ≡ extras
  unfolding filter
  filter-Foreign [] h = refl
  filter-Foreign (m ∷ ms) h = rw (unknown-Foreign m.0 h.0, filter-Foreign ms h.1) refl

  -- The members behind the ledger's, and the others behind them.
  abbrev members_from :
      ConfigSnapshot
      → List (String × ℕ)
      → Option ℕ
      → List (String × json.Value)
      → List (String × json.Value)
  members_from s modified version extras =
      stored_members (record s { settings_last_modified = modified; protocol_version = version })
      ++ extras

  filter_members :
      (s : ConfigSnapshot) (modified : List (String × ℕ)) (version : Option ℕ)
      (extras : List (String × json.Value))
      → All Foreign extras
      → filter (λ member. not (is_known member.0)) (members_from s modified version extras)
        ≡ modified_member modified ++ extras
  unfolding stored_members is_known filter modified_member protocol_member
  filter_members s [] none extras h = filter-Foreign extras h
  filter_members s [] (some v) extras h = filter-Foreign extras h
  filter_members s (m ∷ ms) none extras h =
      ap (λ l. ("settings_last_modified", enc.ledgers (m ∷ ms)) ∷ l) (filter-Foreign extras h)
  filter_members s (m ∷ ms) (some v) extras h =
      ap (λ l. ("settings_last_modified", enc.ledgers (m ∷ ms)) ∷ l) (filter-Foreign extras h)

  -- Of an object that holds the members that this build writes for a snapshot, and behind them any
  -- members whose names are no field's, the payload keeps as unknown exactly those others and
  -- `settings_last_modified`, which this build writes itself if it is not empty.
  pub of_object-stored_members :
      (loaded s : ConfigSnapshot) (extras : List (String × json.Value))
      → All Foreign extras
      → (of_object json loaded (stored_members s ++ extras)).unknown_fields
        ≡ modified_member s.settings_last_modified ++ extras
  unfolding of_object stored_members
  of_object-stored_members loaded s extras h =
      filter_members s s.settings_last_modified s.protocol_version extras h
