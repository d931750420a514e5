-- ===== src/Snapshot/Diff/Pricing.antt =====
-- src/config_snapshot/diff.rs and model.rs: the flag, the unit and the explanation of each reported
-- change against the tables of the model.
use Prim.Native.String.{String}
use soroban_cost_estimator.Prelude.{
  ◌≡◌, refl, Bool, true, false, Bool-cases, inl, inr, Option, none, some, List, ◌++◌, All,
  All-append,
}
use soroban_cost_estimator.Snapshot.Model.{
  ConfigSnapshot, PricingClassification, ContractComputeV0, ContractLedgerCostV0,
  ContractHistoricalDataV0, ContractEventsV0, ContractBandwidthV0, StateArchivalV0,
}
use soroban_cost_estimator.Snapshot.Diff.Explanation.{setting_explanation}
use soroban_cost_estimator.Snapshot.Model.Tables.{
  entry, directly_affects_pricing, setting_pricing_classification, setting_unit,
}
use soroban_cost_estimator.Snapshot.Diff.Field.{
  FieldDiff, SettingChangeKind, value, added, removed, unknown_kind, Shown, nat_shown, int_shown,
  check, push_presence_change, new_field_diff, new_with_state,
}
use soroban_cost_estimator.Snapshot.Diff.Sections.{
  contract_compute_fields, ledger_cost_fields, historical_data_fields, events_fields,
  bandwidth_fields, state_archival_fields, compare_contract_compute, compare_ledger_cost,
  compare_historical_data, compare_events, compare_bandwidth, compare_state_archival,
}
use soroban_cost_estimator.Snapshot.Diff.Report.{diff_snapshots, all_changes, of_changes}

unfoldable pub is_some : {A : Type 0} → Option A → Bool
is_some none = false
is_some (some a) = true

-- Whether the classification of a setting says that it prices something.
unfoldable pub affects : Option PricingClassification → Bool
affects none = false
affects (some c) = directly_affects_pricing c

-- A change of a value is flagged as its classification says and comes with a unit and an
-- explanation, and a section that appears or disappears is flagged as a pricing change.
unfoldable pub IsAgreed : FieldDiff → Type 0
IsAgreed c = agreed c.change_kind
  where
    agreed : SettingChangeKind → Type 0
    agreed value =
        (c.is_pricing_change ≡ affects c.pricing_classification)
        × (is_some c.unit ≡ true)
        × (is_some c.explanation ≡ true)
    agreed added = c.is_pricing_change ≡ true
    agreed removed = c.is_pricing_change ≡ true
    agreed unknown_kind = false ≡ true

check-IsAgreed :
    {A : Type 0} ⦃s : Shown A⦄ (path : String) (a b : A) (p : Bool)
    → p ≡ affects (setting_pricing_classification path)
    → is_some (setting_unit path) ≡ true
    → is_some (setting_explanation path) ≡ true
    → All IsAgreed (check path a b p)
unfolding check IsAgreed new_field_diff new_with_state
check-IsAgreed ⦃s⦄ path a b p flag unit_known explained = elim (Bool-cases (s.eq a b)) [
  | inl t ↦ rw t tt
  | inr f ↦ rw f ((flag, unit_known, explained), tt)
]

presence-IsAgreed :
    (path : String) (is_added : Bool) → All IsAgreed (push_presence_change path is_added)
unfolding push_presence_change IsAgreed new_with_state
presence-IsAgreed path true = (refl, tt)
presence-IsAgreed path false = (refl, tt)

and_then : (xs ys : List FieldDiff) → All IsAgreed xs → All IsAgreed ys → All IsAgreed (xs ++ ys)
and_then = All-append IsAgreed

contract_compute-IsAgreed :
    (old new : ContractComputeV0) → All IsAgreed (contract_compute_fields old new)
unfolding contract_compute_fields setting_pricing_classification setting_unit setting_explanation
    entry affects directly_affects_pricing is_some
contract_compute-IsAgreed old new =
    (and_then _ _ (check-IsAgreed _ _ _ _ refl refl refl) (
      and_then _ _ (check-IsAgreed _ _ _ _ refl refl refl) (
        and_then _ _ (check-IsAgreed _ _ _ _ refl refl refl)
          (check-IsAgreed _ _ _ _ refl refl refl))))

compare_contract_compute-IsAgreed :
    (old new : Option ContractComputeV0) → All IsAgreed (compare_contract_compute old new)
unfolding compare_contract_compute
compare_contract_compute-IsAgreed none none = tt
compare_contract_compute-IsAgreed none (some new) = presence-IsAgreed _ true
compare_contract_compute-IsAgreed (some old) none = presence-IsAgreed _ false
compare_contract_compute-IsAgreed (some old) (some new) = contract_compute-IsAgreed old new

ledger_cost-IsAgreed : (old new : ContractLedgerCostV0) → All IsAgreed (ledger_cost_fields old new)
unfolding ledger_cost_fields setting_pricing_classification setting_unit setting_explanation entry
    affects directly_affects_pricing is_some
ledger_cost-IsAgreed old new =
    (and_then _ _ (check-IsAgreed _ _ _ _ refl refl refl) (
      and_then _ _ (check-IsAgreed _ _ _ _ refl refl refl) (
        and_then _ _ (check-IsAgreed _ _ _ _ refl refl refl) (
          and_then _ _ (check-IsAgreed _ _ _ _ refl refl refl) (
            and_then _ _ (check-IsAgreed _ _ _ _ refl refl refl) (
              and_then _ _ (check-IsAgreed _ _ _ _ refl refl refl) (
                and_then _ _ (check-IsAgreed _ _ _ _ refl refl refl) (
                  and_then _ _ (check-IsAgreed _ _ _ _ refl refl refl) (
                    and_then _ _ (check-IsAgreed _ _ _ _ refl refl refl) (
                      and_then _ _ (check-IsAgreed _ _ _ _ refl refl refl)
                        (check-IsAgreed _ _ _ _ refl refl refl)))))))))))

compare_ledger_cost-IsAgreed :
    (old new : Option ContractLedgerCostV0) → All IsAgreed (compare_ledger_cost old new)
unfolding compare_ledger_cost
compare_ledger_cost-IsAgreed none none = tt
compare_ledger_cost-IsAgreed none (some new) = presence-IsAgreed _ true
compare_ledger_cost-IsAgreed (some old) none = presence-IsAgreed _ false
compare_ledger_cost-IsAgreed (some old) (some new) = ledger_cost-IsAgreed old new

historical_data-IsAgreed :
    (old new : ContractHistoricalDataV0) → All IsAgreed (historical_data_fields old new)
unfolding historical_data_fields setting_pricing_classification setting_unit setting_explanation
    entry affects directly_affects_pricing is_some
historical_data-IsAgreed old new = (check-IsAgreed _ _ _ _ refl refl refl)

compare_historical_data-IsAgreed :
    (old new : Option ContractHistoricalDataV0) → All IsAgreed (compare_historical_data old new)
unfolding compare_historical_data
compare_historical_data-IsAgreed none none = tt
compare_historical_data-IsAgreed none (some new) = presence-IsAgreed _ true
compare_historical_data-IsAgreed (some old) none = presence-IsAgreed _ false
compare_historical_data-IsAgreed (some old) (some new) = historical_data-IsAgreed old new

events-IsAgreed : (old new : ContractEventsV0) → All IsAgreed (events_fields old new)
unfolding events_fields setting_pricing_classification setting_unit setting_explanation entry
    affects directly_affects_pricing is_some
events-IsAgreed old new =
    (and_then _ _ (check-IsAgreed _ _ _ _ refl refl refl) (check-IsAgreed _ _ _ _ refl refl refl))

compare_events-IsAgreed :
    (old new : Option ContractEventsV0) → All IsAgreed (compare_events old new)
unfolding compare_events
compare_events-IsAgreed none none = tt
compare_events-IsAgreed none (some new) = presence-IsAgreed _ true
compare_events-IsAgreed (some old) none = presence-IsAgreed _ false
compare_events-IsAgreed (some old) (some new) = events-IsAgreed old new

bandwidth-IsAgreed : (old new : ContractBandwidthV0) → All IsAgreed (bandwidth_fields old new)
unfolding bandwidth_fields setting_pricing_classification setting_unit setting_explanation entry
    affects directly_affects_pricing is_some
bandwidth-IsAgreed old new =
    (and_then _ _ (check-IsAgreed _ _ _ _ refl refl refl) (
      and_then _ _ (check-IsAgreed _ _ _ _ refl refl refl) (check-IsAgreed _ _ _ _ refl refl refl)))

compare_bandwidth-IsAgreed :
    (old new : Option ContractBandwidthV0) → All IsAgreed (compare_bandwidth old new)
unfolding compare_bandwidth
compare_bandwidth-IsAgreed none none = tt
compare_bandwidth-IsAgreed none (some new) = presence-IsAgreed _ true
compare_bandwidth-IsAgreed (some old) none = presence-IsAgreed _ false
compare_bandwidth-IsAgreed (some old) (some new) = bandwidth-IsAgreed old new

state_archival-IsAgreed : (old new : StateArchivalV0) → All IsAgreed (state_archival_fields old new)
unfolding state_archival_fields setting_pricing_classification setting_unit setting_explanation
    entry affects directly_affects_pricing is_some
state_archival-IsAgreed old new =
    (and_then _ _ (check-IsAgreed _ _ _ _ refl refl refl) (
      and_then _ _ (check-IsAgreed _ _ _ _ refl refl refl) (
        and_then _ _ (check-IsAgreed _ _ _ _ refl refl refl) (
          and_then _ _ (check-IsAgreed _ _ _ _ refl refl refl) (
            and_then _ _ (check-IsAgreed _ _ _ _ refl refl refl) (
              and_then _ _ (check-IsAgreed _ _ _ _ refl refl refl) (
                and_then _ _ (check-IsAgreed _ _ _ _ refl refl refl) (
                  and_then _ _ (check-IsAgreed _ _ _ _ refl refl refl) (
                    and_then _ _ (check-IsAgreed _ _ _ _ refl refl refl)
                      (check-IsAgreed _ _ _ _ refl refl refl))))))))))

compare_state_archival-IsAgreed :
    (old new : Option StateArchivalV0) → All IsAgreed (compare_state_archival old new)
unfolding compare_state_archival
compare_state_archival-IsAgreed none none = tt
compare_state_archival-IsAgreed none (some new) = presence-IsAgreed _ true
compare_state_archival-IsAgreed (some old) none = presence-IsAgreed _ false
compare_state_archival-IsAgreed (some old) (some new) = state_archival-IsAgreed old new

-- Every change that `diff_snapshots` reports is of a value, flagged as a pricing change exactly when
-- the classification of its path directly affects pricing and given with a unit and an explanation,
-- or is the appearance or disappearance of a section, which is flagged as a pricing change.
pub diff_snapshots-IsAgreed :
    (old new : ConfigSnapshot) → All IsAgreed (diff_snapshots old new).changes
unfolding diff_snapshots of_changes all_changes
diff_snapshots-IsAgreed old new = and_then _ _ (compare_contract_compute-IsAgreed _ _) (
    and_then _ _ (compare_ledger_cost-IsAgreed _ _) (
      and_then _ _ (compare_historical_data-IsAgreed _ _) (
        and_then _ _ (compare_events-IsAgreed _ _)
          (and_then _ _ (compare_bandwidth-IsAgreed _ _) (compare_state_archival-IsAgreed _ _)))))
