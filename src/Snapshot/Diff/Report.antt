-- ===== src/Snapshot/Diff/Report.antt =====
-- src/config_snapshot/diff.rs, `ConfigDiff`, `diff_snapshots`, `pricing_only`, `resolve_exit_code`.
use Prim.Native.String.{String}
use soroban_cost_estimator.Prelude.{
  ℕ, Bool, true, false, not, Option, none, some, List, [], ◌∷◌, ◌++◌, any, if◌then◌else◌,
}
use soroban_cost_estimator.Snapshot.Model.{ConfigSnapshot}
use soroban_cost_estimator.Snapshot.Diff.Field.{
  FieldDiff, SettingChangeKind, value, added, removed, unknown_kind,
}
use soroban_cost_estimator.Snapshot.Diff.Sections.{
  compare_contract_compute, compare_ledger_cost, compare_historical_data, compare_events,
  compare_bandwidth, compare_state_archival,
}

pub record SnapshotInfo : Type 0 where
  pub network : String
  pub timestamp : String
  pub ledger : ℕ

pub record ConfigDiff : Type 0 where
  pub old_snapshot : SnapshotInfo
  pub new_snapshot : SnapshotInfo
  pub changes : List FieldDiff
  pub has_pricing_changes : Bool
  pub has_unknown_changes : Bool

unfoldable pub filter {ℓ} : {A : Type ℓ} → (A → Bool) → List A → List A
filter p [] = []
filter p (x ∷ xs) = let rest = filter p xs in if p x then x ∷ rest else rest

unfoldable pub is_unknown : SettingChangeKind → Bool
is_unknown unknown_kind = true
is_unknown value = false
is_unknown added = false
is_unknown removed = false

unfoldable pub snapshot_info : ConfigSnapshot → SnapshotInfo
snapshot_info s = record { network = s.network; timestamp = s.timestamp; ledger = s.ledger }

-- What `diff_snapshots` gathers in `changes`.
unfoldable pub all_changes : ConfigSnapshot → ConfigSnapshot → List FieldDiff
all_changes old new =
    compare_contract_compute old.contract_compute new.contract_compute
    ++ (compare_ledger_cost old.contract_ledger_cost new.contract_ledger_cost
        ++ (compare_historical_data old.contract_historical_data new.contract_historical_data
            ++ (compare_events old.contract_events new.contract_events
                ++ (compare_bandwidth old.contract_bandwidth new.contract_bandwidth
                    ++ compare_state_archival old.state_archival new.state_archival))))

-- The `ConfigDiff` that `diff_snapshots` and `pricing_only` both build from their changes.
unfoldable pub of_changes : SnapshotInfo → SnapshotInfo → List FieldDiff → ConfigDiff
of_changes old new changes = record {
  old_snapshot = old;
  new_snapshot = new;
  changes = changes;
  has_pricing_changes = any (λ c. c.is_pricing_change) changes;
  has_unknown_changes = any (λ c. is_unknown c.change_kind) changes;
}

unfoldable pub diff_snapshots : ConfigSnapshot → ConfigSnapshot → ConfigDiff
diff_snapshots old new = of_changes (snapshot_info old) (snapshot_info new) (all_changes old new)

unfoldable pub pricing_only : ConfigDiff → ConfigDiff
pricing_only diff =
    of_changes diff.old_snapshot diff.new_snapshot (filter (λ c. c.is_pricing_change) diff.changes)

unfoldable pub has_any_changes : ConfigDiff → Bool
has_any_changes diff = is_nonempty diff.changes
  where
    is_nonempty : List FieldDiff → Bool
    is_nonempty [] = false
    is_nonempty (c ∷ cs) = true

-- `f64` as the program uses it.
pub record Floats : Type 1 where
  pub F64 : Type 0
  pub parse : String → Option F64
  pub abs : F64 → F64
  pub max : F64 → F64 → F64
  pub sub : F64 → F64 → F64
  pub div : F64 → F64 → F64
  pub mul : F64 → F64 → F64
  pub geq : F64 → F64 → Bool
  pub epsilon : F64
  pub hundred : F64

module _ (floats : Floats) where
  unfoldable pub is_significant : floats.F64 → FieldDiff → Bool
  is_significant threshold change =
      if not change.is_pricing_change
      then false
      else judge (floats.parse change.old_value) (floats.parse change.new_value)
    where
      judge : Option floats.F64 → Option floats.F64 → Bool
      judge (some old) (some new) =
          let denominator = floats.max (floats.abs old) floats.epsilon in
          let ratio = floats.div (floats.abs (floats.sub new old)) denominator in
          floats.geq (floats.mul ratio floats.hundred) threshold
      judge none _ = true
      judge (some old) none = true

  unfoldable pub has_significant_pricing_changes : floats.F64 → ConfigDiff → Bool
  has_significant_pricing_changes threshold diff = any (is_significant threshold) diff.changes

  unfoldable pub resolve_exit_code : ConfigDiff → Bool → Bool → Option floats.F64 → ℕ
  resolve_exit_code diff ignore_pricing_exit fail_on_any_change threshold_percent =
      if ignore_pricing_exit
      then 0
      else if fail_on_any_change
      then number (has_any_changes diff)
      else number (pricing_changed threshold_percent)
    where
      number : Bool → ℕ
      number true = 1
      number false = 0

      pricing_changed : Option floats.F64 → Bool
      pricing_changed (some t) = has_significant_pricing_changes t diff
      pricing_changed none = diff.has_pricing_changes
