-- ===== src/Snapshot/Payload.antt =====
-- src/config_snapshot/diff.rs, `diff_payloads`, and the payload of src/config_snapshot/model.rs. The
-- fields of a `BTreeMap` are listed with their keys.
pub mod Complete
pub mod Fields
use Prim.Native.Nat.{Ordering}
use Prim.Native.String
use Prim.Native.String.{String}
use text.Mathlib.Text.{◌==◌ as str_eq}
use soroban_cost_estimator.Prelude.{
  Bool, true, false, Option, none, some, List, [], ◌∷◌, ◌++◌, if◌then◌else◌,
}
use soroban_cost_estimator.Snapshot.Model.{ConfigSnapshot}
use soroban_cost_estimator.Snapshot.Model.Tables.{entry}
use soroban_cost_estimator.Snapshot.Diff.Field.{
  FieldDiff, SettingState, missing, unknown_state, as_value_string, unknown_kind, or_missing,
  new_with_state,
}
use soroban_cost_estimator.Snapshot.Diff.Report.{ConfigDiff, diff_snapshots, of_changes}
use soroban_cost_estimator.Snapshot.Same.{eq_option}

-- `serde_json::Value`: its equality, the text of a JSON string, and its compact print.
pub record JsonValues : Type 1 where
  pub Value : Type 0
  pub eq : Value → Value → Bool
  pub as_str : Value → Option String
  pub to_string : Value → String

pub record SnapshotPayload (json : JsonValues) : Type 0 where
  pub snapshot : ConfigSnapshot
  pub unknown_fields : List (String × json.Value)

unfoldable pub keys {ℓ} : {A : Type ℓ} → List (String × A) → List String
keys [] = []
keys ((k, v) ∷ m) = k ∷ keys m

abbrev pub is_greater : Ordering → Bool
is_greater Ordering.gt = true
is_greater _ = false

-- `names.sort()`
unfoldable pub insert_name : String → List String → List String
insert_name name [] = name ∷ []
insert_name name (n ∷ ns) =
    let rest = insert_name name ns in
    if is_greater (String.compare name n) then n ∷ rest else name ∷ n ∷ ns

unfoldable pub sort_names : List String → List String
sort_names [] = []
sort_names (n ∷ ns) = insert_name n (sort_names ns)

-- `names.dedup()`: the names behind `last` without those that repeat the one before.
unfoldable pub dedup_behind : String → List String → List String
dedup_behind last [] = []
dedup_behind last (n ∷ ns) =
    let repeated = dedup_behind last ns in
    let rest = dedup_behind n ns in if str_eq last n then repeated else n ∷ rest

unfoldable pub dedup : List String → List String
dedup [] = []
dedup (n ∷ ns) = n ∷ dedup_behind n ns

module _ (json : JsonValues) where
  unfoldable pub render_unknown_value : json.Value → String
  render_unknown_value value = text (json.as_str value)
    where
      text : Option String → String
      text (some s) = s
      text none = json.to_string value

  unfoldable pub unknown_field_state : Option json.Value → SettingState
  unfolding render_unknown_value
  unknown_field_state (some value) = unknown_state (render_unknown_value value)
  unknown_field_state none = missing

  -- What one round of the loop pushes.
  unfoldable pub unknown_change :
      List (String × json.Value) → List (String × json.Value) → String → List FieldDiff
  unfolding unknown_field_state as_value_string
  unknown_change old new name =
      let old_state = unknown_field_state (entry old name) in
      let new_state = unknown_field_state (entry new name) in
      if eq_option json.eq (entry old name) (entry new name)
      then []
      else new_with_state name (or_missing (as_value_string old_state))
          (or_missing (as_value_string new_state)) true none unknown_kind old_state new_state
        ∷ []

  unfoldable pub unknown_changes :
      List (String × json.Value) → List (String × json.Value) → List String → List FieldDiff
  unknown_changes old new [] = []
  unknown_changes old new (n ∷ ns) = unknown_change old new n ++ unknown_changes old new ns

  unfoldable pub diff_payloads : SnapshotPayload json → SnapshotPayload json → ConfigDiff
  unfolding sort_names dedup unknown_changes
  diff_payloads old new =
      let diff = diff_snapshots old.snapshot new.snapshot in
      let names = dedup (sort_names (keys old.unknown_fields ++ keys new.unknown_fields)) in
      of_changes diff.old_snapshot diff.new_snapshot
        (diff.changes ++ unknown_changes old.unknown_fields new.unknown_fields names)
