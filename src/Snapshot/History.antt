-- ===== src/Snapshot/History.antt =====
-- src/config_snapshot/history.rs: the changes between stored snapshots in the order of their
-- timestamps.
pub mod Silent
use Prim.Native.String
use Prim.Native.String.{String}
use text.Mathlib.Text.{◌==◌ as str_eq}
use soroban_cost_estimator.Prelude.{ℕ, Bool, if◌then◌else◌, List, [], ◌∷◌, ◌++◌}
use soroban_cost_estimator.Snapshot.Model.{ConfigSnapshot}
use soroban_cost_estimator.Snapshot.Payload.{is_greater}
use soroban_cost_estimator.Snapshot.Diff.Field.{FieldDiff}
use soroban_cost_estimator.Snapshot.Diff.Report.{diff_snapshots}

pub record FieldHistoryEntry : Type 0 where
  pub field_path : String
  pub timestamp : String
  pub ledger : ℕ
  pub old_value : String
  pub new_value : String
  pub is_pricing_change : Bool

-- The stable `sort_by` on a text of each element: in front of the first that is not smaller.
unfoldable pub insert_by : {A : Type 0} → (A → String) → A → List A → List A
insert_by key a [] = a ∷ []
insert_by key a (b ∷ bs) =
    let rest = insert_by key a bs in
    if is_greater (String.compare (key a) (key b)) then b ∷ rest else a ∷ b ∷ bs

unfoldable pub sort_by : {A : Type 0} → (A → String) → List A → List A
unfolding insert_by
sort_by key [] = []
sort_by key (a ∷ rest) = insert_by key a (sort_by key rest)

-- The entries of one pair of snapshots.
unfoldable pub entries_of : ConfigSnapshot → List FieldDiff → List FieldHistoryEntry
entries_of new [] = []
entries_of new (change ∷ changes) =
    record {
      field_path = change.field_path;
      timestamp = new.timestamp;
      ledger = new.ledger;
      old_value = change.old_value;
      new_value = change.new_value;
      is_pricing_change = change.is_pricing_change;
    }
    ∷ entries_of new changes

-- The loop over `windows(2)`, behind the first snapshot.
unfoldable pub log_behind : ConfigSnapshot → List ConfigSnapshot → List FieldHistoryEntry
unfolding entries_of
log_behind old [] = []
log_behind old (new ∷ rest) = entries_of new (diff_snapshots old new).changes ++ log_behind new rest

unfoldable pub log_of : List ConfigSnapshot → List FieldHistoryEntry
unfolding log_behind
log_of [] = []
log_of (s ∷ rest) = log_behind s rest

unfoldable pub build_change_log_from_snapshots : List ConfigSnapshot → List FieldHistoryEntry
unfolding log_of sort_by
build_change_log_from_snapshots snapshots =
    log_of (sort_by (λ (s : ConfigSnapshot). s.timestamp) snapshots)

-- `entry(path).and_modify(...).or_insert(entry)`, the map being the list of its values.
unfoldable pub keep_latest : FieldHistoryEntry → List FieldHistoryEntry → List FieldHistoryEntry
keep_latest entry [] = entry ∷ []
keep_latest entry (e ∷ es) =
    let rest = keep_latest entry es in
    if str_eq e.field_path entry.field_path
    then (if is_greater (String.compare entry.timestamp e.timestamp) then entry ∷ es else e ∷ es)
    else e ∷ rest

unfoldable pub latest_of : List FieldHistoryEntry → List FieldHistoryEntry → List FieldHistoryEntry
unfolding keep_latest
latest_of latest [] = latest
latest_of latest (entry ∷ entries) = latest_of (keep_latest entry latest) entries

unfoldable pub last_changed_from_log : List FieldHistoryEntry → List FieldHistoryEntry
unfolding latest_of sort_by
last_changed_from_log entries =
    sort_by (λ (e : FieldHistoryEntry). e.field_path) (latest_of [] entries)
