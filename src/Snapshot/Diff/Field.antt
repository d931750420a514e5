-- ===== src/Snapshot/Diff/Field.antt =====
-- src/config_snapshot/diff.rs: one changed field, how it is built, and the check that finds it.
use Prim.Native.Char.{Char}
use Prim.Native.String.{String}
use soroban_cost_estimator.Prelude.{
  ℕ, ◌≡◌, ◌↔◌, Bool, true, Option, none, some, List, [], ◌∷◌, arith, ◌==◌, ==_iff, if◌then◌else◌,
}
use soroban_cost_estimator.Prelude.Int.{ℤ, eq_ℤ, eq_of_parts}
use soroban_cost_estimator.Text.{chars, of_chars, show, show_ℤ, split}
use soroban_cost_estimator.Snapshot.Model.{ConfigSettingId, PricingClassification}
use soroban_cost_estimator.Snapshot.Diff.Explanation.{setting_explanation}
use soroban_cost_estimator.Snapshot.Model.Tables.{
  config_setting_human_name, setting_number, config_setting_id_for_prefix,
  setting_pricing_classification, setting_unit,
}

pub data SettingState : Type 0 where
  present : String → SettingState
  missing : SettingState
  unknown_state : String → SettingState

unfoldable pub label : SettingState → String
label (present value) = "present"
label missing = "missing"
label (unknown_state value) = "unknown"

unfoldable pub as_value_string : SettingState → Option String
as_value_string (present value) = some value
as_value_string (unknown_state value) = some value
as_value_string missing = none

pub data SettingChangeKind : Type 0 where
  value added removed unknown_kind : SettingChangeKind

pub record FieldDiff : Type 0 where
  pub field_path : String
  pub setting_id : Option ℕ
  pub setting_name : String
  pub old_value : String
  pub new_value : String
  pub is_pricing_change : Bool
  pub explanation : Option String
  pub change_kind : SettingChangeKind
  pub old_state : SettingState
  pub new_state : SettingState
  pub unit : Option String
  pub pricing_classification : Option PricingClassification

-- `field_path.split('.').next().unwrap_or(field_path)`
unfoldable pub prefix : String → String
prefix path = first (split b'.' (chars path))
  where
    first : List (List Char) → String
    first [] = path
    first (p ∷ ps) = of_chars p

abbrev pub map_id {ℓ} : {A : Type ℓ} → (ConfigSettingId → A) → Option ConfigSettingId → Option A
map_id f none = none
map_id f (some id) = some (f id)

abbrev name_or : String → Option ConfigSettingId → String
name_or path none = path
name_or path (some id) = config_setting_human_name id

unfoldable pub setting_display_name : String → String
setting_display_name path = name_or path (config_setting_id_for_prefix (prefix path))

-- `FieldDiff::new_with_state`
unfoldable pub new_with_state :
    String
    → String
    → String
    → Bool
    → Option String
    → SettingChangeKind
    → SettingState
    → SettingState
    → FieldDiff
new_with_state path old_value new_value is_pricing explanation kind old_state new_state =
    let id = config_setting_id_for_prefix (prefix path) in
    record {
      field_path = path;
      setting_id = map_id setting_number id;
      setting_name = name_or path id;
      old_value = old_value;
      new_value = new_value;
      is_pricing_change = is_pricing;
      explanation = explanation;
      change_kind = kind;
      old_state = old_state;
      new_state = new_state;
      unit = setting_unit path;
      pricing_classification = setting_pricing_classification path;
    }

-- `FieldDiff::new`
unfoldable pub new_field_diff : String → String → String → Bool → Option String → FieldDiff
new_field_diff path old_value new_value is_pricing explanation =
    new_with_state path old_value new_value is_pricing explanation value (present old_value)
      (present new_value)

-- `T: PartialEq + Display`
pub record Shown (A : Type 0) : Type 0 where
  pub eq : A → A → Bool
  pub to_string : A → String
  pub eq_iff : (a b : A) → (eq a b ≡ true) ↔ (a ≡ b)

pub eq_ℤ_iff : (a b : ℤ) → (eq_ℤ a b ≡ true) ↔ (a ≡ b)
eq_ℤ_iff a b = (λ h. eq_of_parts a b ((==_iff _ _).0 h), λ e. (==_iff _ _).1 (ground arith))

instance abbrev pub nat_shown : Shown ℕ
nat_shown = record { eq = λ a b. a == b; to_string = λ n. of_chars (show n); eq_iff = ==_iff }

instance abbrev pub int_shown : Shown ℤ
int_shown = record { eq = eq_ℤ; to_string = λ z. of_chars (show_ℤ z); eq_iff = eq_ℤ_iff }

-- What `check` pushes.
unfoldable pub check : {A : Type 0} ⦃s : Shown A⦄ → String → A → A → Bool → List FieldDiff
check ⦃s⦄ path old new is_pricing =
    if s.eq old new
    then []
    else new_field_diff path (s.to_string old) (s.to_string new) is_pricing
        (setting_explanation path)
      ∷ []

abbrev pub or_missing : Option String → String
or_missing none = "(missing)"
or_missing (some text) = text

-- What `push_presence_change` pushes.
unfoldable pub push_presence_change : String → Bool → List FieldDiff
unfolding as_value_string
push_presence_change path is_added =
    let there = present "(present)" in
    let old_state = if is_added then missing else there in
    let new_state = if is_added then there else missing in
    new_with_state path (or_missing (as_value_string old_state))
      (or_missing (as_value_string new_state)) true none (if is_added then added else removed)
      old_state new_state
    ∷ []
