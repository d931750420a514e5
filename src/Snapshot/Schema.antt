-- ===== src/Snapshot/Schema.antt =====
-- src/config_snapshot/model.rs, `ensure_supported_snapshot_schema`. A path is its displayed text.
use Prim.Native.String.{String}
use soroban_cost_estimator.Prelude.{ℕ, ◌≡◌, ◌↔◌, ltb, Bool, true, false, if◌then◌else◌, arith, ◌≤◌}
use soroban_cost_estimator.Text.{◌<>◌, of_chars, show}
use soroban_cost_estimator.Error.{
  Externals, AppError, snapshot_schema_unsupported, snapshot_parse, ok, err, AppResult,
}

abbrev pub snapshot_schema_version : ℕ
snapshot_schema_version = 1

abbrev pub initial_snapshot_schema_version : ℕ
initial_snapshot_schema_version = 1

module _ {x : Externals} where
  pub initial_version_error : String → ℕ → AppError x
  initial_version_error file version = snapshot_parse (
      file
      <> " declares schema version "
      <> of_chars (show version)
      <> ", but the initial snapshot schema version is "
      <> of_chars (show initial_snapshot_schema_version))

  unfoldable pub ensure_supported_snapshot_schema : String → ℕ → AppResult x Unit
  unfolding initial_version_error
  ensure_supported_snapshot_schema file version =
      if ltb snapshot_schema_version version
      then err (snapshot_schema_unsupported file version snapshot_schema_version)
      else if ltb version initial_snapshot_schema_version
      then err (initial_version_error file version)
      else ok tt

  abbrev pub is_ok : AppResult x Unit → Bool
  is_ok (ok u) = true
  is_ok (err e) = false

-- A snapshot's schema version is accepted exactly from the initial one to the current one, for
-- every file.
pub ensure_supported_snapshot_schema-range :
    (x : Externals) (file : String) (version : ℕ)
    → (is_ok (ensure_supported_snapshot_schema {x = x} file version) ≡ true)
      ↔ ((initial_snapshot_schema_version ≤ version) × (version ≤ snapshot_schema_version))
unfolding ensure_supported_snapshot_schema
ensure_supported_snapshot_schema-range x file version = (λ h. ground arith, λ h. ground arith)
