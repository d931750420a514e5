-- ===== src/Cache.antt =====
-- src/cache.rs: the estimate cache. Here its limits, and the migration of the entries that older
-- releases wrote.
pub mod Evict
pub mod Busy
pub mod Filter
pub mod Migrate
use Prim.Native.String.{String}
use soroban_cost_estimator.Prelude.{
  ℕ, zero, suc, ◌*◌, ltb, ◌==◌, ◌&&◌, Bool, true, if◌then◌else◌, Option, List,
}
use soroban_cost_estimator.Prelude.Int.{ℤ}
use soroban_cost_estimator.Text.{◌<>◌, of_chars, show}
use soroban_cost_estimator.Error.{Externals, general, ok, err, AppResult}
use soroban_cost_estimator.Report.Model.{IoFootprint}

abbrev pub cache_schema_version : ℕ
cache_schema_version = 3

abbrev pub initial_schema_version : ℕ
initial_schema_version = 1

abbrev pub duration_schema_version : ℕ
duration_schema_version = 2

abbrev pub access_tracking_schema_version : ℕ
access_tracking_schema_version = 3

-- A quota of 0 is none.
pub record CacheLimits : Type 0 where
  pub max_bytes : ℕ
  pub max_entries : ℕ

abbrev pub default_limits : CacheLimits
default_limits = record { max_bytes = 50 * 1024 * 1024; max_entries = 10000 }

abbrev pub unbounded : CacheLimits
unbounded = record { max_bytes = 0; max_entries = 0 }

unfoldable pub is_unbounded : CacheLimits → Bool
is_unbounded limits = limits.max_bytes == 0 && limits.max_entries == 0

pub record CachedEstimate : Type 0 where
  pub version : ℕ
  pub wasm_hash : String
  pub function : String
  pub args_hash : String
  pub network : String
  pub ledger : ℕ
  pub total_stroops : ℤ
  pub cpu_instructions : ℕ
  pub memory_bytes : ℕ
  pub timestamp : String
  pub execution_duration_ms : ℕ
  pub success : Bool
  pub network_passphrase : Option String
  pub core_version : Option String
  pub io : Option IoFootprint

abbrev pub with_version : ℕ → CachedEstimate → CachedEstimate
with_version v c = record {
  version = v;
  wasm_hash = c.wasm_hash;
  function = c.function;
  args_hash = c.args_hash;
  network = c.network;
  ledger = c.ledger;
  total_stroops = c.total_stroops;
  cpu_instructions = c.cpu_instructions;
  memory_bytes = c.memory_bytes;
  timestamp = c.timestamp;
  execution_duration_ms = c.execution_duration_ms;
  success = c.success;
  network_passphrase = c.network_passphrase;
  core_version = c.core_version;
  io = c.io;
}

-- The fields that schema 2 added, at what an older entry gets.
abbrev pub with_duration_defaults : CachedEstimate → CachedEstimate
with_duration_defaults c = record {
  version = c.version;
  wasm_hash = c.wasm_hash;
  function = c.function;
  args_hash = c.args_hash;
  network = c.network;
  ledger = c.ledger;
  total_stroops = c.total_stroops;
  cpu_instructions = c.cpu_instructions;
  memory_bytes = c.memory_bytes;
  timestamp = c.timestamp;
  execution_duration_ms = 0;
  success = true;
  network_passphrase = c.network_passphrase;
  core_version = c.core_version;
  io = c.io;
}

unfoldable pub migrate_one_step : CachedEstimate → CachedEstimate
migrate_one_step migrated =
    if ltb migrated.version duration_schema_version
    then with_version duration_schema_version (with_duration_defaults migrated)
    else if ltb migrated.version access_tracking_schema_version
    then with_version access_tracking_schema_version migrated
    else migrated

-- The `while`, with at most `fuel` rounds.
unfoldable pub migrate_steps : ℕ → CachedEstimate → CachedEstimate
unfolding migrate_one_step
migrate_steps zero migrated = migrated
migrate_steps (suc fuel) migrated =
    let rest = migrate_steps fuel (migrate_one_step migrated) in
    if ltb migrated.version cache_schema_version then rest else migrated

newer_version : ℕ → String
newer_version version =
    "cache entry schema v"
    <> of_chars (show version)
    <> " is newer than supported v"
    <> of_chars (show cache_schema_version)
    <> "; upgrade soroban-cost-estimator to read this entry, or run `cache clear` to discard it"

-- A round raises the version, so as many rounds as there are schema versions are enough.
unfoldable pub migrate_to_latest : {x : Externals} → CachedEstimate → AppResult x CachedEstimate
unfolding migrate_steps newer_version
migrate_to_latest cached =
    if ltb cache_schema_version cached.version
    then err (general (newer_version cached.version))
    else ok (
        migrate_steps cache_schema_version (
          if ltb cached.version initial_schema_version
          then with_version initial_schema_version cached
          else cached))
