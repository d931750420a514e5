-- ===== src/Tests/StoreRuns.antt =====
-- The theorems on stored snapshots and on the cache, at concrete stores.
use soroban_cost_estimator.Prelude.{
  ℕ, ◌+◌, ◌*◌, ◌≡◌, ◌↔◌, refl, arith, true, none, [], ◌∷◌, All, length,
}
use soroban_cost_estimator.Prelude.Int.{pos}
use soroban_cost_estimator.Snapshot.Diff.Complete.{SameSettings}
use soroban_cost_estimator.Snapshot.History.{build_change_log_from_snapshots}
use soroban_cost_estimator.Snapshot.History.Silent.{build_change_log_from_snapshots-nil_iff}
use soroban_cost_estimator.Cache.{CacheLimits, CachedEstimate}
use soroban_cost_estimator.Cache.Evict.{Tables, enforce_limits, history_eviction_batch}
use soroban_cost_estimator.Cache.Evict.Quota.{Evicted, Settled, enforce_limits-Settled}
use soroban_cost_estimator.Tests.SnapshotRuns.{before, behind}

build_change_log_from_snapshots-nil_iff_example :
    (build_change_log_from_snapshots (before ∷ behind ∷ []) ≡ [])
    ↔ All (SameSettings before) (behind ∷ [])
build_change_log_from_snapshots-nil_iff_example =
    build_change_log_from_snapshots-nil_iff before (behind ∷ [])

-- An entry of the first schema.
abbrev legacy : CachedEstimate
legacy = record {
  version = 1;
  wasm_hash = "9f";
  function = "transfer";
  args_hash = "e3";
  network = "testnet";
  ledger = 100;
  total_stroops = pos 5000;
  cpu_instructions = 70;
  memory_bytes = 80;
  timestamp = "2026-01-01T00:00:00Z";
  execution_duration_ms = 9;
  success = true;
  network_passphrase = none;
  core_version = none;
  io = none;
}

abbrev two_rows : CacheLimits
two_rows = record { max_bytes = 30; max_entries = 2 }

abbrev stored : Tables ℕ ℕ
stored = record { estimates = 1 ∷ 2 ∷ 3 ∷ 4 ∷ []; history = 10 ∷ 11 ∷ [] }

abbrev ten_each : Tables ℕ ℕ → ℕ
ten_each t = 10 * (length t.estimates + length t.history)

enforce_limits-Settled_example :
    let r = enforce_limits ten_each two_rows stored in
    Evicted stored r.0 r.1 × Settled ten_each two_rows r.1
enforce_limits-Settled_example = enforce_limits-Settled ten_each two_rows stored (omega arith)

-- The whole history goes in one round when the quota is out of reach.
whole_history : history_eviction_batch 3 100 (record { max_bytes = 1; max_entries = 0 }) ≡ 3
unfolding history_eviction_batch
whole_history = refl
