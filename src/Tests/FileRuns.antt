-- ===== src/Tests/FileRuns.antt =====
-- The theorems on WASM files, snapshot files and the cache, at concrete inputs.
use Prim.Native.Char.{Char}
use Prim.Native.String.{String}
use mathlib.Core.List.{Mem}
use soroban_cost_estimator.Prelude.{
  ℕ, ◌≤◌, ◌≡◌, refl, ◌↔◌, arith, true, false, ◌==◌, Option, none, some, List, [], ◌∷◌, ◌++◌, length,
  ◌≢◌, All,
}
use soroban_cost_estimator.Prelude.Int.{ℤ, pos, negsuc}
use soroban_cost_estimator.Text.{chars, show_ℤ}
use soroban_cost_estimator.Text.Search.{eq_chars, eq_chars_refl}
use soroban_cost_estimator.Error.{general, Result, ok, err, AppResult}
use soroban_cost_estimator.Wasm.Sections.{SectionInfo, from_sections, accounted_bytes}
use soroban_cost_estimator.Wasm.Sections.Accounted.{from_sections-accounted}
use soroban_cost_estimator.Wasm.Args.{u32, validate_arg_value}
use soroban_cost_estimator.Wasm.Args.Range.{Passes, validate_arg_value-show_iff}
use soroban_cost_estimator.Snapshot.Store.{
  Candidate, candidates, last_two_paths, select_latest_snapshot,
}
use soroban_cost_estimator.Snapshot.Store.Order.{later}
use soroban_cost_estimator.Snapshot.Prune.{prune_snapshots_in}
use soroban_cost_estimator.Snapshot.Prune.Newest.{Holds, prune_snapshots_in-Holds}
use soroban_cost_estimator.Snapshot.Store.Undated.{is_undated, last_two_paths-undated}
use soroban_cost_estimator.Cache.{CachedEstimate}
use soroban_cost_estimator.Cache.Busy.{Executed, execute_with_retry}
use soroban_cost_estimator.Cache.Busy.Attempts.{Doubling, execute_with_retry_total}
use soroban_cost_estimator.Cache.Filter.{Times, CacheFilter, query_cache}
use soroban_cost_estimator.Cache.Filter.Pages.{pages, list_cached_estimates_paginated-pages}
use soroban_cost_estimator.Tests.Fixtures.{sample}

abbrev type_section : SectionInfo
type_section = record {
  id = 1;
  name = "type";
  custom = false;
  offset = 10;
  end_ = 20;
  size = 10;
  header_size = 2;
}

abbrev code_section : SectionInfo
code_section = record {
  id = 10;
  name = "code";
  custom = false;
  offset = 23;
  end_ = 323;
  size = 300;
  header_size = 3;
}

from_sections-accounted_example :
    accounted_bytes Unit
      (λ bytes total. tt)
      (from_sections Unit (λ bytes total. tt) (type_section ∷ code_section ∷ []) 330)
    ≡ 330
from_sections-accounted_example =
    from_sections-accounted (λ bytes total. tt) type_section (code_section ∷ []) 323 330
      (omega arith, refl, refl, (omega arith, refl, refl, refl)) (omega arith) (omega arith)

validate_arg_value-show_iff_example :
    (validate_arg_value {x = sample} u32 (chars "n" ++ "=" ∷ show_ℤ (negsuc 4)) ≡ ok tt)
    ↔ Passes u32 (negsuc 4)
unfolding chars
validate_arg_value-show_iff_example =
    validate_arg_value-show_iff {x = sample} u32 (chars "n") (negsuc 4) refl refl

-- The instants of two texts.
abbrev parse : List Char → Option ℕ
parse s = if_length (length s)
  where
    if_length : ℕ → Option ℕ
    if_length n = elim (n == 25) [ true ↦ some 100 | false ↦ none ]

abbrev names : List (List Char)
names = chars "testnet-old.json" ∷ chars "testnet-2026-01-02T03-04-05+00-00.json" ∷ []

abbrev pair : Candidate × Candidate
pair =
    ((some 100, chars "testnet-2026-01-02T03-04-05+00-00.json"), (none, chars "testnet-old.json"))

last_two_paths-undated_example :
    (is_undated pair.1 ≡ true)
    × ((t : ℕ) × (path : List Char) × (select_latest_snapshot {x = sample} parse
            (chars "testnet")
            names
          ≡ ok path)
        × Mem (some t, path) (candidates parse (chars "testnet") names))
unfolding candidates last_two_paths chars
last_two_paths-undated_example =
    last_two_paths-undated {x = sample} parse (chars "testnet") names pair refl refl refl

-- An old snapshot, and one without a timestamp.
abbrev old_age : List Char → AppResult sample ℤ
old_age path = ok (pos 365)

-- A directory in which no file can be removed.
abbrev locked : List Char → AppResult sample Unit
locked path = err (general "permission denied")

differ : (s t : List Char) → eq_chars s t ≡ false → s ≢ t
differ s t h e = ground (arith, rw (← e) at h, eq_chars_refl s)

prune_snapshots_in-Holds_example :
    (m : Candidate) × Mem m (candidates parse (chars "testnet") names)
    × All (λ c. later c m ≡ false) (candidates parse (chars "testnet") names)
    × Holds m.1
        (prune_snapshots_in old_age locked parse (chars "testnet") names (some 0) (some 30)).1
unfolding candidates chars eq_chars
prune_snapshots_in-Holds_example =
    prune_snapshots_in-Holds old_age locked parse (chars "testnet") names (some 0) (some 30) refl
      ((differ _ _ refl, tt), (tt, tt))

-- Busy twice, and then it works.
abbrev twice_busy : ℕ → Result {0, 0} Unit ℕ
twice_busy n = elim (n == 2) [ true ↦ ok 7 | false ↦ err tt ]

execute_with_retry_total_example :
    (e : Executed sample ℕ) × (execute_with_retry {x = sample}
        (λ e. true)
        (λ e. false)
        (λ e. "busy")
        "cache.db"
        twice_busy
      ≡ some e)
    × (length e.delays ≤ 4)
    × Doubling 10 e.delays
execute_with_retry_total_example =
    execute_with_retry_total sample (λ e. true) (λ e. false) (λ e. "busy") "cache.db" twice_busy

abbrev estimate : ℕ → CachedEstimate
estimate n = record {
  version = 3;
  wasm_hash = "ab";
  function = "mint";
  args_hash = "cd";
  network = "testnet";
  ledger = n;
  total_stroops = pos 10;
  cpu_instructions = 1;
  memory_bytes = 1;
  timestamp = "2026-01-02T03:04:05Z";
  execution_duration_ms = 0;
  success = true;
  network_passphrase = none;
  core_version = none;
  io = none;
}

abbrev times : Times
times = record { parse_entry_timestamp = λ s. none; print = λ t. "" }

abbrev no_filter : CacheFilter
no_filter = record {
  function = none;
  wasm_hash = none;
  network = none;
  min_fee = none;
  max_fee = none;
  since = none;
  to = none;
}

abbrev resolve : String → AppResult sample (List Char)
resolve net = ok []

abbrev rows : List CachedEstimate
rows = estimate 1 ∷ estimate 2 ∷ estimate 3 ∷ []

list_cached_estimates_paginated-pages_example :
    pages times resolve (λ s. s) rows no_filter 2 2 0 ≡ ok rows
unfolding query_cache
list_cached_estimates_paginated-pages_example =
    list_cached_estimates_paginated-pages times resolve (λ s. s) rows no_filter 2 2 rows
      (omega arith) refl (omega arith)
