-- ===== src/Cache/Busy.antt =====
-- src/cache.rs, `execute_with_retry`: a statement that finds the database busy is tried again. What the
-- statement answers in each attempt is an argument; the questions about an error of SQLite are
-- parameters. Delays are milliseconds.
pub mod Attempts
use Prim.Native.String.{String}
use soroban_cost_estimator.Prelude.{
  ℕ, zero, suc, ◌+◌, ◌-◌, ◌*◌, Bool, true, false, ◌&&◌, ltb, if◌then◌else◌, Option, none, some,
  List, [], ◌∷◌,
}
use soroban_cost_estimator.Text.{◌<>◌}
use soroban_cost_estimator.Error.{
  Externals, AppError, cache_corrupt, sqlite, Result, ok, err, AppResult,
}

abbrev pub max_retries : ℕ
max_retries = 5

abbrev pub base_retry_delay_ms : ℕ
base_retry_delay_ms = 10

-- The answer, and the delays slept before it.
pub record Executed (x : Externals) (A : Type 0) : Type 0 where
  pub answer : AppResult x A
  pub delays : List ℕ

module _ {x : Externals} {A : Type 0}
    (is_sqlite_busy is_database_corrupt_error : x.SqliteError → Bool)
    (error_text : x.SqliteError → String) (path_display : String)
    (operation : ℕ → Result x.SqliteError A) where
  abbrev pub stops : AppResult x A → Option (Executed x A)
  stops answer = some (record { answer = answer; delays = [] })

  abbrev pub sleeps : ℕ → Option (Executed x A) → Option (Executed x A)
  sleeps delay none = none
  sleeps delay (some e) = some (record { answer = e.answer; delays = delay ∷ e.delays })

  abbrev pub failure : x.SqliteError → AppError x
  failure e =
      if is_database_corrupt_error e
      then cache_corrupt (
          path_display
          <> ": "
          <> error_text e
          <> " (run `soroban-cost-estimator cache recover` to quarantine and start fresh)")
      else sqlite e

  -- The `match` in round `attempt`; `rest` is what the next round gives.
  unfoldable pub settle :
      ℕ → ℕ → Result x.SqliteError A → Option (Executed x A) → Option (Executed x A)
  settle attempt delay (ok val) rest = stops (ok val)
  settle attempt delay (err e) rest =
      if is_sqlite_busy e && ltb attempt (max_retries - 1)
      then sleeps delay rest
      else stops (err (failure e))

  -- The rounds from `attempt` on, as many as `left`; behind the last one is `unreachable!()`.
  unfoldable pub execute_from : (left attempt delay : ℕ) → Option (Executed x A)
  unfolding settle
  execute_from zero attempt delay = none
  execute_from (suc left) attempt delay =
      let rest = execute_from left (attempt + 1) (delay * 2) in
      settle attempt delay (operation attempt) rest

  unfoldable pub execute_with_retry : Option (Executed x A)
  unfolding execute_from
  execute_with_retry = execute_from max_retries 0 base_retry_delay_ms
