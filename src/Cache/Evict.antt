-- ===== src/Cache/Evict.antt =====
-- src/cache.rs, `enforce_limits_in_tx`: eviction of the least recently used rows. The table
-- `estimates` is the list of its rows in the order last_accessed, timestamp, and `estimate_history`
-- in the order of its ids. The size that SQLite reports of a database is a parameter, and no
-- statement fails: an error of SQLite ends the code with that error and rolls the transaction back.
-- The vacuum at the end, which changes no row, is left out. usize has 64 bits and wraps as in a release build.
pub mod Quota
use soroban_cost_estimator.Prelude.{
  ℕ, zero, suc, ◌+◌, ◌-◌, ◌*◌, ◌/◌, ◌%◌, ◌^◌, ◌≡◌, refl, ltb, ◌==◌, ◌&&◌, ◌||◌, not, Bool, min, max,
  if◌then◌else◌, Option, none, some, List, [], ◌∷◌, length, drop,
}
use soroban_cost_estimator.Cache.{CacheLimits, is_unbounded}

abbrev pub eviction_target_numerator : ℕ
eviction_target_numerator = 9

abbrev pub eviction_target_denominator : ℕ
eviction_target_denominator = 10

abbrev pub max_eviction_rounds : ℕ
max_eviction_rounds = 100000

-- `clamp(1, n)`
abbrev at_least_one : ℕ → ℕ → ℕ
at_least_one n k = if ltb k 1 then 1 else if ltb n k then n else k

unfoldable pub history_eviction_batch : ℕ → ℕ → CacheLimits → ℕ
history_eviction_batch history_rows bytes limits =
    if limits.max_bytes == 0 || not (ltb limits.max_bytes bytes)
    then 0
    else (let excess = bytes - limits.max_bytes in
        let per_row = max (bytes / max history_rows 1) 1 in
        at_least_one history_rows (excess / per_row))

unfoldable pub eviction_batch : ℕ → ℕ → CacheLimits → ℕ → ℕ
eviction_batch entries bytes limits target_entries =
    if ltb 0 limits.max_entries && (ltb 0 target_entries && ltb target_entries entries)
    then entries - target_entries
    else if ltb 0 limits.max_bytes && ltb limits.max_bytes bytes
    then (let excess = bytes - limits.max_bytes in
        let per_entry = max (bytes / max entries 1) 1 in
        let from_bytes = max (excess / per_entry) 1 in max (min from_bytes (entries - 1)) 1)
    else 1

-- The limit that eviction aims for.
abbrev pub target_entries : CacheLimits → ℕ
target_entries limits =
    limits.max_entries * eviction_target_numerator % 2 ^ 64 / eviction_target_denominator

abbrev pub over : ℕ → ℕ → Bool
over quota n = ltb 0 quota && ltb quota n

pub record Tables (Row Entry : Type 0) : Type 0 where
  pub estimates : List Row
  pub history : List Entry

-- The loop goes on with the next round or stops.
abbrev pub next :
    {Row Entry : Type 0}
    → Option (ℕ × Tables Row Entry)
    → (ℕ → Tables Row Entry → ℕ × Tables Row Entry)
    → ℕ × Tables Row Entry
    → ℕ × Tables Row Entry
next none continue stop = stop
next (some (n, t)) continue stop = continue n t

module _ {Row Entry : Type 0} (live_db_bytes : Tables Row Entry → ℕ) where
  -- The number of estimates that a round deletes.
  unfoldable pub removed : CacheLimits → Tables Row Entry → ℕ
  unfolding eviction_batch
  removed limits t =
      let entries = length t.estimates in
      if ltb 1 entries
      then min (eviction_batch entries (live_db_bytes t) limits (target_entries limits)) entries
      else 0

  -- The number of history rows that a round deletes.
  unfoldable pub dropped : CacheLimits → Tables Row Entry → ℕ
  unfolding history_eviction_batch
  dropped limits t =
      let history_rows = length t.history in
      if over limits.max_bytes (live_db_bytes t) && ltb 0 history_rows
      then min (history_eviction_batch history_rows (live_db_bytes t) limits) history_rows
      else 0

  -- One round: the number of estimates deleted and the tables behind it, `none` at `break`.
  unfoldable pub evict_round : CacheLimits → Tables Row Entry → Option (ℕ × Tables Row Entry)
  evict_round limits t =
      let n = removed limits t in
      let d = dropped limits t in
      if not (over limits.max_entries (length t.estimates))
        && not (over limits.max_bytes (live_db_bytes t))
      then none
      else if n == 0 && d == 0
      then none
      else some (n, record { estimates = drop n t.estimates; history = drop d t.history })

  unfoldable pub evict_rounds : ℕ → CacheLimits → ℕ → Tables Row Entry → ℕ × Tables Row Entry
  evict_rounds zero limits evicted t = (evicted, t)
  evict_rounds (suc rounds) limits evicted t =
      next (evict_round limits t) (λ n t'. evict_rounds rounds limits (evicted + n) t') (evicted, t)

  unfoldable pub enforce_limits : CacheLimits → Tables Row Entry → ℕ × Tables Row Entry
  unfolding evict_rounds
  enforce_limits limits t =
      if is_unbounded limits then (0, t) else evict_rounds max_eviction_rounds limits 0 t
