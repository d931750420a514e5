-- ===== src/Snapshot/Prune.antt =====
-- src/config_snapshot/store.rs, `prune_snapshots_in`: retention of stored snapshots. As in
-- Snapshot.Store a directory is the list of its files' names, which stand for their paths; the parse
-- of a timestamp, the age of a snapshot, read from its file and the clock, and the removal of a file
-- are parameters.
pub mod Newest
pub mod Undated
use Prim.Native.Char.{Char}
use soroban_cost_estimator.Prelude.{
  ℕ, ◌+◌, ◌-◌, max, ltb, ◌==◌, ◌&&◌, ◌||◌, Bool, true, false, if◌then◌else◌, Option, none, some,
  List, [], ◌∷◌, length,
}
use soroban_cost_estimator.Prelude.Int.{ℤ, pos, ltb_ℤ}
use soroban_cost_estimator.Text.Search.{eq_chars}
use soroban_cost_estimator.Error.{Externals, Result, ok, err, AppResult, ◌>>=◌}
use soroban_cost_estimator.Snapshot.Store.{Candidate, list_snapshots_in}

abbrev pub is_none : {A : Type 0} → Option A → Bool
is_none none = true
is_none (some a) = false

-- `count_cutoff`: of `count` paths the newest `n` stay, and at least one.
unfoldable pub count_cutoff : ℕ → Option ℕ → Option ℕ
count_cutoff count none = none
count_cutoff count (some n) = some (count - max n 1)

abbrev pub over_count : Option ℕ → ℕ → Bool
over_count none index = false
over_count (some cutoff) index = ltb index cutoff

-- The directory without a path.
unfoldable pub without : List Char → List (List Char) → List (List Char)
unfolding eq_chars
without path [] = []
without path (p ∷ ps) = let rest = without path ps in if eq_chars path p then rest else p ∷ rest

-- A failed removal ends the loop.
abbrev pub after :
    {x : Externals}
    → AppResult x Unit
    → AppResult x Unit × List (List Char)
    → List (List Char)
    → AppResult x Unit × List (List Char)
after (ok u) rest dir = rest
after (err e) rest dir = (err e, dir)

abbrev pub removed_or :
    {x : Externals}
    → List (List Char)
    → AppResult x Unit × List (List Char)
    → AppResult x (List (List Char)) × List (List Char)
removed_or doomed (ok u, dir) = (ok doomed, dir)
removed_or doomed (err e, dir) = (err e, dir)

-- `snapshots.into_iter().map(|(_, path)| path)`
unfoldable pub paths_of : List Candidate → List (List Char)
paths_of [] = []
paths_of ((t, path) ∷ cs) = path ∷ paths_of cs

module _ {x : Externals} (snapshot_age_days : List Char → AppResult x ℤ)
    (remove_file : List Char → AppResult x Unit) where
  unfoldable pub too_old : Option ℕ → List Char → AppResult x Bool
  too_old none path = ok false
  too_old (some days) path = do age ← snapshot_age_days path; ok (ltb_ℤ (pos days) age)

  -- Pass 1: the paths from `index` on that a rule rejects, the newest one aside.
  unfoldable pub decide :
      ℕ → Option ℕ → Option ℕ → ℕ → List (List Char) → AppResult x (List (List Char))
  unfolding too_old
  decide newest cutoff retain_days index [] = ok []
  decide newest cutoff retain_days index (path ∷ paths) =
      let rest = decide newest cutoff retain_days (index + 1) paths in
      if index == newest then rest else do
        old ← too_old retain_days path
        doomed ← rest
        ok (if over_count cutoff index || old then path ∷ doomed else doomed)

  -- Pass 2: each path is removed until a removal fails.
  unfoldable pub remove_all :
      List (List Char) → List (List Char) → AppResult x Unit × List (List Char)
  unfolding without
  remove_all [] dir = (ok tt, dir)
  remove_all (path ∷ paths) dir =
      let rest = remove_all paths (without path dir) in after (remove_file path) rest dir

  abbrev pub act :
      List (List Char)
      → AppResult x (List (List Char))
      → AppResult x (List (List Char)) × List (List Char)
  act dir (ok doomed) = removed_or doomed (remove_all doomed dir)
  act dir (err e) = (err e, dir)

  abbrev pub prune_paths :
      List (List Char)
      → List (List Char)
      → Option ℕ
      → Option ℕ
      → AppResult x (List (List Char)) × List (List Char)
  prune_paths names paths retain_count retain_days =
      if ltb (length paths) 2 || (is_none retain_count && is_none retain_days)
      then (ok [], names)
      else act names
          (decide (length paths - 1) (count_cutoff (length paths) retain_count) retain_days 0 paths)

  -- The result and the directory behind it.
  unfoldable pub prune_snapshots_in :
      (List Char → Option ℕ)
      → List Char
      → List (List Char)
      → Option ℕ
      → Option ℕ
      → AppResult x (List (List Char)) × List (List Char)
  unfolding decide count_cutoff remove_all list_snapshots_in paths_of
  prune_snapshots_in parse network names =
      prune_paths names (paths_of (list_snapshots_in parse network names))
