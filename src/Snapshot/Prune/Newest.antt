-- ===== src/Snapshot/Prune/Newest.antt =====
-- src/config_snapshot/store.rs, `prune_snapshots_in`: the newest snapshot.
use Prim.Native.Char.{Char}
use soroban_cost_estimator.Prelude.{
  ℕ, suc, ◌+◌, ◌-◌, ◌≡◌, ◌≢◌, ltb, ◌==◌, ◌&&◌, ◌||◌, Bool, true, false, if◌then◌else◌, any, Option,
  List, [], ◌∷◌, ◌++◌, All, refl, ap, length, length-append, arith,
}
use soroban_cost_estimator.Prelude.Int.{ℤ}
use soroban_cost_estimator.Text.Search.{eq_chars, eq_chars_sound, eq_chars_refl}
use soroban_cost_estimator.Error.{Externals, ok, err, AppResult, ◌>>=◌}
use soroban_cost_estimator.Snapshot.Prune.{
  is_none, count_cutoff, over_count, without, after, removed_or, act, too_old, decide, remove_all,
  prune_snapshots_in, prune_paths, paths_of,
}
use mathlib.Core.List.{Mem}
use soroban_cost_estimator.Snapshot.Store.{Candidate, candidates}
use soroban_cost_estimator.Snapshot.Store.Order.{later, All-weaken, All-Mem}
use soroban_cost_estimator.Snapshot.Store.Latest.{
  Distinct, candidates-All, list_snapshots_in-Listed,
}

-- The directory holds the path.
abbrev pub Holds : List Char → List (List Char) → Type 0
Holds path dir = any (eq_chars path) dir ≡ true

abbrev Spared : {x : Externals} → List Char → AppResult x (List (List Char)) → Type 0
Spared newest (ok doomed) = All (λ p. p ≢ newest) doomed
Spared newest (err e) = Unit

Holds-without :
    (path newest : List Char) (dir : List (List Char))
    → path ≢ newest
    → Holds newest dir
    → Holds newest (without path dir)
unfolding without
Holds-without path newest [] ne h = h
Holds-without path newest (p ∷ ps) ne h =
    ground (arith, eq_chars_sound path p, eq_chars_sound newest p, Holds-without path newest ps ne)

pub at_last : (index last : ℕ) → index + 0 ≡ last → (index == last) ≡ true
at_last index last h = ground arith

pub before_last : (index last k : ℕ) → index + suc k ≡ last → (index == last) ≡ false
before_last index last k h = ground arith

after-Holds :
    {x : Externals} (newest : List Char) (o : AppResult x Unit)
    (rest : AppResult x Unit × List (List Char)) (dir : List (List Char))
    → Holds newest dir
    → Holds newest rest.1
    → Holds newest (after o rest dir).1
after-Holds newest (ok u) rest dir held kept = kept
after-Holds newest (err e) rest dir held kept = held

removed_or-Holds :
    {x : Externals} (newest : List Char) (doomed : List (List Char))
    (r : AppResult x Unit × List (List Char))
    → Holds newest r.1
    → Holds newest (removed_or doomed r).1
removed_or-Holds newest doomed (ok u, dir) held = held
removed_or-Holds newest doomed (err e, dir) held = held

unless :
    {x : Externals} (newest : List Char) (b : Bool)
    (r s : AppResult x (List (List Char)) × List (List Char))
    → Holds newest r.1
    → Holds newest s.1
    → Holds newest (if b then r else s).1
unless newest true r s hr hs = hr
unless newest false r s hr hs = hs

module _ {x : Externals} (snapshot_age_days : List Char → AppResult x ℤ)
    (remove_file : List Char → AppResult x Unit) where
  Spared-step :
      (newest path : List Char) (over : Bool) (o : AppResult x Bool)
      (rest : AppResult x (List (List Char)))
      → path ≢ newest
      → Spared newest rest
      → Spared newest
          (o >>= (λ old. rest >>= (λ doomed. ok (if over || old then path ∷ doomed else doomed))))
  Spared-step newest path over (err e) rest ne h = tt
  Spared-step newest path over (ok old) (err e) ne h = tt
  Spared-step newest path over (ok old) (ok doomed) ne h = ground arith

  decide-Spared :
      (newest : List Char) (last index : ℕ) (cutoff days : Option ℕ) (older : List (List Char))
      → index + length older ≡ last
      → All (λ p. p ≢ newest) older
      → Spared newest
          (decide snapshot_age_days remove_file last cutoff days index (older ++ newest ∷ []))
  unfolding decide
  decide-Spared newest last index cutoff days [] e h = rw (at_last index last e) tt
  decide-Spared newest last index cutoff days (p ∷ ps) e h =
      let rest = decide-Spared newest last (index + 1) cutoff days ps (omega (arith, e)) h.1 in
      rw (before_last index last (length ps) e) (
        Spared-step newest p (over_count cutoff index)
          (too_old snapshot_age_days remove_file days p) _ h.0 rest)

  remove_all-Holds :
      (newest : List Char) (doomed dir : List (List Char))
      → All (λ p. p ≢ newest) doomed
      → Holds newest dir
      → Holds newest (remove_all snapshot_age_days remove_file doomed dir).1
  unfolding remove_all
  remove_all-Holds newest [] dir h held = held
  remove_all-Holds newest (p ∷ ps) dir h held =
      after-Holds newest (remove_file p)
        (remove_all snapshot_age_days remove_file ps (without p dir)) dir held
        (remove_all-Holds newest ps (without p dir) h.1 (Holds-without p newest dir h.0 held))

  act-Holds :
      (newest : List Char) (dir : List (List Char)) (o : AppResult x (List (List Char)))
      → Spared newest o
      → Holds newest dir
      → Holds newest (act snapshot_age_days remove_file dir o).1
  act-Holds newest dir (err e) spared held = held
  act-Holds newest dir (ok doomed) spared held =
      removed_or-Holds newest doomed (remove_all snapshot_age_days remove_file doomed dir)
        (remove_all-Holds newest doomed dir spared held)

  prune_paths-Holds :
      (names older : List (List Char)) (newest : List Char) (retain_count retain_days : Option ℕ)
      → All (λ p. p ≢ newest) older
      → Holds newest names
      → Holds newest
          (prune_paths snapshot_age_days remove_file names
            (older ++ newest ∷ [])
            retain_count
            retain_days).1
  prune_paths-Holds names older newest retain_count retain_days h held =
      let paths = older ++ newest ∷ [] in
      let cutoff = count_cutoff (length paths) retain_count in
      let index : 0 + length older ≡ length paths - 1 =
        omega (arith, length-append older (newest ∷ [])) in
      let spared = decide-Spared newest (length paths - 1) 0 cutoff retain_days older index h in
      unless newest (ltb (length paths) 2 || (is_none retain_count && is_none retain_days))
        (ok [], names) _ held (act-Holds newest names _ spared held)

pub paths_of-append :
    (older : List Candidate) (m : Candidate)
    → paths_of (older ++ m ∷ []) ≡ paths_of older ++ m.1 ∷ []
unfolding paths_of
paths_of-append [] m = refl
paths_of-append (c ∷ older) m = ap (λ l. c.1 ∷ l) (paths_of-append older m)

paths_of-All :
    (P : List Char → Type 0) (cs : List Candidate) → All (λ c. P c.1) cs → All P (paths_of cs)
unfolding paths_of
paths_of-All P [] h = tt
paths_of-All P (c ∷ cs) h = (h.0, paths_of-All P cs h.1)

Holds-each : (names : List (List Char)) → All (λ n. Holds n names) names
Holds-each [] = tt
Holds-each (n ∷ ns) = (
  ground (arith, eq_chars_refl n),
  All-weaken (λ m. Holds m ns) (λ m. Holds m (n ∷ ns)) (λ m h. ground (arith, h)) ns
      (Holds-each ns),
)

-- In a directory that holds a snapshot of the network, and no two files of one name, pruning leaves
-- the latest snapshot, for every policy of count and age: after a success, after an age that cannot
-- be read, and after a removal that fails. A file is later than another if its instant is, and a
-- file whose name has no timestamp is later than every file whose name has one.
pub prune_snapshots_in-Holds :
    {x : Externals} (snapshot_age_days : List Char → AppResult x ℤ)
    (remove_file : List Char → AppResult x Unit) (parse : List Char → Option ℕ)
    (network : List Char) (names : List (List Char)) (retain_count retain_days : Option ℕ)
    → (length (candidates parse network names) == 0) ≡ false
    → Distinct names
    → (m : Candidate) × Mem m (candidates parse network names)
      × All (λ c. later c m ≡ false) (candidates parse network names)
      × Holds m.1
          (prune_snapshots_in snapshot_age_days remove_file parse network names retain_count
            retain_days).1
unfolding prune_snapshots_in
prune_snapshots_in-Holds {x} age remove parse network names retain_count retain_days some_file
      distinct =
    let (older, m, e, listed) = list_snapshots_in-Listed parse network names some_file distinct in
    let cs = candidates parse network names in
    let held =
      listed.found (λ c. Holds c.1 names)
        (candidates-All parse network (λ n. Holds n names) names (Holds-each names)) in
    let kept =
      prune_paths-Holds {x = x} age remove names (paths_of older) m.1 retain_count retain_days
        (paths_of-All (λ p. p ≢ m.1) older listed.others) held in
    (
      m,
      listed.found (λ c. Mem c cs) (All-Mem cs),
      listed.latest,
      rw (e, paths_of-append older m) kept,
    )
