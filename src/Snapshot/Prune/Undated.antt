-- ===== src/Snapshot/Prune/Undated.antt =====
-- src/config_snapshot/store.rs, `prune_snapshots_in`: a directory with a file whose name holds no
-- timestamp.
use Prim.Native.Char.{Char}
use mathlib.Core.Path.{subst}
use soroban_cost_estimator.Prelude.{
  ℕ, suc, ◌+◌, ◌-◌, ◌≡◌, ltb, ◌==◌, ◌&&◌, true, false, any, Option, none, some, List, [], ◌∷◌, ◌++◌,
  All, length, length-append, arith, refl, sym,
}
use soroban_cost_estimator.Prelude.Int.{ℤ}
use soroban_cost_estimator.Text.Search.{eq_chars}
use soroban_cost_estimator.Error.{Externals, ok, AppResult}
use soroban_cost_estimator.Snapshot.Store.{Candidate, candidates, list_snapshots_in}
use soroban_cost_estimator.Snapshot.Store.Undated.{is_dated, is_undated}
use soroban_cost_estimator.Snapshot.Store.Order.{later, All-sort}
use soroban_cost_estimator.Snapshot.Store.Latest.{Distinct, list_snapshots_in-Listed}
use soroban_cost_estimator.Snapshot.Prune.{
  count_cutoff, without, decide, remove_all, prune_paths, paths_of, prune_snapshots_in,
}
use soroban_cost_estimator.Snapshot.Prune.Newest.{at_last, before_last, paths_of-append}

undated_latest :
    (m : Candidate) (cs : List Candidate)
    → All (λ c. later c m ≡ false) cs
    → any is_undated cs ≡ true
    → is_dated m ≡ false
unfolding later
undated_latest m [] h u = absurd (cc)
undated_latest (none, p) (c ∷ cs) h u = refl
undated_latest (some t, p) ((some v, q) ∷ cs) h u = undated_latest (some t, p) cs h.1 u
undated_latest (some t, p) ((none, q) ∷ cs) h u = absurd (cc)

without-gone : (p : List Char) (dir : List (List Char)) → any (eq_chars p) (without p dir) ≡ false
unfolding without
without-gone p [] = refl
without-gone p (d ∷ ds) = ground (arith, without-gone p ds)

without-stays :
    (p q : List Char) (dir : List (List Char))
    → any (eq_chars p) dir ≡ false
    → any (eq_chars p) (without q dir) ≡ false
unfolding without
without-stays p q [] h = refl
without-stays p q (d ∷ ds) h = ground (arith, without-stays p q ds)

module _ {x : Externals} (age : List Char → AppResult x ℤ) where
  -- Every removal succeeds.
  abbrev pub unlocked : List Char → AppResult x Unit
  unlocked path = ok tt

  remove_all-stays :
      (p : List Char) (doomed dir : List (List Char))
      → any (eq_chars p) dir ≡ false
      → any (eq_chars p) (remove_all age unlocked doomed dir).1 ≡ false
  unfolding remove_all
  remove_all-stays p [] dir h = h
  remove_all-stays p (q ∷ qs) dir h =
      remove_all-stays p qs (without q dir) (without-stays p q dir h)

  remove_all-gone :
      (doomed dir : List (List Char))
      → All (λ p. any (eq_chars p) (remove_all age unlocked doomed dir).1 ≡ false) doomed
  unfolding remove_all
  remove_all-gone [] dir = tt
  remove_all-gone (q ∷ qs) dir = (
    remove_all-stays q qs (without q dir) (without-gone q dir),
    remove_all-gone qs (without q dir),
  )

  remove_all-ok : (doomed dir : List (List Char)) → (remove_all age unlocked doomed dir).0 ≡ ok tt
  unfolding remove_all
  remove_all-ok [] dir = refl
  remove_all-ok (q ∷ qs) dir = remove_all-ok qs (without q dir)

  decide-count :
      (newest : List Char) (last index : ℕ) (older : List (List Char))
      → index + length older ≡ last
      → decide age unlocked last (some last) none index (older ++ newest ∷ []) ≡ ok older
  unfolding decide
  decide-count newest last index [] e = rw (at_last index last e) refl
  decide-count newest last index (p ∷ ps) e =
      let rest = decide-count newest last (index + 1) ps (omega (arith, e)) in
      let early : ltb index last ≡ true = ground (arith, e) in
      rw (before_last index last (length ps) e, rest, early) refl

  -- What pruning to one snapshot leaves.
  abbrev kept_paths : List (List Char) → List (List Char) → List (List Char)
  kept_paths names paths = (prune_paths age unlocked names paths (some 1) none).1

  prune_paths-first :
      (names ps : List (List Char)) (p newest : List Char)
      → (prune_paths age unlocked names (p ∷ ps ++ newest ∷ []) (some 1) none).1
        ≡ (remove_all age unlocked (p ∷ ps) names).1
  unfolding count_cutoff
  prune_paths-first names ps p newest =
      let paths = p ∷ ps ++ newest ∷ [] in
      let size : length paths ≡ suc (suc (length ps)) =
        omega (arith, length-append ps (newest ∷ [])) in
      let many : ltb (length paths) 2 ≡ false = ground (arith, size) in
      let last : length paths - 1 ≡ suc (length ps) = omega (arith, size) in
      let decided = decide-count newest (suc (length ps)) 0 (p ∷ ps) (omega arith) in
      rw (many, last, decided, remove_all-ok (p ∷ ps) names) refl

  prune_paths-gone :
      (names older : List (List Char)) (newest : List Char)
      → All (λ p. any (eq_chars p) (kept_paths names (older ++ newest ∷ [])) ≡ false) older
  prune_paths-gone names [] newest = tt
  prune_paths-gone names (p ∷ ps) newest =
      subst (λ dir. All (λ q. any (eq_chars q) dir ≡ false) (p ∷ ps))
        (sym (prune_paths-first names ps p newest)) (remove_all-gone (p ∷ ps) names)

  -- No dated file among those of the list is in the directory.
  abbrev pub Gone : List (List Char) → Candidate → Type 0
  Gone dir c = (is_dated c && any (eq_chars c.1) dir) ≡ false

  All-Gone :
      (dir : List (List Char)) (older : List Candidate) (m : Candidate)
      → All (λ p. any (eq_chars p) dir ≡ false) (paths_of older)
      → is_dated m ≡ false
      → All (Gone dir) (older ++ m ∷ [])
  unfolding paths_of
  All-Gone dir [] m h u = (ground (arith, u), tt)
  All-Gone dir (c ∷ older) m h u = (ground (arith, h.0), All-Gone dir older m h.1 u)

  -- In a directory with a file whose name has no timestamp, in which no two files have one name and
  -- every file can be removed, pruning to the newest snapshot removes every file that has one.
  pub prune_snapshots_in-undated :
      (parse : List Char → Option ℕ) (network : List Char) (names : List (List Char))
      → any is_undated (candidates parse network names) ≡ true
      → Distinct names
      → All
          (Gone (prune_snapshots_in age unlocked parse network names (some 1) none).1)
          (candidates parse network names)
  unfolding prune_snapshots_in list_snapshots_in
  prune_snapshots_in-undated parse network names undated distinct =
      let cs = candidates parse network names in
      let some_file : (length cs == 0) ≡ false = not_empty cs undated in
      let (older, m, e, listed) = list_snapshots_in-Listed parse network names some_file distinct in
      let left = kept_paths names (paths_of older ++ m.1 ∷ []) in
      let gone =
        All-Gone left older m (prune_paths-gone names (paths_of older) m.1)
          (undated_latest m cs listed.latest undated) in
      All-sort (Gone _) cs (rw (e, paths_of-append older m) gone)
    where
      not_empty : (cs : List Candidate) → any is_undated cs ≡ true → (length cs == 0) ≡ false
      not_empty [] u = absurd (cc)
      not_empty (c ∷ cs) u = ground arith
