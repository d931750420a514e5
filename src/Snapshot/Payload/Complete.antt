-- ===== src/Snapshot/Payload/Complete.antt =====
-- src/config_snapshot/diff.rs, `diff_payloads`: which differences of two payloads it reports.
use Prim.Native.String
use Prim.Native.String.{String}
use mathlib.Core.Path.{subst}
use text.Mathlib.Text.{◌==◌ as str_eq}
use text.Mathlib.TextEquality.{eq_iff as str_eq_iff}
use soroban_cost_estimator.Prelude.{
  ◌≡◌, refl, sym, ◌∙◌, ◌↔◌, true, Bool-cases, Option-cases, inl, inr, some, List, [], ◌∷◌, ◌++◌,
  All,
}
use soroban_cost_estimator.Snapshot.Model.Tables.{entry}
use soroban_cost_estimator.Snapshot.Diff.Exact.{++_empty, cons_empty}
use soroban_cost_estimator.Snapshot.Diff.Report.{of_changes}
use soroban_cost_estimator.Snapshot.Diff.Complete.{SameSettings, diff_snapshots_complete}
use soroban_cost_estimator.Snapshot.Same.{eq_option}
use soroban_cost_estimator.Snapshot.Same.Equality.{eq_option_iff}
use soroban_cost_estimator.Snapshot.Payload.{
  JsonValues, SnapshotPayload, keys, is_greater, insert_name, sort_names, dedup_behind, dedup,
  unknown_change, unknown_changes, diff_payloads,
}

module _ (P : String → Type 0) where
  All-insert_name : (n : String) (ns : List String) → All P (insert_name n ns) → P n × All P ns
  unfolding insert_name
  All-insert_name n [] h = h
  All-insert_name n (m ∷ ms) h = elim (Bool-cases (is_greater (String.compare n m))) [
    | inl t ↦
        (let (hm, rest) = (rw t at h) in let (hn, hs) = All-insert_name n ms rest in (hn, (hm, hs)))
    | inr f ↦ (rw f at h)
  ]

  All-sort_names : (ns : List String) → All P (sort_names ns) → All P ns
  unfolding sort_names
  All-sort_names [] h = tt
  All-sort_names (n ∷ ns) h =
      let (here, rest) = All-insert_name n (sort_names ns) h in (here, All-sort_names ns rest)

  All-dedup_behind :
      (last : String) (ns : List String) → P last → All P (dedup_behind last ns) → All P ns
  unfolding dedup_behind
  All-dedup_behind last [] hl h = tt
  All-dedup_behind last (n ∷ ns) hl h = elim (Bool-cases (str_eq last n)) [
    | inl t ↦ (subst P ((str_eq_iff last n).0 t) hl, All-dedup_behind last ns hl (rw t at h))
    | inr f ↦ (let (hn, rest) = (rw f at h) in (hn, All-dedup_behind n ns hn rest))
  ]

  All-dedup : (ns : List String) → All P (dedup ns) → All P ns
  unfolding dedup
  All-dedup [] h = tt
  All-dedup (n ∷ ns) h = (h.0, All-dedup_behind n ns h.0 h.1)

  at_entry :
      {A : Type 0} (m : List (String × A)) (name : String) (v : A)
      → entry m name ≡ some v
      → All P (keys m)
      → P name
  unfolding entry keys
  at_entry [] name v e h = absurd (cc)
  at_entry ((k, w) ∷ m) name v e h = elim (Bool-cases (str_eq name k)) [
    | inl t ↦ subst P (sym ((str_eq_iff name k).0 t)) h.0
    | inr f ↦ at_entry m name v (rw f at e) h.1
  ]

  All-append_parts : (xs ys : List String) → All P (xs ++ ys) → All P xs × All P ys
  All-append_parts [] ys h = (tt, h)
  All-append_parts (x ∷ xs) ys h = let (hx, hy) = All-append_parts xs ys h.1 in ((h.0, hx), hy)

-- For JSON values whose equality the test decides.
module _ (json : JsonValues) (decides : (a b : json.Value) → (json.eq a b ≡ true) ↔ (a ≡ b)) where
  unknown_change_empty :
      (old new : List (String × json.Value)) (name : String)
      → (unknown_change json old new name ≡ []) ↔ (entry old name ≡ entry new name)
  unfolding unknown_change
  unknown_change_empty old new name =
      let equal = eq_option_iff json.eq decides (entry old name) (entry new name) in
      (
        λ e. elim (Bool-cases (eq_option json.eq (entry old name) (entry new name))) [
          | inl t ↦ equal.0 t
          | inr f ↦ cons_empty (rw f at e)
        ],
        λ e. rw (equal.1 e),
      )

  unknown_changes_empty :
      (old new : List (String × json.Value)) (names : List String)
      → (unknown_changes json old new names ≡ [])
        ↔ All (λ name. entry old name ≡ entry new name) names
  unfolding unknown_changes
  unknown_changes_empty old new [] = (λ e. tt, λ h. refl)
  unknown_changes_empty old new (n ∷ ns) = (
    λ e.
        let (here, rest) = (++_empty _ _).0 e in
        ((unknown_change_empty old new n).0 here, (unknown_changes_empty old new ns).0 rest),
    λ h.
        (++_empty _ _).1
          ((unknown_change_empty old new n).1 h.0, (unknown_changes_empty old new ns).1 h.1),
  )

  everywhere :
      (old new : List (String × json.Value))
      → All (λ name. entry old name ≡ entry new name) (keys old ++ keys new)
      → (name : String) → entry old name ≡ entry new name
  everywhere old new h name =
      let P = λ (n : String). entry old n ≡ entry new n in
      let (in_old, in_new) = All-append_parts P (keys old) (keys new) h in
      elim (Option-cases (entry old name)) [
        | inr (v, e) ↦ at_entry P old name v e in_old
        | inl e ↦ elim (Option-cases (entry new name)) [
          | inr (v, e') ↦ at_entry P new name v e' in_new
          | inl e' ↦ e ∙ sym e'
        ]
      ]

  All-of_each : (P : String → Type 0) → ((n : String) → P n) → (ns : List String) → All P ns
  All-of_each P each [] = tt
  All-of_each P each (n ∷ ns) = (each n, All-of_each P each ns)

  -- Where the test on JSON values decides their equality, `diff_payloads` reports no change exactly
  -- when the snapshots agree as for `diff_snapshots` and every top-level field that the build does
  -- not know has the same value in both payloads or is absent from both.
  pub diff_payloads_complete :
      (old new : SnapshotPayload json)
      → ((diff_payloads json old new).changes ≡ []) ↔ (
          SameSettings old.snapshot new.snapshot
          × ((name : String) → entry old.unknown_fields name ≡ entry new.unknown_fields name))
  unfolding diff_payloads of_changes
  diff_payloads_complete old new =
      let P = λ (n : String). entry old.unknown_fields n ≡ entry new.unknown_fields n in
      let found = keys old.unknown_fields ++ keys new.unknown_fields in
      (
        λ e.
            let (known, unknown) = (++_empty _ _).0 e in
            let all = (unknown_changes_empty _ _ _).0 unknown in
            (
              (diff_snapshots_complete _ _).0 known,
              everywhere _ _ (All-sort_names P found (All-dedup P (sort_names found) all)),
            ),
        λ h. (++_empty _ _).1 (
          (diff_snapshots_complete _ _).1 h.0,
          (unknown_changes_empty _ _ _).1 (All-of_each P h.1 _),
        ),
      )
