-- ===== src/Snapshot/History/Silent.antt =====
-- src/config_snapshot/history.rs, `build_change_log_from_snapshots`: when the log is empty.
use Prim.Native.String
use Prim.Native.String.{String}
use soroban_cost_estimator.Prelude.{
  All-mono, ◌≡◌, ◌↔◌, refl, sym, ◌∙◌, Bool-cases, inl, inr, List, [], ◌∷◌, All,
}
use soroban_cost_estimator.Snapshot.Model.{ConfigSnapshot}
use soroban_cost_estimator.Snapshot.Payload.{is_greater}
use soroban_cost_estimator.Snapshot.Diff.Field.{FieldDiff}
use soroban_cost_estimator.Snapshot.Diff.Exact.{++_empty, cons_empty}
use soroban_cost_estimator.Snapshot.Diff.Report.{diff_snapshots}
use soroban_cost_estimator.Snapshot.Diff.Complete.{SameSettings, diff_snapshots_complete}
use soroban_cost_estimator.Snapshot.History.{
  insert_by, sort_by, entries_of, log_behind, log_of, build_change_log_from_snapshots,
}

SameSettings-refl : (s : ConfigSnapshot) → SameSettings s s
SameSettings-refl s = record {
  contract_compute = refl;
  ledger_cost = refl;
  historical_data = refl;
  events = refl;
  bandwidth = refl;
  state_archival = refl;
}

SameSettings-sym : (s t : ConfigSnapshot) → SameSettings s t → SameSettings t s
SameSettings-sym s t h = record {
  contract_compute = sym h.contract_compute;
  ledger_cost = sym h.ledger_cost;
  historical_data = sym h.historical_data;
  events = sym h.events;
  bandwidth = sym h.bandwidth;
  state_archival = sym h.state_archival;
}

SameSettings-trans :
    (s t u : ConfigSnapshot) → SameSettings s t → SameSettings t u → SameSettings s u
SameSettings-trans s t u h k = record {
  contract_compute = h.contract_compute ∙ k.contract_compute;
  ledger_cost = h.ledger_cost ∙ k.ledger_cost;
  historical_data = h.historical_data ∙ k.historical_data;
  events = h.events ∙ k.events;
  bandwidth = h.bandwidth ∙ k.bandwidth;
  state_archival = h.state_archival ∙ k.state_archival;
}

entries_of-nil :
    (new : ConfigSnapshot) (changes : List FieldDiff)
    → (entries_of new changes ≡ []) ↔ (changes ≡ [])
unfolding entries_of
entries_of-nil new [] = (λ e. refl, λ e. refl)
entries_of-nil new (c ∷ cs) = (λ e. cons_empty e, λ e. cons_empty e)

-- Sorting keeps what holds of every element, and adds none.
module _ {A : Type 0} (P : A → Type 0) (key : A → String) where
  All-insert_by : (a : A) (bs : List A) → All P (insert_by key a bs) ↔ (P a × All P bs)
  unfolding insert_by
  All-insert_by a [] = (λ h. h, λ h. h)
  All-insert_by a (b ∷ bs) = elim (Bool-cases (is_greater (String.compare (key a) (key b)))) [
    | inl t ↦
        (let rest = All-insert_by a bs in
          rw t (
            λ h. (let (pa, ps) = rest.0 h.1 in (pa, (h.0, ps))),
            λ h. (h.1.0, rest.1 (h.0, h.1.1)),
          ))
    | inr f ↦ rw f (λ h. h, λ h. h)
  ]

  pub All-sort_by : (bs : List A) → All P (sort_by key bs) ↔ All P bs
  unfolding sort_by
  All-sort_by [] = (λ h. h, λ h. h)
  All-sort_by (a ∷ bs) =
      let first = All-insert_by a (sort_by key bs) in
      let rest = All-sort_by bs in
      (λ h. (let (pa, ps) = first.0 h in (pa, rest.0 ps)), λ h. first.1 (h.0, rest.1 h.1))

same_from :
    (s t : ConfigSnapshot) (rest : List ConfigSnapshot)
    → SameSettings s t
    → All (SameSettings s) rest
    → All (SameSettings t) rest
same_from s t rest h =
    All-mono {P = SameSettings s} {Q = SameSettings t}
      (λ u k. SameSettings-trans t s u (SameSettings-sym s t h) k) rest

pair-nil :
    (s t : ConfigSnapshot) → (entries_of t (diff_snapshots s t).changes ≡ []) ↔ SameSettings s t
pair-nil s t =
    let entries = entries_of-nil t (diff_snapshots s t).changes in
    let complete = diff_snapshots_complete s t in
    (λ e. complete.0 (entries.0 e), λ h. entries.1 (complete.1 h))

log_behind-nil :
    (s : ConfigSnapshot) (rest : List ConfigSnapshot)
    → (log_behind s rest ≡ []) ↔ All (SameSettings s) rest
unfolding log_behind
log_behind-nil s [] = (λ e. tt, λ h. refl)
log_behind-nil s (t ∷ rest) =
    let both = ++_empty (entries_of t (diff_snapshots s t).changes) (log_behind t rest) in
    let behind = log_behind-nil t rest in
    (
      λ e.
          let (here, later) = both.0 e in
          let same = (pair-nil s t).0 here in
          (same, same_from t s rest (SameSettings-sym s t same) (behind.0 later)),
      λ h. both.1 ((pair-nil s t).1 h.0, behind.1 (same_from s t rest h.0 h.1)),
    )

-- For a list with the same elements as a list that starts with s.
log_of-nil :
    (xs : List ConfigSnapshot) (s : ConfigSnapshot) (rest : List ConfigSnapshot)
    → ((P : ConfigSnapshot → Type 0) → All P xs ↔ All P (s ∷ rest))
    → (log_of xs ≡ []) ↔ All (SameSettings s) rest
unfolding log_of
log_of-nil [] s rest same = absurd (((same (λ t. ⊥)).0 tt).0)
log_of-nil (a ∷ xs) s rest same =
    let behind = log_behind-nil a xs in
    let from_a = same (SameSettings a) in
    let from_s = same (SameSettings s) in
    (
      λ e.
          let (here, later) = from_a.0 (SameSettings-refl a, behind.0 e) in
          same_from a s rest here later,
      λ h.
          let (here, later) = from_s.1 (SameSettings-refl s, h) in
          behind.1 (same_from s a xs here later),
    )

-- The change log of one or more snapshots, in whatever order they are given, is empty exactly when
-- every snapshot has the settings of the first: the six sections agree, the ledger-cost section
-- without its four per-transaction limits.
pub build_change_log_from_snapshots-nil_iff :
    (s : ConfigSnapshot) (rest : List ConfigSnapshot)
    → (build_change_log_from_snapshots (s ∷ rest) ≡ []) ↔ All (SameSettings s) rest
unfolding build_change_log_from_snapshots
build_change_log_from_snapshots-nil_iff s rest =
    let key = λ (t : ConfigSnapshot). t.timestamp in
    log_of-nil (sort_by key (s ∷ rest)) s rest (λ P. All-sort_by P key (s ∷ rest))
