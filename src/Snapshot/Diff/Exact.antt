-- ===== src/Snapshot/Diff/Exact.antt =====
-- src/config_snapshot/diff.rs, `check` and `compare_*`: sections for which nothing is pushed.
pub mod LedgerCost
pub mod StateArchival
use soroban_cost_estimator.Prelude.{
  ◌≡◌, refl, ap, ◌↔◌, Bool, Bool-cases, inl, inr, Option, none, some, List, [], ◌∷◌, ◌++◌,
}
use soroban_cost_estimator.Snapshot.Model.{
  ContractComputeV0, ContractLedgerCostV0, ContractHistoricalDataV0, ContractEventsV0,
  ContractBandwidthV0, StateArchivalV0,
}
use soroban_cost_estimator.Snapshot.Diff.Field.{
  FieldDiff, Shown, nat_shown, int_shown, check, push_presence_change,
}
use soroban_cost_estimator.Snapshot.Diff.Sections.{
  contract_compute_fields, ledger_cost_fields, historical_data_fields, events_fields,
  bandwidth_fields, state_archival_fields, compare_contract_compute, compare_ledger_cost,
  compare_historical_data, compare_events, compare_bandwidth, compare_state_archival,
}

pub cons_empty : {A B : Type 0} {x : A} {xs : List A} → x ∷ xs ≡ [] → B
cons_empty e = absurd (cc)

pub ++_empty : {A : Type 0} (xs ys : List A) → (xs ++ ys ≡ []) ↔ ((xs ≡ []) × (ys ≡ []))
++_empty [] ys = (λ e. (refl, e), λ e. e.1)
++_empty (x ∷ xs) ys = (λ e. cons_empty e, λ e. cons_empty (e.0))

-- A check pushes nothing exactly when the two values are equal.
pub check_empty :
    {A : Type 0} ⦃s : Shown A⦄ (path : _) (a b : A) (p : Bool) → (check path a b p ≡ []) ↔ (a ≡ b)
unfolding check
check_empty ⦃s⦄ path a b p = (
  λ e. elim (Bool-cases (s.eq a b)) [ inl t ↦ (s.eq_iff a b).0 t | inr f ↦ cons_empty (rw f at e) ],
  λ e. rw ((s.eq_iff a b).1 e),
)

module _ {A : Type 0} ⦃s : Shown A⦄ (path : _) (a b : A) (p : Bool) (rest : List FieldDiff) where
  pub check_next : check path a b p ++ rest ≡ [] → (a ≡ b) × (rest ≡ [])
  check_next e = let both = (++_empty _ _).0 e in ((check_empty path a b p).0 both.0, both.1)

  pub check_skip : a ≡ b → rest ≡ [] → check path a b p ++ rest ≡ []
  check_skip e r = (++_empty _ _).1 ((check_empty path a b p).1 e, r)

contract_compute_equal :
    (old new : ContractComputeV0) → contract_compute_fields old new ≡ [] → old ≡ new
unfolding contract_compute_fields
contract_compute_equal old new e =
    let (e0, r0) = check_next _ _ _ _ _ e in
    let (e1, r1) = check_next _ _ _ _ _ r0 in
    let (e2, r2) = check_next _ _ _ _ _ r1 in
    let e3 = (check_empty _ _ _ _).0 r2 in
    λ i. record {
      ledger_max_instructions = e0 i;
      tx_max_instructions = e1 i;
      fee_rate_per_instructions_increment = e2 i;
      tx_memory_limit = e3 i;
    }

contract_compute_same :
    (old new : ContractComputeV0) → old ≡ new → contract_compute_fields old new ≡ []
unfolding contract_compute_fields
contract_compute_same old new e = check_skip _ _ _ _ _ (ap (λ t. t.ledger_max_instructions) e) (
    check_skip _ _ _ _ _ (ap (λ t. t.tx_max_instructions) e) (
      check_skip _ _ _ _ _ (ap (λ t. t.fee_rate_per_instructions_increment) e)
        ((check_empty _ _ _ _).1 (ap (λ t. t.tx_memory_limit) e))))

pub compare_contract_compute_exact :
    (old new : Option ContractComputeV0) → (compare_contract_compute old new ≡ []) ↔ (old ≡ new)
unfolding compare_contract_compute push_presence_change
compare_contract_compute_exact none none = (λ e. refl, λ e. refl)
compare_contract_compute_exact none (some new) = (λ e. cons_empty e, λ e. absurd (cc))
compare_contract_compute_exact (some old) none = (λ e. cons_empty e, λ e. absurd (cc))
compare_contract_compute_exact (some old) (some new) =
    (λ e. ap some (contract_compute_equal old new e), λ e. contract_compute_same old new (cc))

historical_data_equal :
    (old new : ContractHistoricalDataV0) → historical_data_fields old new ≡ [] → old ≡ new
unfolding historical_data_fields
historical_data_equal old new e =
    let e0 = (check_empty _ _ _ _).0 e in λ i. record { fee_historical1_kb = e0 i }

historical_data_same :
    (old new : ContractHistoricalDataV0) → old ≡ new → historical_data_fields old new ≡ []
unfolding historical_data_fields
historical_data_same old new e = (check_empty _ _ _ _).1 (ap (λ t. t.fee_historical1_kb) e)

pub compare_historical_data_exact :
    (old new : Option ContractHistoricalDataV0)
    → (compare_historical_data old new ≡ []) ↔ (old ≡ new)
unfolding compare_historical_data push_presence_change
compare_historical_data_exact none none = (λ e. refl, λ e. refl)
compare_historical_data_exact none (some new) = (λ e. cons_empty e, λ e. absurd (cc))
compare_historical_data_exact (some old) none = (λ e. cons_empty e, λ e. absurd (cc))
compare_historical_data_exact (some old) (some new) =
    (λ e. ap some (historical_data_equal old new e), λ e. historical_data_same old new (cc))

events_equal : (old new : ContractEventsV0) → events_fields old new ≡ [] → old ≡ new
unfolding events_fields
events_equal old new e =
    let (e0, r0) = check_next _ _ _ _ _ e in
    let e1 = (check_empty _ _ _ _).0 r0 in
    λ i. record { tx_max_contract_events_size_bytes = e0 i; fee_contract_events1_kb = e1 i }

events_same : (old new : ContractEventsV0) → old ≡ new → events_fields old new ≡ []
unfolding events_fields
events_same old new e =
    check_skip _ _ _ _ _ (ap (λ t. t.tx_max_contract_events_size_bytes) e)
      ((check_empty _ _ _ _).1 (ap (λ t. t.fee_contract_events1_kb) e))

pub compare_events_exact :
    (old new : Option ContractEventsV0) → (compare_events old new ≡ []) ↔ (old ≡ new)
unfolding compare_events push_presence_change
compare_events_exact none none = (λ e. refl, λ e. refl)
compare_events_exact none (some new) = (λ e. cons_empty e, λ e. absurd (cc))
compare_events_exact (some old) none = (λ e. cons_empty e, λ e. absurd (cc))
compare_events_exact (some old) (some new) =
    (λ e. ap some (events_equal old new e), λ e. events_same old new (cc))

bandwidth_equal : (old new : ContractBandwidthV0) → bandwidth_fields old new ≡ [] → old ≡ new
unfolding bandwidth_fields
bandwidth_equal old new e =
    let (e0, r0) = check_next _ _ _ _ _ e in
    let (e1, r1) = check_next _ _ _ _ _ r0 in
    let e2 = (check_empty _ _ _ _).0 r1 in
    λ i. record {
      ledger_max_txs_size_bytes = e0 i;
      tx_max_size_bytes = e1 i;
      fee_tx_size1_kb = e2 i;
    }

bandwidth_same : (old new : ContractBandwidthV0) → old ≡ new → bandwidth_fields old new ≡ []
unfolding bandwidth_fields
bandwidth_same old new e = check_skip _ _ _ _ _ (ap (λ t. t.ledger_max_txs_size_bytes) e) (
    check_skip _ _ _ _ _ (ap (λ t. t.tx_max_size_bytes) e)
      ((check_empty _ _ _ _).1 (ap (λ t. t.fee_tx_size1_kb) e)))

pub compare_bandwidth_exact :
    (old new : Option ContractBandwidthV0) → (compare_bandwidth old new ≡ []) ↔ (old ≡ new)
unfolding compare_bandwidth push_presence_change
compare_bandwidth_exact none none = (λ e. refl, λ e. refl)
compare_bandwidth_exact none (some new) = (λ e. cons_empty e, λ e. absurd (cc))
compare_bandwidth_exact (some old) none = (λ e. cons_empty e, λ e. absurd (cc))
compare_bandwidth_exact (some old) (some new) =
    (λ e. ap some (bandwidth_equal old new e), λ e. bandwidth_same old new (cc))
