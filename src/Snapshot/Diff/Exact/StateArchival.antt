-- ===== src/Snapshot/Diff/Exact/StateArchival.antt =====
-- src/config_snapshot/diff.rs, `compare_state_archival`: sections for which nothing is pushed.
use soroban_cost_estimator.Prelude.{◌≡◌, refl, ap, ◌↔◌, Option, none, some, []}
use soroban_cost_estimator.Snapshot.Model.{StateArchivalV0}
use soroban_cost_estimator.Snapshot.Diff.Field.{nat_shown, int_shown, push_presence_change}
use soroban_cost_estimator.Snapshot.Diff.Sections.{state_archival_fields, compare_state_archival}
use soroban_cost_estimator.Snapshot.Diff.Exact.{cons_empty, check_empty, check_next, check_skip}

state_archival_equal : (old new : StateArchivalV0) → state_archival_fields old new ≡ [] → old ≡ new
unfolding state_archival_fields
state_archival_equal old new e =
    let (e0, r0) = check_next _ _ _ _ _ e in
    let (e1, r1) = check_next _ _ _ _ _ r0 in
    let (e2, r2) = check_next _ _ _ _ _ r1 in
    let (e3, r3) = check_next _ _ _ _ _ r2 in
    let (e4, r4) = check_next _ _ _ _ _ r3 in
    let (e5, r5) = check_next _ _ _ _ _ r4 in
    let (e6, r6) = check_next _ _ _ _ _ r5 in
    let (e7, r7) = check_next _ _ _ _ _ r6 in
    let (e8, r8) = check_next _ _ _ _ _ r7 in
    let e9 = (check_empty _ _ _ _).0 r8 in
    λ i. record {
      max_entry_ttl = e0 i;
      min_temporary_ttl = e1 i;
      min_persistent_ttl = e2 i;
      persistent_rent_rate_denominator = e3 i;
      temp_rent_rate_denominator = e4 i;
      max_entries_to_archive = e5 i;
      live_soroban_state_size_window_sample_size = e6 i;
      live_soroban_state_size_window_sample_period = e7 i;
      eviction_scan_size = e8 i;
      starting_eviction_scan_level = e9 i;
    }

state_archival_same : (old new : StateArchivalV0) → old ≡ new → state_archival_fields old new ≡ []
unfolding state_archival_fields
state_archival_same old new e = check_skip _ _ _ _ _ (ap (λ t. t.max_entry_ttl) e) (
    check_skip _ _ _ _ _ (ap (λ t. t.min_temporary_ttl) e) (
      check_skip _ _ _ _ _ (ap (λ t. t.min_persistent_ttl) e) (
        check_skip _ _ _ _ _ (ap (λ t. t.persistent_rent_rate_denominator) e) (
          check_skip _ _ _ _ _ (ap (λ t. t.temp_rent_rate_denominator) e) (
            check_skip _ _ _ _ _ (ap (λ t. t.max_entries_to_archive) e) (
              check_skip _ _ _ _ _ (ap (λ t. t.live_soroban_state_size_window_sample_size) e) (
                check_skip _ _ _ _ _ (ap (λ t. t.live_soroban_state_size_window_sample_period) e) (
                  check_skip _ _ _ _ _ (ap (λ t. t.eviction_scan_size) e)
                    ((check_empty _ _ _ _).1 (ap (λ t. t.starting_eviction_scan_level) e))))))))))

pub compare_state_archival_exact :
    (old new : Option StateArchivalV0) → (compare_state_archival old new ≡ []) ↔ (old ≡ new)
unfolding compare_state_archival push_presence_change
compare_state_archival_exact none none = (λ e. refl, λ e. refl)
compare_state_archival_exact none (some new) = (λ e. cons_empty e, λ e. absurd (cc))
compare_state_archival_exact (some old) none = (λ e. cons_empty e, λ e. absurd (cc))
compare_state_archival_exact (some old) (some new) =
    (λ e. ap some (state_archival_equal old new e), λ e. state_archival_same old new (cc))
