-- ===== src/Snapshot/Same/Equality.antt =====
-- src/config_snapshot/model.rs: the derived equality of the sections.
use soroban_cost_estimator.Prelude.{
  ◌≡◌, refl, ap, ◌↔◌, Bool, true, false, ◌&&◌, ==_iff, Option, none, some,
}
use soroban_cost_estimator.Snapshot.Model.{
  ContractComputeV0, ContractLedgerCostV0, ContractHistoricalDataV0, ContractEventsV0,
}
use soroban_cost_estimator.Snapshot.Same.{
  eq_option, eq_contract_compute, eq_ledger_cost, eq_historical_data, eq_events,
}
use soroban_cost_estimator.Snapshot.Diff.Field.{eq_ℤ_iff}

pub and_iff : (a b : Bool) → ((a && b) ≡ true) ↔ ((a ≡ true) × (b ≡ true))
and_iff true b = (λ h. (refl, h), λ h. h.1)
and_iff false b = (λ h. absurd (cc), λ h. h.0)

-- Two tests joined: the first decides an equation, the second what is left.
pub join :
    {A : Type 0} {a b : A} {p q : Bool} {R : Type 0}
    → ((p ≡ true) ↔ (a ≡ b))
    → ((q ≡ true) ↔ R)
    → ((p && q) ≡ true) ↔ ((a ≡ b) × R)
join first rest = (
  λ h. let both = (and_iff _ _).0 h in (first.0 both.0, rest.0 both.1),
  λ h. (and_iff _ _).1 (first.1 h.0, rest.1 h.1),
)

pub eq_option_iff :
    {A : Type 0} (eq : A → A → Bool)
    → ((a b : A) → (eq a b ≡ true) ↔ (a ≡ b))
    → (o p : Option A) → (eq_option eq o p ≡ true) ↔ (o ≡ p)
unfolding eq_option
eq_option_iff eq decides none none = (λ h. refl, λ h. refl)
eq_option_iff eq decides none (some b) = (λ h. absurd (cc), λ h. absurd (cc))
eq_option_iff eq decides (some a) none = (λ h. absurd (cc), λ h. absurd (cc))
eq_option_iff eq decides (some a) (some b) =
    (λ h. ap some ((decides a b).0 h), λ h. (decides a b).1 (cc))

pub eq_contract_compute_iff : (s t : ContractComputeV0) → (eq_contract_compute s t ≡ true) ↔ (s ≡ t)
unfolding eq_contract_compute
eq_contract_compute_iff s t =
    let decides : (eq_contract_compute s t ≡ true) ↔ (
        (s.ledger_max_instructions ≡ t.ledger_max_instructions)
        × ((s.tx_max_instructions ≡ t.tx_max_instructions)
            × ((s.fee_rate_per_instructions_increment ≡ t.fee_rate_per_instructions_increment)
                × (s.tx_memory_limit ≡ t.tx_memory_limit)))) =
      (join (eq_ℤ_iff _ _) (join (eq_ℤ_iff _ _) (join (eq_ℤ_iff _ _) (==_iff _ _)))) in
    (
      λ h.
          let (e0, (e1, (e2, e3))) = decides.0 h in
          λ i. record {
            ledger_max_instructions = e0 i;
            tx_max_instructions = e1 i;
            fee_rate_per_instructions_increment = e2 i;
            tx_memory_limit = e3 i;
          },
      λ h. decides.1 (
          (
            ap (λ r. r.ledger_max_instructions) h,
            (
              ap (λ r. r.tx_max_instructions) h,
              (ap (λ r. r.fee_rate_per_instructions_increment) h, ap (λ r. r.tx_memory_limit) h),
            ),
          )),
    )

pub eq_ledger_cost_iff : (s t : ContractLedgerCostV0) → (eq_ledger_cost s t ≡ true) ↔ (s ≡ t)
unfolding eq_ledger_cost
eq_ledger_cost_iff s t =
    let decides : (eq_ledger_cost s t ≡ true) ↔ (
        (s.ledger_max_disk_read_entries ≡ t.ledger_max_disk_read_entries)
        × ((s.ledger_max_disk_read_bytes ≡ t.ledger_max_disk_read_bytes)
            × ((s.ledger_max_write_ledger_entries ≡ t.ledger_max_write_ledger_entries)
                × ((s.ledger_max_write_bytes ≡ t.ledger_max_write_bytes)
                    × ((s.tx_max_disk_read_entries ≡ t.tx_max_disk_read_entries)
                        × ((s.tx_max_disk_read_bytes ≡ t.tx_max_disk_read_bytes)
                            × ((s.tx_max_write_ledger_entries ≡ t.tx_max_write_ledger_entries)
                                × ((s.tx_max_write_bytes ≡ t.tx_max_write_bytes)
                                    × ((s.fee_disk_read_ledger_entry ≡ t.fee_disk_read_ledger_entry)
                                        × ((s.fee_write_ledger_entry ≡ t.fee_write_ledger_entry)
                                            × ((s.fee_disk_read1_kb ≡ t.fee_disk_read1_kb)
                                                × ((s.soroban_state_target_size_bytes
                                                      ≡ t.soroban_state_target_size_bytes)
                                                    × ((s.rent_fee1_kb_soroban_state_size_low
                                                          ≡ t.rent_fee1_kb_soroban_state_size_low)
                                                        × ((s.rent_fee1_kb_soroban_state_size_high
                                                            ≡ t.rent_fee1_kb_soroban_state_size_high)
                                                            × (s.soroban_state_rent_fee_growth_factor
                                                            ≡ t.soroban_state_rent_fee_growth_factor))))))))))))))) =
      (join (==_iff _ _) (
        join (==_iff _ _) (
          join (==_iff _ _) (
            join (==_iff _ _) (
              join (==_iff _ _) (
                join (==_iff _ _) (
                  join (==_iff _ _) (
                    join (==_iff _ _) (
                      join (eq_ℤ_iff _ _) (
                        join (eq_ℤ_iff _ _) (
                          join (eq_ℤ_iff _ _) (
                            join (eq_ℤ_iff _ _) (
                              join (eq_ℤ_iff _ _) (join (eq_ℤ_iff _ _) (==_iff _ _))))))))))))))) in
    (
      λ h.
          let (
            e0,
            (e1, (e2, (e3, (e4, (e5, (e6, (e7, (e8, (e9, (e10, (e11, (e12, (e13, e14))))))))))))),
          ) =
            decides.0 h in
          λ i. record {
            ledger_max_disk_read_entries = e0 i;
            ledger_max_disk_read_bytes = e1 i;
            ledger_max_write_ledger_entries = e2 i;
            ledger_max_write_bytes = e3 i;
            tx_max_disk_read_entries = e4 i;
            tx_max_disk_read_bytes = e5 i;
            tx_max_write_ledger_entries = e6 i;
            tx_max_write_bytes = e7 i;
            fee_disk_read_ledger_entry = e8 i;
            fee_write_ledger_entry = e9 i;
            fee_disk_read1_kb = e10 i;
            soroban_state_target_size_bytes = e11 i;
            rent_fee1_kb_soroban_state_size_low = e12 i;
            rent_fee1_kb_soroban_state_size_high = e13 i;
            soroban_state_rent_fee_growth_factor = e14 i;
          },
      λ h. decides.1 (
          (
            ap (λ r. r.ledger_max_disk_read_entries) h,
            (
              ap (λ r. r.ledger_max_disk_read_bytes) h,
              (
                ap (λ r. r.ledger_max_write_ledger_entries) h,
                (
                  ap (λ r. r.ledger_max_write_bytes) h,
                  (
                    ap (λ r. r.tx_max_disk_read_entries) h,
                    (
                      ap (λ r. r.tx_max_disk_read_bytes) h,
                      (
                        ap (λ r. r.tx_max_write_ledger_entries) h,
                        (
                          ap (λ r. r.tx_max_write_bytes) h,
                          (
                            ap (λ r. r.fee_disk_read_ledger_entry) h,
                            (
                              ap (λ r. r.fee_write_ledger_entry) h,
                              (
                                ap (λ r. r.fee_disk_read1_kb) h,
                                (
                                  ap (λ r. r.soroban_state_target_size_bytes) h,
                                  (
                                    ap (λ r. r.rent_fee1_kb_soroban_state_size_low) h,
                                    (
                                      ap (λ r. r.rent_fee1_kb_soroban_state_size_high) h,
                                      ap (λ r. r.soroban_state_rent_fee_growth_factor) h,
                                    ),
                                  ),
                                ),
                              ),
                            ),
                          ),
                        ),
                      ),
                    ),
                  ),
                ),
              ),
            ),
          )),
    )

pub eq_historical_data_iff :
    (s t : ContractHistoricalDataV0) → (eq_historical_data s t ≡ true) ↔ (s ≡ t)
unfolding eq_historical_data
eq_historical_data_iff s t =
    let decides : (eq_historical_data s t ≡ true) ↔ (s.fee_historical1_kb ≡ t.fee_historical1_kb) =
      (eq_ℤ_iff _ _) in
    (
      λ h. let e0 = decides.0 h in λ i. record { fee_historical1_kb = e0 i },
      λ h. decides.1 (ap (λ r. r.fee_historical1_kb) h),
    )

pub eq_events_iff : (s t : ContractEventsV0) → (eq_events s t ≡ true) ↔ (s ≡ t)
unfolding eq_events
eq_events_iff s t =
    let decides : (eq_events s t ≡ true) ↔ (
        (s.tx_max_contract_events_size_bytes ≡ t.tx_max_contract_events_size_bytes)
        × (s.fee_contract_events1_kb ≡ t.fee_contract_events1_kb)) =
      (join (==_iff _ _) (eq_ℤ_iff _ _)) in
    (
      λ h.
          let (e0, e1) = decides.0 h in
          λ i. record { tx_max_contract_events_size_bytes = e0 i; fee_contract_events1_kb = e1 i },
      λ h. decides.1 (
          (ap (λ r. r.tx_max_contract_events_size_bytes) h, ap (λ r. r.fee_contract_events1_kb) h)),
    )
