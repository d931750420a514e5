-- ===== src/Report/Limits/Threshold.antt =====
-- src/report/cost_report.rs, `check_resource_limits`: which resources are warned of.
use Prim.Native.String.{String}
use mathlib.Core.List.{append-nil}
use soroban_cost_estimator.Prelude.{
  ℕ, ◌*◌, ◌≤◌, ◌<◌, ◌≡◌, refl, ◌/◌, ◌⊎◌, inl, inr, arith, min, Option, none, some, List, [], ◌∷◌,
  ◌++◌,
}
use soroban_cost_estimator.Prelude.Machine.{u64_max}
use soroban_cost_estimator.Report.Model.{ResourceWarning}
use soroban_cost_estimator.Report.Limits.{
  NetworkConfig, push_resource_warning, check_resource_limits_raw, sat_mul_u64, u32_max,
  warning_message,
}

-- One resource: its key, its label, what a call uses of it and its limit.
abbrev pub Resource : Type 0
Resource = String × String × ℕ × Option ℕ

-- The limit is known and positive, and at least 80 percent of it are used.
abbrev pub IsNear : ℕ → Option ℕ → Type 0
IsNear used none = ⊥
IsNear used (some limit) = (0 < limit) × (80 * limit ≤ 100 * used)

-- A warning of a resource, with the share of the limit in percent rounded down and held at u32.
abbrev pub Warns : Resource → ResourceWarning → Type 0
Warns (key, label, used, limit) w =
    IsNear used limit
    × (w.resource ≡ key)
    × (w.label ≡ label)
    × (w.used ≡ used)
    × (some w.limit ≡ limit)
    × (w.percent ≡ min (100 * used / w.limit) u32_max)

-- One warning for every resource that is near its limit, in the order of the resources, and no other.
pub data Warned : List Resource → List ResourceWarning → Type 0 where
  done : Warned [] []
  near :
      {r : Resource} {rs : List Resource} {w : ResourceWarning} {ws : List ResourceWarning}
      → Warns r w
      → Warned rs ws
      → Warned (r ∷ rs) (w ∷ ws)
  far :
      {key label : String} {used : ℕ} {limit : Option ℕ} {rs : List Resource}
      {ws : List ResourceWarning}
      → ¬ IsNear used limit
      → Warned rs ws
      → Warned ((key, label, used, limit) ∷ rs) ws

abbrev warning_of : String → String → ℕ → ℕ → ResourceWarning
warning_of key label used limit =
    let percent = min (100 * used / limit) u32_max in
    record {
      resource = key;
      label = label;
      used = used;
      limit = limit;
      percent = percent;
      message = warning_message label percent used limit;
    }

IsNear-or-far :
    (used limit : ℕ) → IsNear used (some limit) ⊎ ((limit ≡ 0) ⊎ (100 * used < 80 * limit))
IsNear-or-far used limit = ground arith

push-far :
    (key label : String) (used limit : ℕ)
    → 100 * used ≤ u64_max
    → (limit ≡ 0) ⊎ (100 * used < 80 * limit)
    → push_resource_warning key label used (some limit) ≡ []
unfolding push_resource_warning
push-far key label used limit h quiet = ground arith

push-near :
    (key label : String) (used limit : ℕ)
    → 100 * used ≤ u64_max
    → IsNear used (some limit)
    → push_resource_warning key label used (some limit) ≡ warning_of key label used limit ∷ []
unfolding push_resource_warning
push-near key label used limit h n =
    let exact : sat_mul_u64 used 100 ≡ 100 * used = ground arith in ground (arith, exact)

push_resource_warning-Warned :
    (key label : String) (used : ℕ) (limit : Option ℕ) {rs : List Resource}
    {ws : List ResourceWarning}
    → 100 * used ≤ u64_max
    → Warned rs ws
    → Warned ((key, label, used, limit) ∷ rs) (push_resource_warning key label used limit ++ ws)
unfolding push_resource_warning
push_resource_warning-Warned key label used none h rest = far (λ n. n) rest
push_resource_warning-Warned key label used (some limit) {rs} {ws} h rest =
    elim (IsNear-or-far used limit) [
      | inl n ↦
          (let warns : Warned _ (warning_of key label used limit ∷ ws) =
              near (n, refl, refl, refl, refl, refl) rest in
            rw (push-near key label used limit h n) warns)
      | inr f ↦
          (let quiet : Warned ((key, label, used, some limit) ∷ rs) ws =
              far (λ n. absurd (ground arith)) rest in
            rw (push-far key label used limit h f) quiet)
    ]

-- A call that uses at most a hundredth of the u64 range of each resource gets, in the order CPU,
-- read entries, write entries, read bytes, write bytes and transaction size, one warning for each
-- resource of which at least 80 percent of a known and positive limit are used, and no other
-- warning; a warning names the resource, the use, the limit and the share in percent, rounded down
-- and held at the u32 maximum.
pub check_resource_limits_raw-Warned :
    (cpu read_entries write_entries read_bytes write_bytes size : ℕ) (c : NetworkConfig)
    → 100 * cpu ≤ u64_max
    → 100 * read_entries ≤ u64_max
    → 100 * write_entries ≤ u64_max
    → 100 * read_bytes ≤ u64_max
    → 100 * write_bytes ≤ u64_max
    → 100 * size ≤ u64_max
    → Warned
        (("cpu_instructions", "CPU instructions", cpu, c.tx_max_instructions)
          ∷ ("read_entries", "Ledger read entries", read_entries, c.tx_max_read_entries)
          ∷ ("write_entries", "Ledger write entries", write_entries, c.tx_max_write_entries)
          ∷ ("read_bytes", "Ledger read bytes", read_bytes, c.tx_max_read_bytes)
          ∷ ("write_bytes", "Ledger write bytes", write_bytes, c.tx_max_write_bytes)
          ∷ ("tx_size", "Transaction size", size, c.tx_max_size)
          ∷ [])
        (check_resource_limits_raw cpu read_entries write_entries read_bytes write_bytes size c)
unfolding check_resource_limits_raw
check_resource_limits_raw-Warned cpu read_entries write_entries read_bytes write_bytes size c h1 h2
      h3 h4 h5 h6 =
    push_resource_warning-Warned _ _ cpu c.tx_max_instructions h1 (
      push_resource_warning-Warned _ _ read_entries c.tx_max_read_entries h2 (
        push_resource_warning-Warned _ _ write_entries c.tx_max_write_entries h3 (
          push_resource_warning-Warned _ _ read_bytes c.tx_max_read_bytes h4 (
            push_resource_warning-Warned _ _ write_bytes c.tx_max_write_bytes h5 (
              rw append-nil at (
                push_resource_warning-Warned "tx_size" "Transaction size" size c.tx_max_size h6
                  done))))))
