-- ===== src/Snapshot/Diff/ExitCode.antt =====
-- src/config_snapshot/diff.rs, `resolve_exit_code`: how the exit code depends on the changes shown
-- and on the threshold.
use soroban_cost_estimator.Prelude.{
  ◌≡◌, refl, ◌≤◌, Bool, true, false, Bool-cases, inl, inr, Option, none, some, List, [], ◌∷◌, any,
  arith,
}
use soroban_cost_estimator.Snapshot.Diff.Field.{FieldDiff}
use soroban_cost_estimator.Snapshot.Model.{ConfigSnapshot}
use soroban_cost_estimator.Snapshot.Diff.Report.{
  Floats, filter, is_significant, has_significant_pricing_changes, resolve_exit_code, pricing_only,
  of_changes, diff_snapshots, all_changes,
}

-- Dropping elements that fail `q` does not change whether one satisfies `p`, where `p` implies `q`.
any-filter :
    {A : Type 0} (p q : A → Bool)
    → ((x : A) → p x ≡ true → q x ≡ true)
    → (xs : List A) → any p (filter q xs) ≡ any p xs
unfolding filter
any-filter p q imp [] = refl
any-filter p q imp (x ∷ xs) =
    let rest = any-filter p q imp xs in
    elim (Bool-cases (q x)) [
      | inl keep ↦ rw (keep, rest)
      | inr drop ↦ elim (Bool-cases (p x)) [
        | inl t ↦ absurd (let u = imp x t in cc)
        | inr f ↦ rw (drop, f, rest)
      ]
    ]

any_mono :
    {A : Type 0} (p q : A → Bool)
    → ((x : A) → p x ≡ true → q x ≡ true)
    → (xs : List A) → any p xs ≡ true
    → any q xs ≡ true
any_mono p q imp [] h = h
any_mono p q imp (x ∷ xs) h = elim (Bool-cases (p x)) [
  | inl t ↦ rw (imp x t)
  | inr f ↦ let rest = any_mono p q imp xs (rw f at h) in ground arith
]

module _ (floats : Floats) where
  significant_is_pricing :
      (t : floats.F64) (c : FieldDiff)
      → is_significant floats t c ≡ true
      → c.is_pricing_change ≡ true
  unfolding is_significant
  significant_is_pricing t c h = elim (Bool-cases c.is_pricing_change) [
    | inl t ↦ t
    | inr f ↦ absurd (let u = rw f at h in cc)
  ]

  -- For a diff of two snapshots, showing the pricing changes only leaves the exit code as it is, with
  -- and without a threshold, unless the code is asked to fail on any change.
  pub resolve_exit_code-pricing_only :
      (old new : ConfigSnapshot) (ignore_pricing_exit : Bool) (threshold : Option floats.F64)
      → resolve_exit_code floats
          (pricing_only (diff_snapshots old new))
          ignore_pricing_exit
          false
          threshold
        ≡ resolve_exit_code floats (diff_snapshots old new) ignore_pricing_exit false threshold
  unfolding resolve_exit_code pricing_only diff_snapshots of_changes has_significant_pricing_changes
  resolve_exit_code-pricing_only old new true threshold = refl
  resolve_exit_code-pricing_only old new false none =
      rw (
        any-filter (λ (c : FieldDiff). c.is_pricing_change) (λ c. c.is_pricing_change) (λ c h. h) _)
  resolve_exit_code-pricing_only old new false (some t) = rw (
      any-filter (is_significant floats t) (λ (c : FieldDiff). c.is_pricing_change)
        (significant_is_pricing t) _)

  -- For a diff of two snapshots, a threshold never raises the exit code, and the code is 0 or 1.
  pub resolve_exit_code-threshold :
      (old new : ConfigSnapshot) (ignore_pricing_exit fail_on_any_change : Bool) (t : floats.F64)
      → (resolve_exit_code floats
            (diff_snapshots old new)
            ignore_pricing_exit
            fail_on_any_change
            (some t)
          ≤ resolve_exit_code floats
              (diff_snapshots old new)
              ignore_pricing_exit
              fail_on_any_change
              none)
        × (resolve_exit_code floats
              (diff_snapshots old new)
              ignore_pricing_exit
              fail_on_any_change
              none
            ≤ 1)
  unfolding resolve_exit_code diff_snapshots of_changes has_significant_pricing_changes
  resolve_exit_code-threshold old new ignore_pricing_exit fail_on_any_change t =
      let mono =
        any_mono (is_significant floats t) (λ (c : FieldDiff). c.is_pricing_change)
          (significant_is_pricing t) (all_changes old new) in
      ground arith
