-- ===== src/Cache/Evict/Quota.antt =====
-- src/cache.rs, `enforce_limits_in_tx`: what is left of the tables.
use soroban_cost_estimator.Prelude.{
  ℕ, zero, suc, ◌+◌, ◌-◌, ◌≤◌, ◌<◌, ◌≡◌, refl, sym, ◌∙◌, ap, ◌⊎◌, inl, inr, arith, ◌==◌, ◌&&◌, not,
  Bool, true, false, min, if◌then◌else◌, Option, none, some, length, drop, length-drop, drop-drop,
  drop-zero,
}
use soroban_cost_estimator.Cache.{CacheLimits, is_unbounded}
use soroban_cost_estimator.Cache.Evict.{
  Tables, max_eviction_rounds, history_eviction_batch, eviction_batch, target_entries, over, next,
  removed, dropped, evict_round, evict_rounds, enforce_limits,
}

-- A round leaves at least one of two or more estimates.
eviction_batch-bounds :
    (n bytes : ℕ) (limits : CacheLimits) (target : ℕ)
    → 1 < n
    → (0 < eviction_batch n bytes limits target) × (eviction_batch n bytes limits target < n)
unfolding eviction_batch
eviction_batch-bounds n bytes limits target h = ground arith

history_batch-positive :
    (n bytes : ℕ) (limits : CacheLimits)
    → over limits.max_bytes bytes ≡ true
    → 0 < n
    → 0 < min (history_eviction_batch n bytes limits) n
unfolding history_eviction_batch
history_batch-positive n bytes limits h p = ground arith

abbrev pub Limited : ℕ → ℕ → Type 0
Limited quota n = (quota ≡ 0) ⊎ (n ≤ quota)

over-false : (quota n : ℕ) → over quota n ≡ false → Limited quota n
over-false quota n h = ground arith

==-false : (n : ℕ) → 0 < n → (n == 0) ≡ false
==-false n h = ground arith

-- The first estimates and the first history rows are gone, and not all estimates.
abbrev pub Evicted : {Row Entry : Type 0} → Tables Row Entry → ℕ → Tables Row Entry → Type 0
Evicted t n t' =
    (t'.estimates ≡ drop n t.estimates)
    × ((n ≡ 0) ⊎ (n < length t.estimates))
    × ((d : ℕ) × (t'.history ≡ drop d t.history))

abbrev pub rows : {Row Entry : Type 0} → Tables Row Entry → ℕ
rows t = length t.estimates + length t.history

module _ {Row Entry : Type 0} (live_db_bytes : Tables Row Entry → ℕ) where
  -- Both quotas hold, or nothing is left that eviction deletes.
  abbrev pub Settled : CacheLimits → Tables Row Entry → Type 0
  Settled limits t =
      (Limited limits.max_entries (length t.estimates) × Limited limits.max_bytes (live_db_bytes t))
      ⊎ ((length t.estimates ≤ 1) × (length t.history ≡ 0))

  abbrev Round : CacheLimits → Tables Row Entry → Option (ℕ × Tables Row Entry) → Type 0
  Round limits t none = Settled limits t
  Round limits t (some (n, t')) = Evicted t n t' × (rows t' < rows t)

  removed-cases :
      (limits : CacheLimits) (t : Tables Row Entry)
      → ((length t.estimates ≤ 1) × (removed live_db_bytes limits t ≡ 0))
        ⊎ ((0 < removed live_db_bytes limits t)
            × (removed live_db_bytes limits t < length t.estimates))
  unfolding removed
  removed-cases limits t = ground (
    arith,
    eviction_batch-bounds (length t.estimates) (live_db_bytes t) limits (target_entries limits),
  )

  dropped-cases :
      (limits : CacheLimits) (t : Tables Row Entry)
      → (over limits.max_bytes (live_db_bytes t) ≡ false)
        ⊎ ((length t.history ≡ 0) × (dropped live_db_bytes limits t ≡ 0))
        ⊎ ((0 < dropped live_db_bytes limits t) × (0 < length t.history))
  unfolding dropped
  dropped-cases limits t =
      ground (arith, history_batch-positive (length t.history) (live_db_bytes t) limits)

  -- The tables behind a round that deletes something.
  smaller :
      (t : Tables Row Entry) (n d : ℕ)
      → ((0 < n) × (n < length t.estimates)) ⊎ ((n ≡ 0) × (0 < d) × (0 < length t.history))
      → let t' : Tables Row Entry = record {
        estimates = drop n t.estimates;
        history = drop d t.history;
      } in
        Evicted t n t' × (rows t' < rows t)
  smaller t n d (inl (p, q)) =
      ((refl, inr q, (d, refl)), omega (arith, length-drop n t.estimates, length-drop d t.history))
  smaller t n d (inr (z, p, q)) = (
    (refl, inl z, (d, refl)),
    omega (arith, z, length-drop n t.estimates, length-drop d t.history),
  )

  over-many : (quota n : ℕ) → over quota n ≡ true → 1 < n
  over-many quota n h = ground arith

  round_of :
      (limits : CacheLimits) (t : Tables Row Entry) (oe ob : Bool) (n d : ℕ)
      → (oe ≡ false → Limited limits.max_entries (length t.estimates))
      → (ob ≡ false → Limited limits.max_bytes (live_db_bytes t))
      → (oe ≡ true → 1 < length t.estimates)
      → ((length t.estimates ≤ 1) × (n ≡ 0)) ⊎ ((0 < n) × (n < length t.estimates))
      → (ob ≡ false) ⊎ ((length t.history ≡ 0) × (d ≡ 0)) ⊎ ((0 < d) × (0 < length t.history))
      → Round limits t (
          if not oe && not ob
          then none
          else if n == 0 && d == 0
          then none
          else some (n, record { estimates = drop n t.estimates; history = drop d t.history }))
  round_of limits t false false n d fe fb many ns ds = inl (fe refl, fb refl)
  round_of limits t true ob n d fe fb many (inl (few, z)) ds =
      absurd (omega (arith, many refl, few))
  round_of limits t true ob n d fe fb many (inr (p, q)) ds =
      rw (==-false n p) (smaller t n d (inl (p, q)))
  round_of limits t false true n d fe fb many (inr (p, q)) ds =
      rw (==-false n p) (smaller t n d (inl (p, q)))
  round_of limits t false true n d fe fb many (inl (few, z)) (inl within) = absurd (cc)
  round_of limits t false true n d fe fb many (inl (few, z)) (inr (inl (none_left, zd))) =
      rw (z, zd) (inr (few, none_left))
  round_of limits t false true n d fe fb many (inl (few, z)) (inr (inr (p, q))) =
      rw (z, ==-false d p) (smaller t 0 d (inr (refl, p, q)))

  evict_round-Round :
      (limits : CacheLimits) (t : Tables Row Entry)
      → Round limits t (evict_round live_db_bytes limits t)
  unfolding evict_round
  evict_round-Round limits t =
      round_of limits t (over limits.max_entries (length t.estimates))
        (over limits.max_bytes (live_db_bytes t)) (removed live_db_bytes limits t)
        (dropped live_db_bytes limits t) (over-false limits.max_entries (length t.estimates))
        (over-false limits.max_bytes (live_db_bytes t))
        (over-many limits.max_entries (length t.estimates)) (removed-cases limits t)
        (dropped-cases limits t)

  more-below : (n m k : ℕ) → (n ≡ 0) ⊎ (n < k) → (m ≡ 0) ⊎ (m < k - n) → (n + m ≡ 0) ⊎ (n + m < k)
  more-below n m k h h' = ground arith

  unchanged : (t : Tables Row Entry) → Evicted t 0 t
  unchanged t = (sym (drop-zero t.estimates), inl refl, (0, sym (drop-zero t.history)))

  Evicted-more :
      (t t' t'' : Tables Row Entry) (n m : ℕ)
      → Evicted t n t'
      → Evicted t' m t''
      → Evicted t (n + m) t''
  Evicted-more t t' t'' n m (en, bn, (d, ed)) (em, bm, (c, ec)) =
      let left : (m ≡ 0) ⊎ (m < length t.estimates - n) =
        rw (ap length en ∙ length-drop n t.estimates) at bm in
      (
        em ∙ ap (drop m) en ∙ drop-drop m n t.estimates,
        more-below n m (length t.estimates) bn left,
        (d + c, ec ∙ ap (drop c) ed ∙ drop-drop c d t.history),
      )

  abbrev Ends : CacheLimits → Tables Row Entry → ℕ × Tables Row Entry → Type 0
  Ends limits t0 r = Evicted t0 r.0 r.1 × Settled limits r.1

  Ends-next :
      (limits : CacheLimits) (t0 t : Tables Row Entry) (evicted : ℕ)
      (o : Option (ℕ × Tables Row Entry)) (continue : ℕ → Tables Row Entry → ℕ × Tables Row Entry)
      → Evicted t0 evicted t
      → Round limits t o
      → ((n : ℕ) (t' : Tables Row Entry)
          → Evicted t n t'
          → rows t' < rows t
          → Ends limits t0 (continue n t'))
      → Ends limits t0 (next o continue (evicted, t))
  Ends-next limits t0 t evicted none continue e settled rest = (e, settled)
  Ends-next limits t0 t evicted (some (n, t')) continue e (gone, fewer) rest = rest n t' gone fewer

  evict_rounds-Settled :
      (rounds : ℕ) (limits : CacheLimits) (evicted : ℕ) (t0 t : Tables Row Entry)
      → rows t < rounds
      → Evicted t0 evicted t
      → Ends limits t0 (evict_rounds live_db_bytes rounds limits evicted t)
  unfolding evict_rounds
  evict_rounds-Settled zero limits evicted t0 t h e = absurd (omega arith)
  evict_rounds-Settled (suc rounds) limits evicted t0 t h e =
      Ends-next limits t0 t evicted (evict_round live_db_bytes limits t)
        (λ n t'. evict_rounds live_db_bytes rounds limits (evicted + n) t') e
        (evict_round-Round limits t)
        (λ n t' gone fewer.
          evict_rounds-Settled rounds limits (evicted + n) t0 t' (omega (arith, h, fewer))
            (Evicted-more t0 t t' evicted n e gone))

  unless_unbounded :
      (limits : CacheLimits) (t : Tables Row Entry) (b : Bool) (r : ℕ × Tables Row Entry)
      → (b ≡ true → Settled limits t)
      → Ends limits t r
      → Ends limits t (if b then (0, t) else r)
  unless_unbounded limits t true r settled ends = (unchanged t, settled refl)
  unless_unbounded limits t false r settled ends = ends

  unbounded-Settled :
      (limits : CacheLimits) (t : Tables Row Entry) → is_unbounded limits ≡ true → Settled limits t
  unfolding is_unbounded
  unbounded-Settled limits t h = ground arith

  -- When the two tables have fewer than 100000 rows together, eviction ends with both quotas kept or
  -- with at most one estimate and no history row left. It deletes the estimates that come first in
  -- the order of last access, as many as it reports and never all of them, and history rows from the
  -- oldest on.
  pub enforce_limits-Settled :
      (limits : CacheLimits) (t : Tables Row Entry)
      → rows t < max_eviction_rounds
      → let r = enforce_limits live_db_bytes limits t in Evicted t r.0 r.1 × Settled limits r.1
  unfolding enforce_limits
  enforce_limits-Settled limits t h =
      unless_unbounded limits t (is_unbounded limits)
        (evict_rounds live_db_bytes max_eviction_rounds limits 0 t) (unbounded-Settled limits t)
        (evict_rounds-Settled max_eviction_rounds limits 0 t t h (unchanged t))
