-- ===== src/Rpc/Retry/Loop.antt =====
-- src/rpc/retry.rs, `with_retry_deadline`: the end of the loop, its attempts and its delays.
use native.Mathlib.Numerals.{add-one}
use soroban_cost_estimator.Prelude.{
  ℕ, zero, suc, ◌+◌, ◌≤◌, ◌<◌, ◌≡◌, refl, true, false, Option, none, some, arith, length, All,
  Bool-cases, inl, inr,
}
use soroban_cost_estimator.Error.{Externals, ok, err, AppResult}
use soroban_cost_estimator.Rpc.Retry.{
  Round, Retried, past, is_retryable, settle, retry_loop, with_retry_deadline,
}

abbrev pub Before : Option ℕ → ℕ → Type 0
Before none t = Unit
Before (some d) t = t < d

-- A loop that has ended: at most `n` attempts, each started before the deadline.
abbrev pub Ended : {x : Externals} {A : Type 0} → Option ℕ → ℕ → Option (Retried x A) → Type 0
Ended deadline n none = ⊥
Ended deadline n (some r) =
    (length r.starts ≤ n) × (length r.delays ≤ length r.starts) × All (Before deadline) r.starts

-- An error that is worth another attempt.
abbrev pub IsTransient : {x : Externals} {A : Type 0} → Option (AppResult x A) → Type 0
IsTransient none = ⊥
IsTransient (some (ok v)) = ⊥
IsTransient (some (err e)) = is_retryable e ≡ true

Before-past : (deadline : Option ℕ) (t : ℕ) → past deadline t ≡ false → Before deadline t
Before-past none t h = tt
Before-past (some d) t h = ground arith

Ended-some :
    {x : Externals} {A : Type 0} (deadline : Option ℕ) (n : ℕ) (o : Option (Retried x A))
    → Ended deadline n o
    → (r : Retried x A) × (o ≡ some r) × Ended deadline n (some r)
Ended-some deadline n none h = absurd h
Ended-some deadline n (some r) h = (r, refl, h)

module _ {x : Externals} {A : Type 0} (max_retries : ℕ) (deadline : Option ℕ) (timeout_ms : ℕ)
    (rounds : ℕ → Round x A) where
  settle-Ended :
      (attempts fuel : ℕ) (round : Round x A) (outcome : Option (AppResult x A))
      (rest : Option (Retried x A))
      → attempts + fuel ≡ max_retries
      → Before deadline round.started_at
      → (0 < fuel → Ended deadline fuel rest)
      → Ended deadline
          (suc fuel)
          (settle max_retries deadline timeout_ms rounds attempts round outcome rest)
  unfolding settle
  settle-Ended attempts fuel round none rest h hd hr = (omega arith, omega arith, (hd, tt))
  settle-Ended attempts fuel round (some (ok v)) rest h hd hr = (omega arith, omega arith, (hd, tt))
  settle-Ended attempts fuel round (some (err e)) rest h hd hr = ground arith

  retry_loop-Ended :
      (fuel attempts : ℕ)
      → attempts + fuel ≡ max_retries
      → Ended deadline
          (suc fuel)
          (retry_loop max_retries deadline timeout_ms rounds (suc fuel) attempts)
  unfolding retry_loop
  retry_loop-Ended zero attempts h =
      elim (Bool-cases (past deadline (rounds attempts).started_at)) [
        | inl late ↦ rw late (omega arith, omega arith, tt)
        | inr early ↦ rw early (
            settle-Ended attempts 0 (rounds attempts) (rounds attempts).outcome none h
              (Before-past deadline (rounds attempts).started_at early)
              (λ (lt : 0 < 0). absurd (omega arith)))
      ]
  retry_loop-Ended (suc fuel) attempts h =
      let rest = retry_loop max_retries deadline timeout_ms rounds (suc fuel) (attempts + 1) in
      let ended = retry_loop-Ended fuel (attempts + 1) (omega arith) in
      elim (Bool-cases (past deadline (rounds attempts).started_at)) [
        | inl late ↦ rw late (omega arith, omega arith, tt)
        | inr early ↦ rw early (
            settle-Ended attempts (suc fuel) (rounds attempts) (rounds attempts).outcome rest h
              (Before-past deadline (rounds attempts).started_at early)
              (λ (lt : 0 < suc fuel). ended))
      ]

  -- Whatever the operation, the clock and the jitter answer, the loop ends: it makes at most one
  -- attempt more than the retries allowed, sleeps no more often than it tries, and starts no
  -- attempt at or behind the deadline.
  pub with_retry_deadline_total :
      (r : Retried x A) × (with_retry_deadline max_retries deadline timeout_ms rounds ≡ some r)
      × (length r.starts ≤ max_retries + 1)
      × (length r.delays ≤ length r.starts)
      × All (Before deadline) r.starts
  unfolding with_retry_deadline
  with_retry_deadline_total =
      let ended : Ended deadline (suc max_retries)
          (retry_loop max_retries deadline timeout_ms rounds (max_retries + 1) 0) =
        rw add-one (retry_loop-Ended max_retries 0 (omega arith)) in
      let (r, e, (few, slept, early)) = Ended-some deadline (suc max_retries) _ ended in
      (r, e, omega arith, slept, early)
