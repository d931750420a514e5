-- ===== src/Rpc/Retry/Answer.antt =====
-- src/rpc/retry.rs, `with_retry_deadline` without a deadline: the outcome that it returns.
use mathlib.Core.Path.{subst}
use native.Mathlib.Nat.{add-zero, zero-add}
use native.Mathlib.Numerals.{add-one}
use soroban_cost_estimator.Prelude.{
  ℕ, zero, suc, ◌+◌, ◌≤◌, ◌<◌, ◌≡◌, refl, ◌⊎◌, true, false, Option, none, some, arith, min, length,
  ap, ◌∙◌, sym,
}
use soroban_cost_estimator.Error.{Externals, AppError, ok, err, AppResult}
use soroban_cost_estimator.Rpc.Retry.{
  Round, Retried, is_retryable, settle, retry_loop, with_retry_deadline, is_total_timeout, counted,
}
use soroban_cost_estimator.Rpc.Retry.Loop.{IsTransient}

-- The outcome ends the loop at this attempt: a success, an error that is not retried, or the last
-- attempt allowed.
abbrev pub IsDecisive : {x : Externals} {A : Type 0} → ℕ → ℕ → AppResult x A → Type 0
IsDecisive max_retries attempt (ok v) = Unit
IsDecisive max_retries attempt (err e) = (is_retryable e ≡ false) ⊎ (attempt ≡ max_retries)

-- A run that answers `o` after `n` attempts and leaves `c` in the counter.
abbrev Answers :
    {x : Externals} {A : Type 0} → AppResult x A → (c n : ℕ) → Option (Retried x A) → Type 0
Answers o c n none = ⊥
Answers o c n (some r) = (r.answer ≡ o) × (length r.starts ≡ n) × (r.counter ≡ some c)

not-total_timeout :
    {x : Externals} (e : AppError x) → is_retryable e ≡ true → is_total_timeout e ≡ false
unfolding is_retryable
not-total_timeout e h = ground arith

error_of :
    {x : Externals} {A : Type 0} (o : Option (AppResult x A))
    → IsTransient o
    → (e : AppError x) × (o ≡ some (err e)) × (is_retryable e ≡ true)
error_of none h = absurd h
error_of (some (ok v)) h = absurd h
error_of (some (err e)) h = (e, refl, h)

Answers-some :
    {x : Externals} {A : Type 0} (o : AppResult x A) (c n : ℕ) (found : Option (Retried x A))
    → Answers o c n found
    → (r : Retried x A) × (found ≡ some r) × Answers o c n (some r)
Answers-some o c n none h = absurd h
Answers-some o c n (some r) h = (r, refl, h)

shift : (k n : ℕ) → k + suc n ≡ k + 1 + n
shift k n = omega arith

module _ {x : Externals} {A : Type 0} (max_retries timeout_ms : ℕ) (rounds : ℕ → Round x A) where
  abbrev settled : ℕ → Option (AppResult x A) → Option (Retried x A) → Option (Retried x A)
  settled attempts = settle max_retries none timeout_ms rounds attempts (rounds attempts)

  abbrev loop : ℕ → ℕ → Option (Retried x A)
  loop = retry_loop max_retries none timeout_ms rounds

  loop_step :
      (fuel attempts : ℕ)
      → loop (suc fuel) attempts
        ≡ settled attempts (rounds attempts).outcome (loop fuel (attempts + 1))
  unfolding retry_loop
  loop_step fuel attempts = refl

  settle-decisive :
      (attempts : ℕ) (o : AppResult x A) (rest : Option (Retried x A))
      → IsDecisive max_retries attempts o
      → Answers o (counted attempts) 1 (settled attempts (some o) rest)
  unfolding settle
  settle-decisive attempts (ok v) rest h = (refl, refl, refl)
  settle-decisive attempts (err e) rest h = ground arith

  settle-transient :
      (attempts c n : ℕ) (o : AppResult x A) (e : AppError x) (rest : Option (Retried x A))
      → attempts < max_retries
      → is_retryable e ≡ true
      → Answers o c n rest
      → Answers o c (suc n) (settled attempts (some (err e)) rest)
  unfolding settle
  settle-transient attempts c n o e rest h he hr = ground (arith, not-total_timeout e he)

  loop-Answers :
      (i fuel attempts : ℕ) (o : AppResult x A)
      → attempts + fuel ≡ max_retries
      → i ≤ fuel
      → ((j : ℕ) → j < i → IsTransient (rounds (attempts + j)).outcome)
      → (rounds (attempts + i)).outcome ≡ some o
      → IsDecisive max_retries (attempts + i) o
      → Answers o
          (counted (attempts + i))
          (suc i)
          (retry_loop max_retries none timeout_ms rounds (suc fuel) attempts)
  unfolding settle
  loop-Answers zero fuel attempts o h hi before at dec =
      let rest = loop fuel (attempts + 1) in
      let here : (rounds attempts).outcome ≡ some o =
        ap (λ (k : ℕ). (rounds k).outcome) (sym (add-zero attempts)) ∙ at in
      rw (loop_step fuel attempts, here, add-zero)
        (settle-decisive attempts o rest (rw add-zero at dec))
  loop-Answers (suc i) zero attempts o h hi before at dec = absurd (omega arith)
  loop-Answers (suc i) (suc fuel) attempts o h hi before at dec =
      let rest = loop (suc fuel) (attempts + 1) in
      let (e, failed, again) =
        error_of (rounds attempts).outcome (rw add-zero at (before 0 (omega arith))) in
      let later =
        loop-Answers i fuel (attempts + 1) o (omega arith) (omega arith)
          (λ j lt.
            subst (λ (k : ℕ). IsTransient (rounds k).outcome) (shift attempts j)
              (before (suc j) (omega arith)))
          (ap (λ (k : ℕ). (rounds k).outcome) (sym (shift attempts i)) ∙ at)
          (subst (λ (k : ℕ). IsDecisive max_retries k o) (shift attempts i) dec) in
      rw (loop_step (suc fuel) attempts, failed)
        (settle-transient attempts (counted (attempts + suc i)) (suc i) o e rest (omega arith) again
          (rw (sym (shift attempts i)) at later))

  -- With no deadline: if an attempt within the retries allowed is decisive (it succeeds, or its error is
  -- not retryable, or it is the last one allowed) and every attempt before it failed with a
  -- retryable error, then its outcome is the answer, after exactly that many attempts,
  -- and the attempt counter holds their number, or 255 if there are more.
  pub with_retry_deadline-answer :
      (k : ℕ) (o : AppResult x A)
      → k ≤ max_retries
      → ((j : ℕ) → j < k → IsTransient (rounds j).outcome)
      → (rounds k).outcome ≡ some o
      → IsDecisive max_retries k o
      → (r : Retried x A) × (with_retry_deadline max_retries none timeout_ms rounds ≡ some r)
        × (r.answer ≡ o)
        × (length r.starts ≡ k + 1)
        × (r.counter ≡ some (min (k + 1) 255))
  unfolding with_retry_deadline
  with_retry_deadline-answer k o hk before at dec =
      let answers =
        loop-Answers k max_retries 0 o (omega arith) hk (λ j lt. rw zero-add (before j lt))
          (rw zero-add at) (rw zero-add dec) in
      let (r, e, (answer, count, counter)) = Answers-some o (counted (0 + k)) (suc k) _ answers in
      (r, rw add-one e, answer, omega arith, rw zero-add at counter)
