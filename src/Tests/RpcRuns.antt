-- ===== src/Tests/RpcRuns.antt =====
-- The theorems on the circuit breaker and on retries, at concrete calls.
use soroban_cost_estimator.Prelude.{
  ℕ, ◌*◌, ◌+◌, ◌-◌, ◌^◌, ◌≤◌, ◌<◌, ◌≡◌, refl, inr, arith, Bool, true, none, some, [], ◌∷◌,
  if◌then◌else◌, All, any, leb, ◌==◌, length, replicate, min,
}
use soroban_cost_estimator.Error.{AppError, rpc_unavailable, http_status, ok, err, AppResult}
use soroban_cost_estimator.Rpc.Breaker.{
  CircuitBreakerConfig, CircuitBreaker, closed, opened, half_open, new, in_state, record_failure,
  is_transport_failure, open_error, Attempt, call, calls,
}
use soroban_cost_estimator.Rpc.Breaker.Invariant.{checks, fails, run, IsSound, run-IsSound}
use soroban_cost_estimator.Rpc.Breaker.Trip.{
  record_all, transport_count, opens_at_threshold, Failures,
}
use soroban_cost_estimator.Rpc.Breaker.Probe.{poll, single_probe, application_error_locks}
use soroban_cost_estimator.Rpc.Retry.{
  Round, Retried, retry_delay, with_retry_deadline, is_retryable, ms,
}
use soroban_cost_estimator.Rpc.Retry.Delay.{InWindow, hint, retry_delay-InWindow}
use soroban_cost_estimator.Rpc.Retry.Loop.{Before, IsTransient, with_retry_deadline_total}
use soroban_cost_estimator.Rpc.Retry.Answer.{with_retry_deadline-answer}
use soroban_cost_estimator.Tests.Fixtures.{sample}

abbrev two_failures : CircuitBreakerConfig
two_failures = record { failure_threshold = 2; cooldown = 30 }

abbrev breaker : CircuitBreaker
breaker = record {
  inner = record { state = closed; consecutive_failures = 0 };
  config = two_failures;
  label = "testnet";
}

abbrev opened_breaker : CircuitBreaker
opened_breaker = in_state breaker (opened 100) 0

abbrev switched_off : CircuitBreaker
switched_off = record {
  inner = record { state = closed; consecutive_failures = 0 };
  config = record { failure_threshold = 0; cooldown = 0 };
  label = "testnet";
}

abbrev unavailable : AppError sample
unavailable = rpc_unavailable 503

abbrev rejected : AppError sample
rejected = http_status 429 none "slow down"

abbrev overload : Failures sample
overload = (10, rejected) ∷ (11, unavailable) ∷ []

abbrev attempt : AppResult sample Bool → Attempt sample
attempt o = record { checked_at = 130; outcome = o; answered_at = 140 }

run-IsSound_example : IsSound two_failures (
    run (fails 10 unavailable ∷ checks 11 ∷ fails 12 unavailable ∷ []) (new two_failures "testnet"))
run-IsSound_example =
    run-IsSound {x = sample} two_failures "testnet"
      (fails 10 unavailable ∷ checks 11 ∷ fails 12 unavailable ∷ [])

opens_at_threshold_example : record_failure 20 unavailable (record_all overload breaker) ≡ (
    if transport_count overload + 1 == 2
    then in_state breaker (opened 20) 0
    else in_state breaker closed (transport_count overload + 1))
unfolding is_transport_failure
opens_at_threshold_example =
    opens_at_threshold breaker overload 20 unavailable refl refl (omega arith) refl

single_probe_example :
    (poll (110 ∷ 130 ∷ 131 ∷ 200 ∷ []) opened_breaker).1
    ≡ (if any (λ now. leb 30 (now - 100)) (110 ∷ 130 ∷ 131 ∷ 200 ∷ []) then 1 else 0)
single_probe_example =
    single_probe opened_breaker 100 (110 ∷ 130 ∷ 131 ∷ 200 ∷ []) (omega arith) refl

application_error_locks_example :
    let locked = in_state opened_breaker half_open 0 in
    calls (attempt (ok true) ∷ []) (call (attempt (err rejected)) opened_breaker).0
    ≡ (locked, replicate 1 (err (open_error locked)))
unfolding is_transport_failure
application_error_locks_example =
    application_error_locks opened_breaker 100 (attempt (err rejected)) rejected
      (attempt (ok true) ∷ []) (omega arith) refl (omega arith) refl refl

retry_delay-InWindow_example :
    InWindow (hint unavailable) (ms 500 * 2 ^ min 3 16) (retry_delay 999999999 unavailable 3)
retry_delay-InWindow_example =
    retry_delay-InWindow {x = sample} 999999999 unavailable 3 (omega arith)

-- Every attempt fails with HTTP 503, one second after the other.
abbrev failing : ℕ → Round sample ℕ
failing n = record {
  started_at = ms (1000 * n);
  outcome = some (err unavailable);
  seed = 5;
  failed_at = ms (1000 * n + 100);
}

with_retry_deadline_total_example :
    (r : Retried sample ℕ) × (with_retry_deadline 3 (some (ms 2500)) 2500 failing ≡ some r)
    × (length r.starts ≤ 3 + 1)
    × (length r.delays ≤ length r.starts)
    × All (Before (some (ms 2500))) r.starts
with_retry_deadline_total_example = with_retry_deadline_total 3 (some (ms 2500)) 2500 failing

failing-IsTransient : (j : ℕ) → j < 3 → IsTransient (failing j).outcome
unfolding is_retryable
failing-IsTransient j lt = refl

with_retry_deadline-answer_example :
    (r : Retried sample ℕ) × (with_retry_deadline 3 none 2500 failing ≡ some r)
    × (r.answer ≡ err unavailable)
    × (length r.starts ≡ 3 + 1)
    × (r.counter ≡ some (min (3 + 1) 255))
with_retry_deadline-answer_example =
    with_retry_deadline-answer 3 2500 failing 3 (err unavailable) (omega arith) failing-IsTransient
      refl (inr refl)
