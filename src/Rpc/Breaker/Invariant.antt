-- ===== src/Rpc/Breaker/Invariant.antt =====
-- src/rpc/circuit_breaker.rs: interleaved steps of the callers that share a breaker.
use Prim.Native.String.{String}
use soroban_cost_estimator.Prelude.{ℕ, ◌<◌, ◌≡◌, refl, ◌⊎◌, inl, inr, false, List, [], ◌∷◌, arith}
use soroban_cost_estimator.Error.{Externals, AppError}
use soroban_cost_estimator.Rpc.Breaker.{
  CircuitBreaker, CircuitBreakerConfig, closed, new, should_reject, record_success, record_failure,
}

-- The steps that any of the clones may make, in any order: overlapping calls interleave them.
pub data Event (x : Externals) : Type 0 where
  checks : (now : ℕ) → Event x
  succeeds : Event x
  fails : (now : ℕ) → AppError x → Event x

unfoldable pub step : {x : Externals} → Event x → CircuitBreaker → CircuitBreaker
step (checks now) cb = (should_reject now cb).0
step succeeds cb = record_success cb
step (fails now e) cb = record_failure now e cb

unfoldable pub run : {x : Externals} → List (Event x) → CircuitBreaker → CircuitBreaker
run [] cb = cb
run (e ∷ es) cb = run es (step e cb)

-- An enabled breaker counts below its threshold; a disabled one is closed with nothing counted.
pub record IsSound (config : CircuitBreakerConfig) (cb : CircuitBreaker) : Type 0 where
  pub same_config : cb.config ≡ config
  pub below : (config.failure_threshold ≡ 0) ⊎ (cb.consecutive_failures < config.failure_threshold)
  pub off : (0 < config.failure_threshold) ⊎ ((cb.state ≡ closed) × (cb.consecutive_failures ≡ 0))

step-IsSound :
    {x : Externals} (config : CircuitBreakerConfig) (e : Event x) (cb : CircuitBreaker)
    → IsSound config cb
    → IsSound config (step e cb)
unfolding step should_reject record_success record_failure
step-IsSound config (checks now) cb h = ground arith
step-IsSound config succeeds cb h = ground arith
step-IsSound config (fails now e) cb h = ground arith

run_from-IsSound :
    {x : Externals} (config : CircuitBreakerConfig) (es : List (Event x)) (cb : CircuitBreaker)
    → IsSound config cb
    → IsSound config (run es cb)
unfolding run
run_from-IsSound config [] cb h = h
run_from-IsSound config (e ∷ es) cb h =
    run_from-IsSound config es (step e cb) (step-IsSound config e cb h)

zero-or-pos : (n : ℕ) → (n ≡ 0) ⊎ (0 < n)
zero-or-pos n = ground arith

new-IsSound : (config : CircuitBreakerConfig) (label : String) → IsSound config (new config label)
unfolding new
new-IsSound config label = elim (zero-or-pos config.failure_threshold) [
  | inl z ↦ record { same_config = refl; below = inl z; off = inr (refl, refl) }
  | inr p ↦ record { same_config = refl; below = inr p; off = inl p }
]

-- After any sequence of checks, successes and failures on a new breaker, by any number of callers
-- in any order, the configuration is the one given, an enabled breaker has counted fewer failures
-- than its threshold, and a disabled one is still closed with none counted.
pub run-IsSound :
    {x : Externals} (config : CircuitBreakerConfig) (label : String) (es : List (Event x))
    → IsSound config (run es (new config label))
run-IsSound config label es =
    run_from-IsSound config es (new config label) (new-IsSound config label)

step-disabled :
    {x : Externals} (cb : CircuitBreaker) (e : Event x) → cb.failure_threshold ≡ 0 → step e cb ≡ cb
unfolding step should_reject record_success record_failure
step-disabled cb (checks now) h = ground arith
step-disabled cb succeeds h = ground arith
step-disabled cb (fails now e) h = ground arith

-- A disabled breaker admits every check and is never changed, whatever its callers record.
pub run-disabled :
    {x : Externals} (cb : CircuitBreaker) (es : List (Event x)) (now : ℕ)
    → cb.failure_threshold ≡ 0
    → (run es cb ≡ cb) × (should_reject now cb ≡ (cb, false))
unfolding run should_reject
run-disabled cb [] now h = (refl, ground arith)
run-disabled cb (e ∷ es) now h = rw (step-disabled cb e h) (run-disabled cb es now h)
