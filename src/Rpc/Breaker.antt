-- ===== src/Rpc/Breaker.antt =====
-- src/rpc/circuit_breaker.rs. The lock makes each method one atomic step on the breaker, which is
-- passed and returned here; clones share it. Instants and durations are nanoseconds of the
-- monotonic clock, whose reading is an argument of the methods that take one. The debug logs are
-- left out.
pub mod Invariant
pub mod Probe
pub mod Trip
use Prim.Native.String.{String}
use soroban_cost_estimator.Prelude.{
  ℕ, zero, suc, ◌+◌, ◌-◌, Bool, true, false, ◌||◌, ◌&&◌, leb, ◌==◌, if◌then◌else◌, Option, none,
  some, List, [], ◌∷◌,
}
use soroban_cost_estimator.Text.{◌<>◌}
use soroban_cost_estimator.Error.{
  Externals, AppError, http, connect_timeout, rpc_unavailable, http_status, general, Result, ok,
  err, AppResult,
}

pub record CircuitBreakerConfig : Type 0 where
  pub failure_threshold : ℕ
  pub cooldown : ℕ

-- `CircuitBreakerConfig::default`
abbrev pub default_config : CircuitBreakerConfig
default_config = record { failure_threshold = 0; cooldown = 0 }

pub data CircuitState : Type 0 where
  closed : CircuitState
  opened : (opened_at : ℕ) → CircuitState
  half_open : CircuitState

pub record Inner : Type 0 where
  pub state : CircuitState
  pub consecutive_failures : ℕ

abbrev pub new_inner : Inner
new_inner = record { state = closed; consecutive_failures = 0 }

pub record CircuitBreaker : Type 0 where
  pub inner : Inner
  pub open inner use *
  pub config : CircuitBreakerConfig
  pub open config use *
  pub label : String

unfoldable pub new : CircuitBreakerConfig → String → CircuitBreaker
new config label = record { inner = new_inner; config = config; label = label }

unfoldable pub disabled : CircuitBreaker
unfolding new
disabled = new default_config "endpoint"

abbrev pub in_state : CircuitBreaker → CircuitState → ℕ → CircuitBreaker
in_state cb s n = record cb { inner = record { state = s; consecutive_failures = n } }

-- `now.duration_since(opened_at)` is zero for an earlier `now`, as `-` on ℕ is.
unfoldable pub admit : CircuitState → ℕ → CircuitBreaker → CircuitBreaker × Bool
admit closed now cb = (cb, false)
admit half_open now cb = (cb, true)
admit (opened opened_at) now cb =
    if leb cb.cooldown (now - opened_at)
    then (in_state cb half_open cb.consecutive_failures, false)
    else (cb, true)

unfoldable pub should_reject : ℕ → CircuitBreaker → CircuitBreaker × Bool
unfolding admit
should_reject now cb = if cb.failure_threshold == 0 then (cb, false) else admit cb.state now cb

unfoldable pub record_success : CircuitBreaker → CircuitBreaker
record_success cb = if cb.failure_threshold == 0 then cb else in_state cb closed 0

-- A failure outside the half-open state counts, and opens the circuit at the threshold.
unfoldable pub count_failure : ℕ → CircuitBreaker → CircuitBreaker
count_failure now cb =
    let failures = cb.consecutive_failures + 1 in
    if leb cb.failure_threshold failures
    then in_state cb (opened now) 0
    else in_state cb cb.state failures

abbrev is_half_open : CircuitState → Bool
is_half_open half_open = true
is_half_open _ = false

-- One call: the clock at the check, what the operation answers if it is made, and the clock when
-- it has answered.
pub record Attempt (x : Externals) : Type 0 where
  pub checked_at : ℕ
  pub outcome : AppResult x x.Json
  pub answered_at : ℕ

module _ {x : Externals} where
  unfoldable pub is_transport_failure : AppError x → Bool
  is_transport_failure (http e) = x.is_connect e || x.is_timeout e || x.is_request e
  is_transport_failure (connect_timeout seconds source) = true
  is_transport_failure (rpc_unavailable status) = true
  is_transport_failure (http_status status retry_after message) = leb 502 status && leb status 504
  is_transport_failure _ = false

  unfoldable pub record_failure : ℕ → AppError x → CircuitBreaker → CircuitBreaker
  unfolding count_failure
  record_failure now error cb =
      if cb.failure_threshold == 0
      then cb
      else if is_transport_failure error
      then (if is_half_open cb.state then in_state cb (opened now) 0 else count_failure now cb)
      else cb

  unfoldable pub open_error : CircuitBreaker → AppError x
  open_error cb = general (
      "circuit breaker open for " <> cb.label
      <> " endpoint: too many consecutive transport failures")

  abbrev pub record_outcome : ℕ → AppResult x x.Json → CircuitBreaker → CircuitBreaker
  record_outcome now (ok value) cb = record_success cb
  record_outcome now (err e) cb = record_failure now e cb

  unfoldable pub call : Attempt x → CircuitBreaker → CircuitBreaker × AppResult x x.Json
  call a cb =
      let (checked, reject) = should_reject a.checked_at cb in
      if reject
      then (checked, err (open_error checked))
      else (record_outcome a.answered_at a.outcome checked, a.outcome)

  -- A sequence of calls: the breaker that they leave, and their answers.
  unfoldable pub calls :
      List (Attempt x) → CircuitBreaker → CircuitBreaker × List (AppResult x x.Json)
  calls [] cb = (cb, [])
  calls (a ∷ as_) cb =
      let (next, answer) = call a cb in
      let (last, answers) = calls as_ next in (last, answer ∷ answers)
