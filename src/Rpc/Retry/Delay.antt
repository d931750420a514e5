-- ===== src/Rpc/Retry/Delay.antt =====
-- src/rpc/retry.rs, `retry_delay`: the delay between attempts.
use native.Mathlib.Nat.{mul-lt-mul_of_pos_right, div-lt_iff_lt-mul, pow-suc}
use soroban_cost_estimator.Prelude.{
  ℕ, zero, suc, ◌*◌, ◌^◌, ◌≤◌, ◌<◌, ◌≡◌, refl, Option, none, some, arith, min,
}
use soroban_cost_estimator.Error.{Externals, AppError, http_status}
use soroban_cost_estimator.Rpc.Retry.{ms, random_below, exponential, backoff, retry_delay}

random_below-lt : (seed n : ℕ) → seed < 1000000000 → 0 < n → random_below seed n < n
unfolding random_below
random_below-lt seed n hs hn =
    let p : seed * n < n * 1000000000 = grind (arith, mul-lt-mul_of_pos_right {k = n} hs hn) in
    ground (arith, (div-lt_iff_lt-mul {k = 1000000000} {x = seed * n} {y = n} (omega arith)).1 p)

-- The server's `Retry-After` hint of an error, if it carries one.
abbrev pub hint : {x : Externals} → AppError x → Option ℕ
hint (http_status status retry_after message) = retry_after
hint _ = none

pow-pos : (k : ℕ) → 0 < 2 ^ k
pow-pos zero = omega arith
pow-pos (suc k) = rw pow-suc (omega (arith, pow-pos k))

-- The window of a delay: the hint up to the limit, or from one step of the backoff (up to the
-- limit) to below two steps, within the limit.
abbrev pub InWindow : Option ℕ → ℕ → ℕ → Type 0
InWindow (some d) step delay = delay ≡ min d (ms 60000)
InWindow none step delay = (min step (ms 60000) ≤ delay) × (delay < 2 * step) × (delay ≤ ms 60000)

backoff-InWindow :
    (seed attempt : ℕ)
    → seed < 1000000000
    → InWindow none (ms 500 * 2 ^ min attempt 16) (backoff seed attempt)
unfolding backoff exponential
backoff-InWindow seed attempt hs =
    let step = ms 500 * 2 ^ min attempt 16 in
    let positive : 0 < step = omega (arith, pow-pos (min attempt 16)) in
    let jitter = random_below-lt seed step hs positive in
    (omega arith, omega (arith, jitter), omega arith)

-- A `Retry-After` hint of the server is the delay, up to 60 s; without one, after `attempt` failed
-- retries, the delay is at least 500 ms * 2 ^ min(attempt, 16) or 60 s, whichever is less, below twice the
-- former, and at most 60 s, whatever the jitter's seed.
pub retry_delay-InWindow :
    {x : Externals} (seed : ℕ) (e : AppError x) (attempt : ℕ)
    → seed < 1000000000
    → InWindow (hint e) (ms 500 * 2 ^ min attempt 16) (retry_delay seed e attempt)
unfolding retry_delay
retry_delay-InWindow seed (http_status status (some d) message) attempt hs = refl
retry_delay-InWindow seed (http_status status none message) attempt hs =
    backoff-InWindow seed attempt hs
retry_delay-InWindow seed _ attempt hs = backoff-InWindow seed attempt hs
