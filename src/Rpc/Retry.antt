-- ===== src/Rpc/Retry.antt =====
-- src/rpc/retry.rs. Instants and durations are nanoseconds. What the awaited operation, the clock
-- and the jitter's seed answer in each round is an argument; the log to stderr and the
-- sleep until the deadline in front of a timeout are left out.
pub mod Delay
pub mod Loop
pub mod Answer
use Prim.Native.String.{String}
use soroban_cost_estimator.Prelude.{
  ℕ, zero, suc, ◌+◌, ◌-◌, ◌*◌, ◌/◌, ◌^◌, Bool, true, false, ◌||◌, ◌&&◌, not, leb, ◌==◌,
  if◌then◌else◌, Option, none, some, List, [], ◌∷◌, min,
}
use soroban_cost_estimator.Prelude.Int.{ℤ, pos, negsuc, leb_ℤ, eq_ℤ}
use soroban_cost_estimator.Prelude.Machine.{u64_max}
use soroban_cost_estimator.Error.{
  Externals, AppError, http, http_status, rpc_unavailable, connect_timeout, rpc, total_timeout,
  Result, ok, err, AppResult,
}

abbrev pub default_max_retries : ℕ
default_max_retries = 3

abbrev pub ms : ℕ → ℕ
ms n = n * 1000000

-- 500 ms and 60 s
abbrev pub base_retry_delay : ℕ
base_retry_delay = ms 500

abbrev pub max_retry_delay : ℕ
max_retry_delay = ms 60000

-- `TRANSIENT_STATUSES.contains(status)`
unfoldable pub is_transient : ℕ → Bool
is_transient status =
    status == 429 || status == 500 || status == 502 || status == 503 || status == 504

-- The seed is the clock's sub-second part, below 10 ^ 9.
unfoldable pub random_below : (seed : ℕ) → (bound : ℕ) → ℕ
random_below seed bound = if bound == 0 then 0 else min (seed * bound / 1000000000) u64_max

-- `500ms.saturating_mul(1 << attempt.min(16))`, at most 32768 s, so it does not saturate
unfoldable pub exponential : ℕ → ℕ
exponential attempt = base_retry_delay * 2 ^ min attempt 16

unfoldable pub backoff : ℕ → ℕ → ℕ
backoff seed attempt =
    min (exponential attempt + random_below seed (exponential attempt)) max_retry_delay

unfoldable pub is_retryable_code : ℤ → Bool
is_retryable_code code =
    eq_ℤ code (negsuc 32602) || (leb_ℤ (negsuc 32098) code && leb_ℤ code (negsuc 31999))

-- What an `Option<bool>` says, or else the second.
abbrev or_else : Option Bool → Bool → Bool
or_else (some b) c = b
or_else none c = c

module _ (x : Externals) where
  abbrev retryable_field : Option x.Json → Option Bool
  retryable_field none = none
  retryable_field (some details) = x.bool_field details "retryable"

  unfoldable pub is_retryable_rpc_error : ℤ → Option x.Json → Bool
  unfolding is_retryable_code
  is_retryable_rpc_error code details = or_else (retryable_field details) (is_retryable_code code)

module _ {x : Externals} where
  unfoldable pub is_retryable : AppError x → Bool
  unfolding is_transient is_retryable_rpc_error
  is_retryable (http e) = x.is_connect e || x.is_timeout e || x.is_request e
  is_retryable (http_status status retry_after message) = is_transient status
  is_retryable (rpc_unavailable status) = true
  is_retryable (connect_timeout seconds source) = true
  is_retryable (rpc status message details) = is_retryable_rpc_error x status details
  is_retryable _ = false

  unfoldable pub retry_delay : (seed : ℕ) → AppError x → (attempt : ℕ) → ℕ
  retry_delay seed (http_status status (some delay) message) attempt = min delay max_retry_delay
  retry_delay seed (http_status status none message) attempt = backoff seed attempt
  retry_delay seed _ attempt = backoff seed attempt

  abbrev is_total_timeout : AppError x → Bool
  is_total_timeout (total_timeout timeout_ms) = true
  is_total_timeout _ = false

-- What the surroundings answer in one round of the loop: the clock at its head, the operation's
-- outcome (`none` if `timeout_at` fires first, which it does only under a deadline), the seed, and
-- the clock when the delay is compared with the deadline.
pub record Round (x : Externals) (A : Type 0) : Type 0 where
  pub started_at : ℕ
  pub outcome : Option (AppResult x A)
  pub seed : ℕ
  pub failed_at : ℕ

-- What the loop has done: its answer, the instants at which the operation was started, and the
-- delays slept between attempts, and what it stored last in `attempt_counter`, if anything.
pub record Retried (x : Externals) (A : Type 0) : Type 0 where
  pub answer : AppResult x A
  pub starts : List ℕ
  pub delays : List ℕ
  pub counter : Option ℕ

-- `(attempts + 1).min(u8::MAX)`
abbrev pub counted : ℕ → ℕ
counted attempts = min (attempts + 1) 255

-- The last value stored, where this attempt stored its own before the later ones.
abbrev pub stored : ℕ → Option ℕ → Option ℕ
stored attempts none = some (counted attempts)
stored attempts (some n) = some n

-- The clock has reached the deadline.
abbrev pub past : Option ℕ → ℕ → Bool
past none now = false
past (some d) now = leb d now

-- `delay >= remaining`, or the deadline is past
abbrev pub reaches : Option ℕ → ℕ → ℕ → Bool
reaches none now delay = false
reaches (some d) now delay = leb (d - now) delay

module _ {x : Externals} {A : Type 0} (max_retries : ℕ) (deadline : Option ℕ) (timeout_ms : ℕ)
    (rounds : ℕ → Round x A) where
  abbrev timed_out : AppResult x A
  timed_out = err (total_timeout timeout_ms)

  abbrev stop : Option ℕ → Round x A → AppResult x A → Option (Retried x A)
  stop counter round answer =
      some
        (record { answer = answer; starts = round.started_at ∷ []; delays = []; counter = counter })

  abbrev again : ℕ → Round x A → ℕ → Option (Retried x A) → Option (Retried x A)
  again attempts round delay none = none
  again attempts round delay (some rest) = some (record {
    answer = rest.answer;
    starts = round.started_at ∷ rest.starts;
    delays = delay ∷ rest.delays;
    counter = stored attempts rest.counter;
  })

  -- The `match attempt_result`; `rest` is what the next round gives.
  unfoldable pub settle :
      ℕ → Round x A → Option (AppResult x A) → Option (Retried x A) → Option (Retried x A)
  settle attempts round none rest = stop none round timed_out
  settle attempts round (some (ok value)) rest = stop (some (counted attempts)) round (ok value)
  settle attempts round (some (err e)) rest =
      if is_total_timeout e || leb max_retries attempts || not (is_retryable e)
      then stop (some (counted attempts)) round (err e)
      else (let delay = retry_delay round.seed e attempts in
          if reaches deadline round.failed_at delay
          then stop (some (counted attempts)) round timed_out
          else again attempts round delay rest)

  unfoldable pub retry_loop : ℕ → ℕ → Option (Retried x A)
  retry_loop zero attempts = none
  retry_loop (suc fuel) attempts =
      let round = rounds attempts in
      let rest = retry_loop fuel (attempts + 1) in
      if past deadline round.started_at
      then some (record { answer = timed_out; starts = []; delays = []; counter = none })
      else settle attempts round round.outcome rest

  -- `with_retry_deadline`: a round for each attempt.
  unfoldable pub with_retry_deadline : Option (Retried x A)
  with_retry_deadline = retry_loop (max_retries + 1) 0

-- No deadline, so no timeout; the counter is not kept.
unfoldable pub with_retry :
    {x : Externals} {A : Type 0} → ℕ → (ℕ → Round x A) → Option (Retried x A)
unfolding with_retry_deadline
with_retry max_retries rounds = with_retry_deadline max_retries none 0 rounds
