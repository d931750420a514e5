-- ===== src/Rpc/Client/Call.antt =====
-- src/rpc/client.rs, `perform_call`: the two endpoints, their circuits and the deadline. The clock's
-- readings and the answers of the endpoints are arguments.

pub mod Requests
pub mod Failover
pub mod Role
use Prim.Native.String.{String}
use soroban_cost_estimator.Prelude.{
  ℕ, ◌+◌, Bool, true, false, ◌&&◌, ◌||◌, leb, if◌then◌else◌, Option, none, some, List, [],
}
use soroban_cost_estimator.Error.{
  Externals, AppError, http, connect_timeout, http_status, rpc_unavailable, total_timeout, general,
  ok, err, AppResult,
}
use soroban_cost_estimator.Rpc.Breaker.{
  CircuitBreaker, should_reject, record_success, record_failure, record_outcome, open_error,
}
use soroban_cost_estimator.Rpc.Retry.{past}
use soroban_cost_estimator.Rpc.Client.Post.{
  Wire, Post, Posted, RpcClient, post_and_parse, is_gateway_status, timeout_ms_of,
}

-- The surroundings of one call, in the order in which it asks them.
pub record Setting {x : Externals} (w : Wire x) : Type 0 where
  pub started_at : ℕ
  pub checked_at : ℕ
  pub primary : Post w
  pub answered_at : ℕ
  pub decided_at : ℕ
  pub fallback_checked_at : ℕ
  pub fallback : Post w
  pub fallback_answered_at : ℕ

-- What a call leaves: the client, its answer, and the requests sent to the endpoints that it
-- contacts.
pub record Called (x : Externals) : Type 0 where
  pub after : RpcClient
  pub answer : AppResult x x.Json
  pub to_primary : Option (List ℕ)
  pub to_fallback : Option (List ℕ)

-- A circuit that is not configured admits every call.
abbrev pub check : ℕ → Option CircuitBreaker → Option CircuitBreaker × Bool
check now none = (none, false)
check now (some cb) = let (checked, reject) = should_reject now cb in (some checked, reject)

-- What a request stores in `last_attempt_count`, if anything, or else what is there.
abbrev pub stored_or : ℕ → Option ℕ → ℕ
stored_or old none = old
stored_or old (some n) = n

module _ {x : Externals} where
  unfoldable pub is_failover_trigger : AppError x → Bool
  is_failover_trigger (http e) = x.is_connect e || x.is_timeout e || x.is_request e
  is_failover_trigger (connect_timeout seconds source) = true
  is_failover_trigger (rpc_unavailable status) = true
  is_failover_trigger (http_status status retry_after message) = is_gateway_status status
  is_failover_trigger _ = false

  abbrev pub noted : ℕ → AppResult x x.Json → Option CircuitBreaker → Option CircuitBreaker
  noted now answer none = none
  noted now answer (some cb) = some (record_outcome now answer cb)

  -- `cb.open_error()`, which is asked of a circuit that rejects.
  abbrev rejection : Option CircuitBreaker → AppError x
  rejection none = general ""
  rejection (some cb) = open_error cb

  abbrev pub after_fallback : ℕ → List ℕ → RpcClient → Option (Posted x) → Option (Called x)
  after_fallback now sent c none = none
  after_fallback now sent c (some p) = some (record {
    after = record c {
      last_attempt_count = stored_or c.last_attempt_count p.counter;
      circuit_fallback = noted now p.answer c.circuit_fallback;
    };
    answer = p.answer;
    to_primary = some sent;
    to_fallback = some p.requests;
  })

abbrev pub deadline_of : ℕ → Option ℕ → Option ℕ
deadline_of now none = none
deadline_of now (some t) = some (now + t)

module _ {x : Externals} (w : Wire x) (s : Setting w) where
  abbrev stays : RpcClient → AppResult x x.Json → List ℕ → Option (Called x)
  stays c answer sent =
      some (record { after = c; answer = answer; to_primary = some sent; to_fallback = none })

  -- Behind the fallback's URL.
  unfoldable pub try_fallback : Option ℕ → RpcClient → AppError x → List ℕ → Option (Called x)
  try_fallback deadline c e sent =
      let (checked, reject) = check s.fallback_checked_at c.circuit_fallback in
      let next = record c { circuit_fallback = checked } in
      let used = record next { fallback_used = true } in
      if reject
      then stays next (err e) sent
      else after_fallback s.fallback_answered_at sent used
          (post_and_parse w used deadline s.fallback)

  abbrev with_fallback :
      Option ℕ → RpcClient → AppError x → List ℕ → Option String → Option (Called x)
  with_fallback deadline c e sent none = stays c (err e) sent
  with_fallback deadline c e sent (some fallback) = try_fallback deadline c e sent

  unfoldable pub fail_over : Option ℕ → RpcClient → AppError x → List ℕ → Option (Called x)
  unfolding try_fallback
  fail_over deadline c e sent =
      if past deadline s.decided_at
      then stays c (err (total_timeout (timeout_ms_of c.total_timeout))) sent
      else with_fallback deadline c e sent c.fallback_url

  unfoldable pub settle_primary :
      Option ℕ → RpcClient → AppResult x x.Json → List ℕ → Option (Called x)
  unfolding fail_over is_failover_trigger
  settle_primary deadline c (ok result) sent = stays c (ok result) sent
  settle_primary deadline c (err e) sent =
      if is_failover_trigger e then fail_over deadline c e sent else stays c (err e) sent

  abbrev after_primary : Option ℕ → RpcClient → Option (Posted x) → Option (Called x)
  after_primary deadline c none = none
  after_primary deadline c (some p) =
      settle_primary deadline
        (record c {
          last_attempt_count = stored_or c.last_attempt_count p.counter;
          circuit_primary = noted s.answered_at p.answer c.circuit_primary;
        })
        p.answer p.requests

  unfoldable pub perform_call : RpcClient → Option (Called x)
  unfolding settle_primary
  perform_call c =
      let deadline = deadline_of s.started_at c.total_timeout in
      let (checked, reject) = check s.checked_at c.circuit_primary in
      let next = record c { circuit_primary = checked } in
      if reject
      then some (record {
        after = next;
        answer = err (rejection {x = x} checked);
        to_primary = none;
        to_fallback = none;
      })
      else after_primary deadline next (post_and_parse w next deadline s.primary)
