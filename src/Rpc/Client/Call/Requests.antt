-- ===== src/Rpc/Client/Call/Requests.antt =====
-- src/rpc/client.rs, `perform_call`: its end, and how many requests it sends.
use Prim.Native.String.{String}
use soroban_cost_estimator.Prelude.{
  ℕ, ◌+◌, ◌≤◌, ◌≡◌, refl, true, Option, none, some, List, [], arith, length, All, inl, inr,
  Bool-cases,
}
use soroban_cost_estimator.Error.{Externals, AppError, ok, err, AppResult}
use soroban_cost_estimator.Rpc.Retry.{past}
use soroban_cost_estimator.Rpc.Retry.Loop.{Before}
use soroban_cost_estimator.Rpc.Client.Post.{Wire, RpcClient, Posted}
use soroban_cost_estimator.Rpc.Client.Post.Ends.{Bounded, post_and_parse-Bounded}
use soroban_cost_estimator.Rpc.Client.Call.{
  Setting, Called, perform_call, settle_primary, fail_over, try_fallback, check, deadline_of,
  after_fallback, after_primary, stays, with_fallback, noted, stored_or, is_failover_trigger,
}

-- The instants at which requests to an endpoint were started; it may not have been contacted.
abbrev pub sent : Option (List ℕ) → List ℕ
sent none = []
sent (some requests) = requests

-- At most `n` requests to each endpoint, each started before the deadline.
pub record Limited {x : Externals} (deadline : Option ℕ) (n : ℕ) (r : Called x) : Type 0 where
  pub primary_few : length (sent r.to_primary) ≤ n
  pub fallback_few : length (sent r.to_fallback) ≤ n
  pub primary_early : All (Before deadline) (sent r.to_primary)
  pub fallback_early : All (Before deadline) (sent r.to_fallback)

-- A call that has returned, within the limits.
abbrev pub Returns : {x : Externals} → Option ℕ → ℕ → Option (Called x) → Type 0
Returns deadline n none = ⊥
Returns deadline n (some r) = Limited deadline n r

returned :
    {x : Externals} (deadline : Option ℕ) (n : ℕ) (o : Option (Called x))
    → Returns deadline n o
    → (r : Called x) × (o ≡ some r) × Limited deadline n r
returned deadline n none h = absurd h
returned deadline n (some r) h = (r, refl, h)

module _ {x : Externals} (w : Wire x) (s : Setting w) (deadline : Option ℕ) where
  after_fallback-Returns :
      (c : RpcClient) (p : Posted x) (requests : List ℕ) (n : ℕ)
      → length requests ≤ n
      → All (Before deadline) requests
      → Bounded deadline n p
      → Returns deadline n (after_fallback s.fallback_answered_at requests c (some p))
  after_fallback-Returns c p requests n few early h = record {
    primary_few = few;
    fallback_few = h.few;
    primary_early = early;
    fallback_early = h.early;
  }

  -- The client that contacts the fallback.
  abbrev contacting : RpcClient → RpcClient
  contacting c = record c {
    circuit_fallback = (check s.fallback_checked_at c.circuit_fallback).0;
    fallback_used = true;
  }

  abbrev checked : RpcClient → RpcClient
  checked c = record c { circuit_fallback = (check s.fallback_checked_at c.circuit_fallback).0 }

  stays-Returns :
      (c : RpcClient) (answer : AppResult x x.Json) (requests : List ℕ) (n : ℕ)
      → length requests ≤ n
      → All (Before deadline) requests
      → Returns deadline n (stays w s c answer requests)
  stays-Returns c answer requests n few early = record {
    primary_few = few;
    fallback_few = omega arith;
    primary_early = early;
    fallback_early = tt;
  }

  try_fallback-Returns :
      (c : RpcClient) (e : AppError x) (requests : List ℕ)
      → length requests ≤ c.max_retries + 1
      → All (Before deadline) requests
      → Returns deadline (c.max_retries + 1) (try_fallback w s deadline c e requests)
  unfolding try_fallback
  try_fallback-Returns c e requests few early =
      let (p, made, h) = post_and_parse-Bounded w (contacting c) deadline s.fallback in
      elim (Bool-cases (check s.fallback_checked_at c.circuit_fallback).1) [
        | inl rejects ↦
            rw rejects (stays-Returns (checked c) (err e) requests (c.max_retries + 1) few early)
        | inr admits ↦
            rw (admits, made)
              (after_fallback-Returns (contacting c) p requests (c.max_retries + 1) few early h)
      ]

  with_fallback-Returns :
      (c : RpcClient) (e : AppError x) (requests : List ℕ) (url : Option String)
      → length requests ≤ c.max_retries + 1
      → All (Before deadline) requests
      → Returns deadline (c.max_retries + 1) (with_fallback w s deadline c e requests url)
  with_fallback-Returns c e requests none few early = stays-Returns c (err e) requests _ few early
  with_fallback-Returns c e requests (some url) few early =
      try_fallback-Returns c e requests few early

  fail_over-Returns :
      (c : RpcClient) (e : AppError x) (requests : List ℕ)
      → length requests ≤ c.max_retries + 1
      → All (Before deadline) requests
      → Returns deadline (c.max_retries + 1) (fail_over w s deadline c e requests)
  unfolding fail_over
  fail_over-Returns c e requests few early = elim (Bool-cases (past deadline s.decided_at)) [
    | inl late ↦ rw late (stays-Returns c _ requests _ few early)
    | inr early_enough ↦
        rw early_enough (with_fallback-Returns c e requests c.fallback_url few early)
  ]

  settle_primary-Returns :
      (c : RpcClient) (answer : AppResult x x.Json) (requests : List ℕ)
      → length requests ≤ c.max_retries + 1
      → All (Before deadline) requests
      → Returns deadline (c.max_retries + 1) (settle_primary w s deadline c answer requests)
  unfolding settle_primary
  settle_primary-Returns c (ok result) requests few early = stays-Returns c _ requests _ few early
  settle_primary-Returns c (err e) requests few early = elim (Bool-cases (is_failover_trigger e)) [
    | inl trigger ↦ rw trigger (fail_over-Returns c e requests few early)
    | inr final ↦ rw final (stays-Returns c (err e) requests _ few early)
  ]

  after_primary-Returns :
      (c : RpcClient) (p : Posted x)
      → Bounded deadline (c.max_retries + 1) p
      → Returns deadline (c.max_retries + 1) (after_primary w s deadline c (some p))
  after_primary-Returns c p h =
      settle_primary-Returns
        (record c {
          last_attempt_count = stored_or c.last_attempt_count p.counter;
          circuit_primary = noted s.answered_at p.answer c.circuit_primary;
        })
        p.answer p.requests h.few h.early

-- A call always returns. It starts at most one request more than the retries allowed to each of the
-- two endpoints, and starts none at or behind the deadline that the total timeout sets.
pub perform_call-Limited :
    {x : Externals} (w : Wire x) (s : Setting w) (c : RpcClient)
    → (r : Called x) × (perform_call w s c ≡ some r)
      × Limited (deadline_of s.started_at c.total_timeout) (c.max_retries + 1) r
unfolding perform_call
perform_call-Limited {x} w s c =
    let deadline = deadline_of s.started_at c.total_timeout in
    let next = record c { circuit_primary = (check s.checked_at c.circuit_primary).0 } in
    let (p, made, h) = post_and_parse-Bounded w next deadline s.primary in
    elim (Bool-cases (check s.checked_at c.circuit_primary).1) [
      | inl rejects ↦ rw rejects (
        _,
        refl,
        record {
          primary_few = omega arith;
          fallback_few = omega arith;
          primary_early = tt;
          fallback_early = tt;
        },
      )
      | inr admits ↦
          rw (admits, made)
            (returned deadline (c.max_retries + 1) _ (after_primary-Returns w s deadline next p h))
    ]
