-- ===== src/Rpc/Client/Call/Failover.antt =====
-- src/rpc/client.rs, `perform_call`: when the fallback is contacted, and whose answer is returned.
use Prim.Native.String.{String}
use soroban_cost_estimator.Prelude.{
  ℕ, ◌≡◌, refl, Bool, true, false, ◌&&◌, not, Option, none, some, List, ◌∙◌, inl, inr, Bool-cases,
  if◌then◌else◌,
}
use soroban_cost_estimator.Error.{Externals, AppError, total_timeout, ok, err, AppResult}
use soroban_cost_estimator.Rpc.Breaker.{CircuitBreaker}
use soroban_cost_estimator.Rpc.Retry.{past}
use soroban_cost_estimator.Rpc.Client.Post.{
  Wire, Post, RpcClient, Posted, post_and_parse, timeout_ms_of,
}
use soroban_cost_estimator.Rpc.Client.Post.Ends.{post_and_parse-Bounded}
use soroban_cost_estimator.Rpc.Client.Call.{
  Setting, Called, perform_call, settle_primary, fail_over, try_fallback, check, deadline_of,
  with_fallback, noted, stored_or, is_failover_trigger, rejection,
}

abbrev pub is_some : {A : Type 0} → Option A → Bool
is_some none = false
is_some (some a) = true

-- An answer that the fallback may better.
abbrev pub triggers : {x : Externals} → AppResult x x.Json → Bool
triggers (ok result) = false
triggers (err e) = is_failover_trigger e

abbrev pub rejects : ℕ → Option CircuitBreaker → Bool
rejects now circuit = (check now circuit).1

module _ {x : Externals} where
  -- A call that has returned: whether it contacted the fallback, and its answer.
  abbrev pub Did : (contacts : Bool) → AppResult x x.Json → Option (Called x) → Type 0
  Did contacts answer none = ⊥
  Did contacts answer (some r) = (is_some r.to_fallback ≡ contacts) × (r.answer ≡ answer)

  did :
      (contacts : Bool) (answer : AppResult x x.Json) (o : Option (Called x))
      → Did contacts answer o
      → (r : Called x) × (o ≡ some r) × (is_some r.to_fallback ≡ contacts) × (r.answer ≡ answer)
  did contacts answer none h = absurd h
  did contacts answer (some r) h = (r, refl, h.0, h.1)

module _ {x : Externals} (w : Wire x) (s : Setting w) where
  -- The answer of a call that leaves the fallback alone, if the primary answers this.
  abbrev pub kept : RpcClient → AppResult x x.Json → AppResult x x.Json
  kept c answer =
      if rejects s.checked_at c.circuit_primary
      then err (rejection {x = x} (check s.checked_at c.circuit_primary).0)
      else if triggers answer && past (deadline_of s.started_at c.total_timeout) s.decided_at
      then err (total_timeout (timeout_ms_of c.total_timeout))
      else answer

  module _ (deadline : Option ℕ) (q : Posted x) where
    abbrev Made : RpcClient → Type 0
    Made c = post_and_parse w c deadline s.fallback ≡ some q

    Made-contacting :
        (c : RpcClient)
        → Made c
        → Made (record c {
          circuit_fallback = (check s.fallback_checked_at c.circuit_fallback).0;
          fallback_used = true;
        })
    unfolding post_and_parse
    Made-contacting c h = h

    try_fallback-Did :
        (c : RpcClient) (e : AppError x) (requests : List ℕ)
        → Made c
        → let late = rejects s.fallback_checked_at c.circuit_fallback in
          Did (not late) (if late then err e else q.answer) (try_fallback w s deadline c e requests)
    unfolding try_fallback
    try_fallback-Did c e requests h =
        let made = Made-contacting c h in
        elim (Bool-cases (rejects s.fallback_checked_at c.circuit_fallback)) [
          | inl refused ↦ rw refused (refl, refl)
          | inr admits ↦ rw (admits, made) (refl, refl)
        ]

    -- Whether a trigger leads to the fallback.
    abbrev goes_over : RpcClient → Bool
    goes_over c =
        not (past deadline s.decided_at)
        && (is_some c.fallback_url && not (rejects s.fallback_checked_at c.circuit_fallback))

    abbrev timed : RpcClient → AppResult x x.Json → AppResult x x.Json
    timed c answer =
        if past deadline s.decided_at
        then err (total_timeout (timeout_ms_of c.total_timeout))
        else answer

    with_fallback-Did :
        (c : RpcClient) (e : AppError x) (requests : List ℕ) (url : Option String)
        → Made c
        → let goes = is_some url && not (rejects s.fallback_checked_at c.circuit_fallback) in
          Did goes (if goes then q.answer else err e) (with_fallback w s deadline c e requests url)
    with_fallback-Did c e requests none h = (refl, refl)
    with_fallback-Did c e requests (some url) h =
        let made = try_fallback-Did c e requests h in
        elim (Bool-cases (rejects s.fallback_checked_at c.circuit_fallback)) [
          | inl refused ↦ rw refused (rw refused at made)
          | inr admits ↦ rw admits (rw admits at made)
        ]

    fail_over-Did :
        (c : RpcClient) (e : AppError x) (requests : List ℕ)
        → Made c
        → Did
            (goes_over c)
            (if goes_over c then q.answer else timed c (err e))
            (fail_over w s deadline c e requests)
    unfolding fail_over
    fail_over-Did c e requests h = elim (Bool-cases (past deadline s.decided_at)) [
      | inl late ↦ rw late (refl, refl)
      | inr in_time ↦ rw in_time (with_fallback-Did c e requests c.fallback_url h)
    ]

    abbrev settled : RpcClient → AppResult x x.Json → AppResult x x.Json
    settled c answer =
        if triggers answer && past deadline s.decided_at
        then err (total_timeout (timeout_ms_of c.total_timeout))
        else answer

    settle_primary-Did :
        (c : RpcClient) (answer : AppResult x x.Json) (requests : List ℕ)
        → Made c
        → let goes = triggers answer && goes_over c in
          Did goes
            (if goes then q.answer else settled c answer)
            (settle_primary w s deadline c answer requests)
    unfolding settle_primary
    settle_primary-Did c (ok result) requests h = (refl, refl)
    settle_primary-Did c (err e) requests h = elim (Bool-cases (is_failover_trigger e)) [
      | inl trigger ↦ rw trigger (fail_over-Did c e requests h)
      | inr final ↦ rw final (refl, refl)
    ]

  same_primary :
      (c : RpcClient) (deadline : Option ℕ) (post : Post w)
      → post_and_parse w
          (record c { circuit_primary = (check s.checked_at c.circuit_primary).0 })
          deadline
          post
        ≡ post_and_parse w c deadline post
  unfolding post_and_parse
  same_primary c deadline post = refl

  same_fallback :
      (c : RpcClient) (p : Posted x) (deadline : Option ℕ) (post : Post w)
      → post_and_parse w
          (record c {
            last_attempt_count = stored_or c.last_attempt_count p.counter;
            circuit_primary = noted s.answered_at p.answer (check s.checked_at c.circuit_primary).0;
          })
          deadline
          post
        ≡ post_and_parse w c deadline post
  unfolding post_and_parse
  same_fallback c p deadline post = refl

  -- The test that a call contacts the fallback, if the primary answers this.
  abbrev contacts : RpcClient → AppResult x x.Json → Bool
  contacts c answer =
      not (rejects s.checked_at c.circuit_primary)
      && (triggers answer
          && (not (past (deadline_of s.started_at c.total_timeout) s.decided_at)
              && (is_some c.fallback_url
                  && not (rejects s.fallback_checked_at c.circuit_fallback))))

  perform_call-Did :
      (c : RpcClient) (p q : Posted x)
      → let deadline = deadline_of s.started_at c.total_timeout in
        post_and_parse w c deadline s.primary ≡ some p
        → post_and_parse w c deadline s.fallback ≡ some q
        → Did
            (contacts c p.answer)
            (if contacts c p.answer then q.answer else kept c p.answer)
            (perform_call w s c)
  unfolding perform_call
  perform_call-Did c p q made over =
      let deadline = deadline_of s.started_at c.total_timeout in
      let next = record c {
        last_attempt_count = stored_or c.last_attempt_count p.counter;
        circuit_primary = noted s.answered_at p.answer (check s.checked_at c.circuit_primary).0;
      } in
      let fallback = same_fallback c p deadline s.fallback ∙ over in
      let behind = settle_primary-Did deadline q next p.answer p.requests fallback in
      elim (Bool-cases (rejects s.checked_at c.circuit_primary)) [
        | inl refused ↦ rw refused (refl, refl)
        | inr admits ↦ rw (admits, same_primary c deadline s.primary ∙ made) behind
      ]

  -- A call always returns. With p and q the answers that the primary and the fallback give when they
  -- are asked, it contacts the fallback exactly when the circuit of the primary admits the call, p is
  -- an error that triggers a failover, the deadline is not reached, a fallback is
  -- configured and its circuit admits the call. It answers q if it contacts the fallback, and else p,
  -- except for the error of an open primary circuit and for the timeout when p is a trigger behind the
  -- deadline.
  pub perform_call-contacts :
      (c : RpcClient)
      → let deadline = deadline_of s.started_at c.total_timeout in
        (p q : Posted x) × (r : Called x) × (post_and_parse w c deadline s.primary ≡ some p)
        × (post_and_parse w c deadline s.fallback ≡ some q)
        × (perform_call w s c ≡ some r)
        × (is_some r.to_fallback ≡ (
            not (rejects s.checked_at c.circuit_primary)
            && (triggers p.answer
                && (not (past deadline s.decided_at)
                    && (is_some c.fallback_url
                        && not (rejects s.fallback_checked_at c.circuit_fallback))))))
        × (r.answer ≡ (if is_some r.to_fallback then q.answer else kept c p.answer))
  unfolding perform_call
  perform_call-contacts c =
      let deadline = deadline_of s.started_at c.total_timeout in
      let (p, made, _) = post_and_parse-Bounded w c deadline s.primary in
      let (q, over, _) = post_and_parse-Bounded w c deadline s.fallback in
      let (r, e, to, answer) = did _ _ _ (perform_call-Did c p q made over) in
      (p, q, r, made, over, e, to, rw to answer)
