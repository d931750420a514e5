-- ===== src/Rpc/Client/Post/Gateway.antt =====
-- src/rpc/client.rs, `post_and_parse`: what becomes of a transient status.
use Prim.Native.String.{String}
use soroban_cost_estimator.Prelude.{
  ℕ, zero, suc, ◌+◌, ◌≡◌, refl, Bool, true, false, Option, none, some, arith, inl, inr, Bool-cases,
  ap,
}
use soroban_cost_estimator.Error.{Externals, rpc_unavailable, Result, ok, err, AppResult}
use soroban_cost_estimator.Rpc.Retry.{Round, Retried, settle, retry_loop, with_retry_deadline, past}
use soroban_cost_estimator.Rpc.Client.Post.{
  Wire, Sent, Post, Posted, RpcClient, post_and_parse, round, timeout_ms_of, parse_response,
  attempt, is_transient_status, connect_timeout_error, refused_or, built, posted, attempted,
  is_gateway_status, read_body, parse_body, result_of,
}

abbrev pub is_unavailable : {x : Externals} {A : Type 0} → AppResult x A → Bool
is_unavailable (err (rpc_unavailable status)) = true
is_unavailable _ = false

module _ {x : Externals} (w : Wire x) where
  -- An outcome of an attempt: no gateway status in a response, and no error for it.
  abbrev Clear : AppResult x w.Response → Type 0
  Clear (ok response) = is_gateway_status (w.status response) ≡ false
  Clear (err e) = is_unavailable {A = w.Response} (err e) ≡ false

  abbrev ClearOutcome : Option (AppResult x w.Response) → Type 0
  ClearOutcome none = Unit
  ClearOutcome (some o) = Clear o

  abbrev ClearRun : Option (Retried x w.Response) → Type 0
  ClearRun none = Unit
  ClearRun (some r) = Clear r.answer

  attempt-Clear :
      (limit now : ℕ) (o : Result x.HttpError w.Response) → Clear (attempt w limit now o)
  unfolding attempt is_transient_status connect_timeout_error
  attempt-Clear limit now (err e) = ground arith
  attempt-Clear limit now (ok response) = ground arith

  round-Clear : (limit : ℕ) (s : Sent w) → ClearOutcome (round w limit s).outcome
  unfolding round
  round-Clear limit s = of s.sent
    where
      of :
          (o : Option (Result x.HttpError w.Response))
          → ClearOutcome (attempted w limit s.system_time o)
      of none = tt
      of (some o) = attempt-Clear limit s.system_time o

  module _ (n : ℕ) (deadline : Option ℕ) (timeout_ms : ℕ) (rounds : ℕ → Round x w.Response)
      (clear : (k : ℕ) → ClearOutcome (rounds k).outcome) where
    settle-Clear :
        (attempts : ℕ) (r : Round x w.Response) (o : Option (AppResult x w.Response))
        (rest : Option (Retried x w.Response))
        → ClearOutcome o
        → ClearRun rest
        → ClearRun (settle n deadline timeout_ms rounds attempts r o rest)
    unfolding settle
    settle-Clear attempts r none rest h hr = refl
    settle-Clear attempts r (some (ok v)) rest h hr = h
    settle-Clear attempts r (some (err e)) rest h hr = ground arith

    retry_loop-Clear :
        (fuel attempts : ℕ) → ClearRun (retry_loop n deadline timeout_ms rounds fuel attempts)
    unfolding retry_loop
    retry_loop-Clear zero attempts = tt
    retry_loop-Clear (suc fuel) attempts =
        elim (Bool-cases (past deadline (rounds attempts).started_at)) [
          | inl late ↦ rw late refl
          | inr in_time ↦ rw in_time (
              settle-Clear attempts (rounds attempts) _ _ (clear attempts)
                (retry_loop-Clear fuel (attempts + 1)))
        ]

  result_of-clear : (status : ℕ) (o : Option x.Json) → is_unavailable (result_of w status o) ≡ false
  result_of-clear status none = refl
  result_of-clear status (some v) = refl

  parse_body-clear :
      (status : ℕ) (b : x.Json) (o : Option x.Json)
      → is_unavailable (parse_body w status b o) ≡ false
  unfolding parse_body
  parse_body-clear status b none = result_of-clear status (w.get b "result")
  parse_body-clear status b (some e) = refl

  parse_response-Clear :
      (t : ℕ) (body : Option (Result x.HttpError x.Json)) (o : AppResult x w.Response)
      → Clear o
      → is_unavailable (parse_response w t body o) ≡ false
  unfolding parse_response read_body parse_body
  parse_response-Clear t body (err e) h = ground arith
  parse_response-Clear t none (ok response) h = rw h refl
  parse_response-Clear t (some (err e)) (ok response) h = rw h refl
  parse_response-Clear t (some (ok b)) (ok response) h =
      rw h (parse_body-clear (w.status response) b (w.get b "error"))

  refused-clear :
      (b : Result {0, 0} String Unit) (t : ℕ) (body : Option (Result x.HttpError x.Json))
      (o : Option (Retried x w.Response)) (p : Posted x)
      → ClearRun o
      → refused_or w (built w b) (posted w t body o) ≡ some p
      → is_unavailable p.answer ≡ false
  refused-clear (err message) t body o p h e = ground arith
  refused-clear (ok u) t body none p h e = absurd (cc)
  refused-clear (ok u) t body (some r) p h e =
      ground (arith, parse_response-Clear t body r.answer h, ap answered e)
    where
      answered : Option (Posted x) → AppResult x x.Json
      answered none = p.answer
      answered (some q) = q.answer

  -- No answer of a request is the error `rpc_unavailable`, whatever statuses the endpoint returns: the
  -- retries already turn a transient status into `http_status`.
  pub post_and_parse-unavailable :
      (c : RpcClient) (deadline : Option ℕ) (post : Post w) (p : Posted x)
      → post_and_parse w c deadline post ≡ some p
      → is_unavailable p.answer ≡ false
  unfolding post_and_parse with_retry_deadline
  post_and_parse-unavailable c deadline post p e =
      let t = timeout_ms_of c.total_timeout in
      let rounds = λ (n : ℕ). round w c.connect_timeout (post.attempts n) in
      refused-clear c.client t post.body _ p
        (retry_loop-Clear c.max_retries deadline t rounds
          (λ k. round-Clear c.connect_timeout (post.attempts k)) (c.max_retries + 1) 0)
        e
