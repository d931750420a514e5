-- ===== src/Rpc/Breaker/Probe.antt =====
-- src/rpc/circuit_breaker.rs: calls while a circuit is open or half-open.
use soroban_cost_estimator.Prelude.{
  ℕ, ◌+◌, ◌-◌, ◌≤◌, ◌<◌, ◌≡◌, refl, true, false, List, [], ◌∷◌, arith, if◌then◌else◌, leb, ap, ◌∙◌,
  ltb, length, replicate, any, Bool-cases, inl, inr, le→leb,
}
use soroban_cost_estimator.Error.{Externals, AppError, ok, err, AppResult}
use soroban_cost_estimator.Rpc.Breaker.{
  CircuitBreaker, closed, opened, half_open, should_reject, record_success, record_failure,
  is_transport_failure, in_state, open_error, Attempt, call, calls, record_outcome,
}

-- Checks at the given instants with no answer recorded between them: the breaker that they leave,
-- and how many of them were admitted.
unfoldable pub poll : List ℕ → CircuitBreaker → CircuitBreaker × ℕ
poll [] cb = (cb, 0)
poll (now ∷ ts) cb =
    let (next, rejected) = should_reject now cb in
    let (last, admitted) = poll ts next in (last, if rejected then admitted else admitted + 1)

should_reject-half_open :
    (cb : CircuitBreaker) (now : ℕ)
    → 0 < cb.failure_threshold
    → cb.state ≡ half_open
    → should_reject now cb ≡ (cb, true)
unfolding should_reject
should_reject-half_open cb now h hs = ground arith

should_reject-opened :
    (cb : CircuitBreaker) (now opened_at : ℕ)
    → 0 < cb.failure_threshold
    → cb.state ≡ opened opened_at
    → should_reject now cb ≡ (
        if leb cb.cooldown (now - opened_at)
        then (in_state cb half_open cb.consecutive_failures, false)
        else (cb, true))
unfolding should_reject
should_reject-opened cb now opened_at h hs = ground arith

should_reject-closed :
    (cb : CircuitBreaker) (now : ℕ) → cb.state ≡ closed → should_reject now cb ≡ (cb, false)
unfolding should_reject
should_reject-closed cb now hs = ground arith

record_success-enabled :
    (cb : CircuitBreaker) → 0 < cb.failure_threshold → record_success cb ≡ in_state cb closed 0
unfolding record_success
record_success-enabled cb h = ground arith

poll-half_open :
    (cb : CircuitBreaker) (ts : List ℕ)
    → 0 < cb.failure_threshold
    → cb.state ≡ half_open
    → poll ts cb ≡ (cb, 0)
unfolding poll
poll-half_open cb [] h hs = refl
poll-half_open cb (now ∷ ts) h hs =
    rw (should_reject-half_open cb now h hs, poll-half_open cb ts h hs)

-- While an enabled circuit is open with no answer recorded, exactly one of the callers that check
-- it, at whatever instants, is admitted if some instant lies a cooldown or more behind the opening,
-- and none if there is no such instant.
pub single_probe :
    (cb : CircuitBreaker) (opened_at : ℕ) (ts : List ℕ)
    → 0 < cb.failure_threshold
    → cb.state ≡ opened opened_at
    → (poll ts cb).1 ≡ (if any (λ now. leb cb.cooldown (now - opened_at)) ts then 1 else 0)
unfolding poll
single_probe cb opened_at [] h hs = refl
single_probe cb opened_at (now ∷ ts) h hs =
    let probing = in_state cb half_open cb.consecutive_failures in
    rw (should_reject-opened cb now opened_at h hs)
      (elim (Bool-cases (leb cb.cooldown (now - opened_at))) [
        | inl due ↦ rw (due, poll-half_open probing ts h refl)
        | inr early ↦ rw early (single_probe cb opened_at ts h hs)
      ])

module _ {x : Externals} where
  call-half_open :
      (cb : CircuitBreaker) (a : Attempt x)
      → 0 < cb.failure_threshold
      → cb.state ≡ half_open
      → call a cb ≡ (cb, err (open_error cb))
  unfolding call
  call-half_open cb a h hs = rw (should_reject-half_open cb a.checked_at h hs)

  calls-half_open :
      (cb : CircuitBreaker) (later : List (Attempt x))
      → 0 < cb.failure_threshold
      → cb.state ≡ half_open
      → calls later cb ≡ (cb, replicate (length later) (err (open_error cb)))
  unfolding calls
  calls-half_open cb [] h hs = refl
  calls-half_open cb (a ∷ later) h hs = rw (call-half_open cb a h hs, calls-half_open cb later h hs)

  -- The call that an open circuit admits when its cooldown is over.
  call-probe :
      (cb : CircuitBreaker) (opened_at : ℕ) (a : Attempt x)
      → 0 < cb.failure_threshold
      → cb.state ≡ opened opened_at
      → cb.cooldown ≤ a.checked_at - opened_at
      → call a cb ≡ (
        record_outcome a.answered_at a.outcome (in_state cb half_open cb.consecutive_failures),
        a.outcome,
      )
  unfolding call
  call-probe cb opened_at a h hs due =
      rw (should_reject-opened cb a.checked_at opened_at h hs)
        (rw (le→leb cb.cooldown (a.checked_at - opened_at) due) refl)

  after_probe :
      (cb : CircuitBreaker) (opened_at : ℕ) (a : Attempt x)
      → 0 < cb.failure_threshold
      → cb.state ≡ opened opened_at
      → cb.cooldown ≤ a.checked_at - opened_at
      → (call a cb).0
        ≡ record_outcome a.answered_at a.outcome (in_state cb half_open cb.consecutive_failures)
  after_probe cb opened_at a h hs due =
      ap (λ (r : CircuitBreaker × AppResult x x.Json). r.0) (call-probe cb opened_at a h hs due)

  record_failure-application :
      (cb : CircuitBreaker) (now : ℕ) (e : AppError x)
      → is_transport_failure e ≡ false
      → record_failure now e cb ≡ cb
  unfolding record_failure
  record_failure-application cb now e app = ground arith

  record_failure-half_open :
      (cb : CircuitBreaker) (n now : ℕ) (e : AppError x)
      → 0 < cb.failure_threshold
      → is_transport_failure e ≡ true
      → record_failure now e (in_state cb half_open n) ≡ in_state cb (opened now) 0
  unfolding record_failure
  record_failure-half_open cb n now e h transport = ground arith

  -- A probe that the endpoint answers with an application error (a JSON-RPC error, HTTP 429 or
  -- 500) leaves the circuit half-open: every later call, at whatever instant, is rejected with the
  -- open error without being made, and the breaker never changes again.
  pub application_error_locks :
      (cb : CircuitBreaker) (opened_at : ℕ) (probe : Attempt x) (e : AppError x)
      (later : List (Attempt x))
      → 0 < cb.failure_threshold
      → cb.state ≡ opened opened_at
      → cb.cooldown ≤ probe.checked_at - opened_at
      → probe.outcome ≡ err e
      → is_transport_failure e ≡ false
      → let locked = in_state cb half_open cb.consecutive_failures in
        calls later (call probe cb).0 ≡ (locked, replicate (length later) (err (open_error locked)))
  application_error_locks cb opened_at probe e later h hs due answer app =
      let locked = in_state cb half_open cb.consecutive_failures in
      let kept =
        after_probe cb opened_at probe h hs due
        ∙ ap (λ o. record_outcome probe.answered_at o locked) answer
        ∙ record_failure-application locked probe.answered_at e app in
      ap (calls later) kept ∙ calls-half_open locked later h refl

  -- A probe that fails in transport opens the circuit again with a new cooldown: a check before
  -- its end is rejected and one at its end or later is admitted, as the next probe.
  pub failed_probe_reopens :
      (cb : CircuitBreaker) (opened_at : ℕ) (probe : Attempt x) (e : AppError x) (now : ℕ)
      → 0 < cb.failure_threshold
      → cb.state ≡ opened opened_at
      → cb.cooldown ≤ probe.checked_at - opened_at
      → probe.outcome ≡ err e
      → is_transport_failure e ≡ true
      → (should_reject now (call probe cb).0).1 ≡ ltb (now - probe.answered_at) cb.cooldown
  failed_probe_reopens cb opened_at probe e now h hs due answer transport =
      let probing = in_state cb half_open cb.consecutive_failures in
      let reopened = in_state cb (opened probe.answered_at) 0 in
      let moved =
        after_probe cb opened_at probe h hs due
        ∙ ap (λ o. record_outcome probe.answered_at o probing) answer
        ∙ record_failure-half_open cb cb.consecutive_failures probe.answered_at e h transport in
      ap (λ (c : CircuitBreaker). (should_reject now c).1) moved
      ∙ rw (should_reject-opened reopened now probe.answered_at h refl) (ground arith)

  -- A probe that succeeds closes the circuit: its answer is passed on, the count of failures
  -- starts anew, and the next check is admitted.
  pub successful_probe_closes :
      (cb : CircuitBreaker) (opened_at : ℕ) (probe : Attempt x) (value : x.Json) (now : ℕ)
      → 0 < cb.failure_threshold
      → cb.state ≡ opened opened_at
      → cb.cooldown ≤ probe.checked_at - opened_at
      → probe.outcome ≡ ok value
      → (call probe cb ≡ (in_state cb closed 0, ok value))
        × (should_reject now (call probe cb).0 ≡ (in_state cb closed 0, false))
  successful_probe_closes cb opened_at probe value now h hs due answer =
      let probing = in_state cb half_open cb.consecutive_failures in
      let moved =
        call-probe cb opened_at probe h hs due
        ∙ ap (λ o. (record_outcome probe.answered_at o probing, o)) answer
        ∙ ap (λ (c : CircuitBreaker). (c, ok value)) (record_success-enabled probing h) in
      (
        moved,
        ap (λ r. should_reject now r.0) moved
            ∙ should_reject-closed (in_state cb closed 0) now refl,
      )
