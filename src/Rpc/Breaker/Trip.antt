-- ===== src/Rpc/Breaker/Trip.antt =====
-- src/rpc/circuit_breaker.rs, `record_failure`: failures in a row on a closed circuit.
use soroban_cost_estimator.Prelude.{
  ℕ, suc, ◌+◌, ◌<◌, ◌≡◌, true, List, [], ◌∷◌, arith, if◌then◌else◌, leb, ap, ◌∙◌, ◌==◌,
}
use soroban_cost_estimator.Error.{Externals, AppError}
use soroban_cost_estimator.Rpc.Breaker.{
  CircuitBreaker, closed, opened, record_failure, is_transport_failure, in_state,
}

-- Failed calls, each with the clock at its record.
abbrev pub Failures : Externals → Type 0
Failures x = List (ℕ × AppError x)

shift : (k n : ℕ) → k + 1 + n ≡ k + suc n
shift k n = omega arith

module _ {x : Externals} where
  abbrev pub record_all : Failures x → CircuitBreaker → CircuitBreaker
  record_all [] cb = cb
  record_all ((now, e) ∷ fs) cb = record_all fs (record_failure now e cb)

  abbrev pub transport_count : Failures x → ℕ
  transport_count [] = 0
  transport_count ((now, e) ∷ fs) =
      let rest = transport_count fs in if is_transport_failure e then suc rest else rest

  record_failure-closed :
      (cb : CircuitBreaker) (k now : ℕ) (e : AppError x)
      → 0 < cb.failure_threshold
      → record_failure now e (in_state cb closed k) ≡ (
          if is_transport_failure e
          then (if leb cb.failure_threshold (k + 1)
              then in_state cb (opened now) 0
              else in_state cb closed (k + 1))
          else in_state cb closed k)
  unfolding record_failure
  record_failure-closed cb k now e h = ground arith

  record_all-closed :
      (cb : CircuitBreaker) (k : ℕ) (fs : Failures x)
      → k + transport_count fs < cb.failure_threshold
      → record_all fs (in_state cb closed k) ≡ in_state cb closed (k + transport_count fs)
  record_all-closed cb k [] h = ap (λ (n : ℕ). in_state cb closed n) (omega arith)
  record_all-closed cb k ((now, e) ∷ fs) h = ground (
    arith,
    record_failure-closed cb k now e (omega arith),
    record_all-closed cb k fs,
    record_all-closed cb (k + 1) fs,
    shift k (transport_count fs),
  )

  -- On a closed breaker with no failure counted, behind any failed calls of which fewer than the
  -- threshold are transport failures, application errors among them in any number: the next
  -- transport failure opens the circuit, at that failure's instant, exactly if it is the one that
  -- makes the threshold, and else leaves it closed with all transport failures counted.
  pub opens_at_threshold :
      (cb : CircuitBreaker) (fs : Failures x) (now : ℕ) (e : AppError x)
      → cb.state ≡ closed
      → cb.consecutive_failures ≡ 0
      → transport_count fs < cb.failure_threshold
      → is_transport_failure e ≡ true
      → record_failure now e (record_all fs cb) ≡ (
          if transport_count fs + 1 == cb.failure_threshold
          then in_state cb (opened now) 0
          else in_state cb closed (transport_count fs + 1))
  opens_at_threshold cb fs now e hs hn few transport =
      let start : cb ≡ in_state cb closed 0 = ground arith in
      let n = transport_count fs in
      ap (λ (c : CircuitBreaker). record_failure now e (record_all fs c)) start
      ∙ ap (record_failure now e) (record_all-closed cb 0 fs (omega arith))
      ∙ record_failure-closed cb (0 + n) now e (omega arith)
      ∙ ground arith
