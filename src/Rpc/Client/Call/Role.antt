-- ===== src/Rpc/Client/Call/Role.antt =====
-- src/rpc/client.rs, `served_role`: the endpoint that a client names after a call.
use Prim.Native.String.{String}
use soroban_cost_estimator.Prelude.{
  ◌≡◌, refl, Bool, true, false, ◌||◌, ℕ, Option, none, some, List, [], ◌∷◌, arith, inl, inr,
  Bool-cases, if◌then◌else◌, any,
}
use soroban_cost_estimator.Error.{Externals, AppError, ok, err, AppResult}
use soroban_cost_estimator.Rpc.Retry.{past}
use soroban_cost_estimator.Rpc.Client.Post.{Wire, RpcClient, Posted, post_and_parse}
use soroban_cost_estimator.Rpc.Client.Call.{
  Setting, Called, perform_call, settle_primary, fail_over, try_fallback, check, deadline_of,
  after_fallback, after_primary, with_fallback, is_failover_trigger,
}
use soroban_cost_estimator.Rpc.Client.Call.Requests.{perform_call-Limited}
use soroban_cost_estimator.Rpc.Client.Call.Failover.{is_some}

unfoldable pub served_role : RpcClient → String
served_role c = if c.fallback_used then "fallback" else "primary"

module _ {x : Externals} (w : Wire x) (s : Setting w) where
  -- The flag is set if it was, or if the call contacts the fallback.
  abbrev Flags : Bool → Option (Called x) → Type 0
  Flags before none = Unit
  Flags before (some r) = r.after.fallback_used ≡ (before || is_some r.to_fallback)

  after_fallback-Flags :
      (c : RpcClient) (before : Bool) (sent : List ℕ) (now : ℕ) (o : Option (Posted x))
      → c.fallback_used ≡ true
      → Flags before (after_fallback now sent c o)
  after_fallback-Flags c before sent now none h = tt
  after_fallback-Flags c before sent now (some p) h = ground arith

  try_fallback-Flags :
      (d : Option ℕ) (c : RpcClient) (e : AppError x) (sent : List ℕ)
      → Flags c.fallback_used (try_fallback w s d c e sent)
  unfolding try_fallback
  try_fallback-Flags d c e sent =
      elim (Bool-cases (check s.fallback_checked_at c.circuit_fallback).1) [
        | inl refused ↦ rw refused (ground arith)
        | inr admits ↦
            rw admits (after_fallback-Flags _ c.fallback_used sent s.fallback_answered_at _ refl)
      ]

  with_fallback-Flags :
      (d : Option ℕ) (c : RpcClient) (e : AppError x) (sent : List ℕ) (url : Option String)
      → Flags c.fallback_used (with_fallback w s d c e sent url)
  with_fallback-Flags d c e sent none = ground arith
  with_fallback-Flags d c e sent (some url) = try_fallback-Flags d c e sent

  settle_primary-Flags :
      (d : Option ℕ) (c : RpcClient) (answer : AppResult x x.Json) (sent : List ℕ)
      → Flags c.fallback_used (settle_primary w s d c answer sent)
  unfolding settle_primary fail_over
  settle_primary-Flags d c (ok v) sent = ground arith
  settle_primary-Flags d c (err e) sent = elim (Bool-cases (is_failover_trigger e)) [
    | inl trigger ↦ elim (Bool-cases (past d s.decided_at)) [
      | inl late ↦ rw (trigger, late) (ground arith)
      | inr in_time ↦ rw (trigger, in_time) (with_fallback-Flags d c e sent c.fallback_url)
    ]
    | inr final ↦ rw final (ground arith)
  ]

  perform_call-Flags : (c : RpcClient) → Flags c.fallback_used (perform_call w s c)
  unfolding perform_call
  perform_call-Flags c = elim (Bool-cases (check s.checked_at c.circuit_primary).1) [
    | inl refused ↦ rw refused (ground arith)
    | inr admits ↦ rw admits (from (post_and_parse w _ _ s.primary))
  ]
    where
      from :
          (o : Option (Posted x))
          → Flags c.fallback_used (
              after_primary w s
                (deadline_of s.started_at c.total_timeout)
                (record c { circuit_primary = (check s.checked_at c.circuit_primary).0 })
                o)
      from none = tt
      from (some p) = settle_primary-Flags _ _ p.answer p.requests

module _ {x : Externals} (w : Wire x) where
  abbrev with_called :
      Called x → Option (List (Called x) × RpcClient) → Option (List (Called x) × RpcClient)
  with_called r none = none
  with_called r (some (rs, last)) = some (r ∷ rs, last)

  abbrev and_then :
      (RpcClient → Option (List (Called x) × RpcClient))
      → Option (Called x)
      → Option (List (Called x) × RpcClient)
  and_then rest none = none
  and_then rest (some r) = with_called r (rest r.after)

  -- Calls of one client, one after the other: what they do, and the client that they leave.
  unfoldable pub perform_calls : List (Setting w) → RpcClient → Option (List (Called x) × RpcClient)
  perform_calls [] c = some ([], c)
  perform_calls (s ∷ ss) c = and_then (perform_calls ss) (perform_call w s c)

  -- Whether any call contacted the fallback.
  abbrev pub any_contacted : List (Called x) → Bool
  any_contacted = any (λ r. is_some r.to_fallback)

  perform_calls-flag :
      (ss : List (Setting w)) (c : RpcClient)
      → (rs : List (Called x)) × (last : RpcClient) × (perform_calls ss c ≡ some (rs, last))
        × (last.fallback_used ≡ (c.fallback_used || any_contacted rs))
  unfolding perform_calls
  perform_calls-flag [] c = ([], c, refl, ground arith)
  perform_calls-flag (s ∷ ss) c =
      let (r, e, _) = perform_call-Limited w s c in
      let flag : r.after.fallback_used ≡ (c.fallback_used || is_some r.to_fallback) =
        rw e at (perform_call-Flags w s c) in
      let (rs, last, made, h) = perform_calls-flag ss r.after in
      (r ∷ rs, last, rw (e, made) refl, ground (arith, flag, h))

  -- Calls that a new client makes one after the other all return, and then the client names the
  -- fallback exactly if any of them contacted the fallback, be it the last or an earlier one.
  pub served_role-any :
      (ss : List (Setting w)) (c : RpcClient)
      → c.fallback_used ≡ false
      → (rs : List (Called x)) × (last : RpcClient) × (perform_calls ss c ≡ some (rs, last))
        × (served_role last ≡ (if any_contacted rs then "fallback" else "primary"))
  unfolding served_role
  served_role-any ss c h =
      let (rs, last, made, flag) = perform_calls-flag ss c in
      let e : last.fallback_used ≡ any_contacted rs = ground (arith, flag, h) in
      (rs, last, made, rw e refl)
