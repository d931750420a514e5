-- ===== src/Cache/Busy/Attempts.antt =====
-- src/cache.rs, `execute_with_retry`: its end.
use Prim.Native.String.{String}
use soroban_cost_estimator.Prelude.{
  ℕ, zero, suc, ◌+◌, ◌*◌, ◌≤◌, ◌≡◌, refl, Bool, Option, none, some, List, [], ◌∷◌, arith, length,
}
use soroban_cost_estimator.Error.{Externals, Result, ok, err}
use soroban_cost_estimator.Cache.Busy.{Executed, settle, execute_from, execute_with_retry}

-- The delays double, from this one on.
abbrev pub Doubling : ℕ → List ℕ → Type 0
Doubling delay [] = Unit
Doubling delay (d ∷ ds) = (d ≡ delay) × Doubling (delay * 2) ds

-- An answer from the rounds from `attempt` on.
abbrev Answers : {x : Externals} {A : Type 0} → (left delay : ℕ) → Option (Executed x A) → Type 0
Answers left delay none = ⊥
Answers left delay (some e) = (length e.delays ≤ left) × Doubling delay e.delays

module _ (x : Externals) {A : Type 0} (busy corrupt : x.SqliteError → Bool)
    (error_text : x.SqliteError → String) (path : String)
    (operation : ℕ → Result x.SqliteError A) where
  last-Answers :
      (delay : ℕ) (o : Result x.SqliteError A)
      → Answers {x = x} {A = A} 0 delay
          (settle {x = x} busy corrupt error_text path operation 4 delay o none)
  unfolding settle
  last-Answers delay (ok val) = (omega arith, tt)
  last-Answers delay (err e) = ground arith

  settle-Answers :
      (left attempt delay : ℕ) (o : Result x.SqliteError A) (rest : Option (Executed x A))
      → Answers {x = x} {A = A} left (delay * 2) rest
      → Answers {x = x} {A = A}
          (suc left)
          delay
          (settle {x = x} busy corrupt error_text path operation attempt delay o rest)
  unfolding settle
  settle-Answers left attempt delay (ok val) rest h = (omega arith, tt)
  settle-Answers left attempt delay (err e) none h = absurd h
  settle-Answers left attempt delay (err e) (some r) h = ground arith

  execute_from-Answers :
      (left attempt delay : ℕ)
      → attempt + left ≡ 4
      → Answers {x = x} {A = A} left delay
          (execute_from {x = x} busy corrupt error_text path operation (suc left) attempt delay)
  unfolding execute_from
  execute_from-Answers zero attempt delay h =
      let e : attempt ≡ 4 = omega arith in rw e (last-Answers delay (operation 4))
  execute_from-Answers (suc left) attempt delay h =
      settle-Answers left attempt delay (operation attempt) _
        (execute_from-Answers left (attempt + 1) (delay * 2) (omega arith))

  some_answer :
      (o : Option (Executed x A))
      → Answers {x = x} {A = A} 4 10 o
      → (e : Executed x A) × (o ≡ some e) × (length e.delays ≤ 4) × Doubling 10 e.delays
  some_answer none h = absurd h
  some_answer (some e) h = (e, refl, h.0, h.1)

  -- Whatever the statement answers, the loop returns in one of its rounds and never comes to the code
  -- behind it. It sleeps at most four times, first 10 milliseconds and then twice as long each time.
  pub execute_with_retry_total :
      (e : Executed x A) × (execute_with_retry {x = x} busy corrupt error_text path operation
        ≡ some e)
      × (length e.delays ≤ 4)
      × Doubling 10 e.delays
  unfolding execute_with_retry
  execute_with_retry_total = some_answer _ (execute_from-Answers 4 0 10 (omega arith))
