-- ===== src/Rpc/Client/Dedup/Lru.antt =====
-- src/rpc/client.rs, `DedupState`: sequences of its operations against a list of entries, the least
-- recently used first.
use mathlib.Core.List.{lookup}
use soroban_cost_estimator.Prelude.{
  ℕ, suc, ◌-◌, ◌≤◌, ◌≡◌, refl, Option, List, [], ◌∷◌, length, arith, drop, inl, inr, Bool-cases,
  Option-cases, ◌==◌,
}
use soroban_cost_estimator.Rpc.Client.Dedup.Map.{keys}
use soroban_cost_estimator.Rpc.Client.Dedup.Held.{
  touch, Holds, used, replaced, added, evict-Holds, length-touch,
}
use soroban_cost_estimator.Rpc.Client.Dedup.{
  DedupState, with_capacity, get_completed, insert_completed,
}
use soroban_cost_estimator.Rpc.Client.Dedup.Recent.{
  recent_get, recent_insert, recent_insert_full, recent_insert_hit, recent_insert_miss,
  length-touch_miss, lookup-drop_absent,
}

pub data Request (K V : Type 0) : Type 0 where
  gets : K → Request K V
  inserts : K → V → Request K V

module _ {K V : Type 0} (dec : Discrete K) where
  -- The answers of the lookups in a sequence of requests, by the specification.
  unfoldable pub recent_answers : ℕ → List (Request K V) → List (K × V) → List (Option V)
  unfolding recent_get recent_insert
  recent_answers capacity [] es = []
  recent_answers capacity (gets k ∷ rs) es =
      lookup dec k es ∷ recent_answers capacity rs (recent_get dec k es)
  recent_answers capacity (inserts k v ∷ rs) es =
      recent_answers capacity rs (recent_insert dec capacity k v es)

  -- The same requests on the state: the state that they leave, and the answers of the lookups.
  unfoldable pub run : List (Request K V) → DedupState K V → DedupState K V × List (Option V)
  run [] s = (s, [])
  run (gets k ∷ rs) s =
      let (next, answer) = get_completed dec k s in
      let (last, answers) = run rs next in (last, answer ∷ answers)
  run (inserts k v ∷ rs) s = run rs (insert_completed dec k v s)

  -- The state holds the entries, no more than its capacity.
  pub record Caches (s : DedupState K V) (es : List (K × V)) : Type 0 where
    pub holds : Holds dec s.completed s.order es
    pub bounded : length es ≤ s.capacity

  get_completed-Caches :
      (k : K) (s : DedupState K V) (es : List (K × V))
      → Caches s es
      → let (next, answer) = get_completed dec k s in
        Caches next (recent_get dec k es)
        × (next.capacity ≡ s.capacity)
        × (answer ≡ lookup dec k es)
  unfolding get_completed recent_get
  get_completed-Caches k s es h = elim (Option-cases (lookup dec k es)) [
    | inl miss ↦ rw (h.holds.found k, miss) (h, refl, refl)
    | inr (v, hit) ↦
        let len : length (touch dec k v es) ≡ length es =
          length-touch dec k v v es h.holds.distinct hit in
        rw (h.holds.found k, hit)
          (
            record {
              holds = used dec k v s.completed s.order es h.holds hit;
              bounded = rw len h.bounded;
            },
            refl,
            refl,
          )
  ]

  insert_completed-Caches :
      (k : K) (v : V) (s : DedupState K V) (es : List (K × V))
      → Caches s es
      → let next = insert_completed dec k v s in
        Caches next (recent_insert dec s.capacity k v es) × (next.capacity ≡ s.capacity)
  unfolding insert_completed
  insert_completed-Caches k v s es h = elim (Bool-cases (s.capacity == 0)) [
    | inl off ↦
        rw (off, recent_insert_full dec s.capacity k v es (ground (arith, off)) h.bounded) (h, refl)
    | inr on ↦
        let hc : 1 ≤ s.capacity = ground (arith, on) in
        elim (Option-cases (lookup dec k es)) [
          | inl miss ↦
              let stay = drop (suc (length es) - s.capacity) es in
              let evicted = evict-Holds dec s.capacity s.completed s.order es hc h.holds in
              let there =
                added dec k v _ _ stay evicted
                  (lookup-drop_absent dec k (suc (length es) - s.capacity) es miss) in
              rw (on, h.holds.found k, miss, recent_insert_miss dec s.capacity k v es hc miss)
                (
                  record {
                    holds = there;
                    bounded = length-touch_miss dec s.capacity k v es hc miss;
                  },
                  refl,
                )
          | inr (w, hit) ↦
              let len : length (touch dec k v es) ≡ length es =
                length-touch dec k v w es h.holds.distinct hit in
              rw (on, h.holds.found k, hit, recent_insert_hit dec s.capacity k v es len h.bounded)
                (
                  record {
                    holds = replaced dec k v w s.completed s.order es h.holds hit;
                    bounded = rw len h.bounded;
                  },
                  refl,
                )
        ]
  ]

  run-Caches :
      (rs : List (Request K V)) (s : DedupState K V) (es : List (K × V))
      → Caches s es
      → let (last, answers) = run rs s in
        (answers ≡ recent_answers s.capacity rs es)
        × (last.capacity ≡ s.capacity)
        × (length last.completed ≤ s.capacity)
  unfolding run recent_answers
  run-Caches [] s es h = (refl, refl, ground (arith, h.bounded, h.holds.sized))
  run-Caches (gets k ∷ rs) s es h =
      let step = get_completed-Caches k s es h in
      let rest = run-Caches rs (get_completed dec k s).0 (recent_get dec k es) step.0 in
      ground (arith, step.1, rest)
  run-Caches (inserts k v ∷ rs) s es h =
      let step = insert_completed-Caches k v s es h in
      let rest =
        run-Caches rs (insert_completed dec k v s) (recent_insert dec s.capacity k v es) step.0 in
      ground (arith, step.1, rest)

  -- Whatever requests a new cache serves, it answers each lookup as the list of entries does that
  -- moves an entry to the back when it is used and keeps the newest up to the capacity, and it never
  -- holds more results than its capacity.
  pub run-recent_answers :
      (capacity : ℕ) (rs : List (Request K V))
      → let (last, answers) = run rs (with_capacity capacity) in
        (answers ≡ recent_answers capacity rs []) × (length last.completed ≤ capacity)
  unfolding with_capacity
  run-recent_answers capacity rs =
      let h : Caches (with_capacity capacity) [] = record {
        holds = record {
          ordered = unfold keys in refl;
          found = λ q. refl;
          sized = refl;
          map_distinct = tt;
          distinct = tt;
        };
        bounded = omega arith;
      } in
      let r = run-Caches rs (with_capacity capacity) [] h in (r.0, r.2)
