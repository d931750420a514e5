-- ===== src/Rpc/Client/Dedup/Held.antt =====
-- src/rpc/client.rs, `DedupState`: its map and its order as one list of entries, the least
-- recently used first.
use mathlib.Core.List.{lookup}
use mathlib.Core.Logic.{ite}
use mathlib.Core.Path.{subst}
use soroban_cost_estimator.Prelude.{
  ℕ, suc, ◌-◌, ◌≤◌, ◌≡◌, refl, none, some, List, [], ◌∷◌, ◌++◌, length, arith, drop, drop-zero,
  length-append, ap, ◌∙◌, leb, Bool-cases, inl, inr,
}
use soroban_cost_estimator.Rpc.Client.Dedup.Map.{
  keys, keys-append, without, insert, Distinct, lookup-without, without-Distinct, without_absent,
  length-without, lookup-snoc, snoc-Distinct,
}
use soroban_cost_estimator.Rpc.Client.Dedup.{remove_key, move_back, put_back, evict}

module _ {K V : Type 0} (dec : Discrete K) where
  -- The entry of the key leaves its place and goes to the back.
  abbrev pub touch : K → V → List (K × V) → List (K × V)
  touch key value es = without dec key es ++ (key, value) ∷ []

  -- The map and the order of its keys hold these entries.
  pub record Holds (completed : List (K × V)) (order : List K) (es : List (K × V)) : Type 0 where
    pub ordered : order ≡ keys es
    pub found : (q : K) → lookup dec q completed ≡ lookup dec q es
    pub sized : length completed ≡ length es
    pub map_distinct : Distinct dec completed
    pub distinct : Distinct dec es

  remove_key-keys :
      (k : K) (es : List (K × V)) (v : V)
      → Distinct dec es
      → lookup dec k es ≡ some v
      → remove_key dec k (keys es) ≡ some (keys (without dec k es))
  unfolding remove_key keys lookup without
  remove_key-keys k [] v d h = cc
  remove_key-keys k (e ∷ es) v d h =
      ground (arith, remove_key-keys k es v d.1, without_absent dec k es)

  keys-touch :
      (k : K) (v : V) (es : List (K × V)) → keys (touch k v es) ≡ keys (without dec k es) ++ k ∷ []
  unfolding keys
  keys-touch k v es = keys-append (without dec k es) ((k, v) ∷ [])

  absent : (k : K) (es : List (K × V)) → lookup dec k (without dec k es) ≡ none
  absent k es = ground (arith, lookup-without dec k k es)

  touch-Distinct :
      (k : K) (v : V) (es : List (K × V)) → Distinct dec es → Distinct dec (touch k v es)
  touch-Distinct k v es d =
      snoc-Distinct dec k v (without dec k es) (absent k es) (without-Distinct dec k es d)

  lookup-touch :
      (q k : K) (v : V) (es : List (K × V))
      → lookup dec q (touch k v es) ≡ ite (dec q k) (some v) (lookup dec q es)
  lookup-touch q k v es =
      ground
        (arith, lookup-snoc dec q k v (without dec k es) (absent k es), lookup-without dec q k es)

  pub length-touch :
      (k : K) (v w : V) (es : List (K × V))
      → Distinct dec es
      → lookup dec k es ≡ some w
      → length (touch k v es) ≡ length es
  length-touch k v w es d h =
      omega (arith, length-append (without dec k es) ((k, v) ∷ []), length-without dec k es w d h)

  -- A used key moves to the back.
  pub used :
      (k : K) (v : V) (m : List (K × V)) (order : List K) (es : List (K × V))
      → Holds m order es
      → lookup dec k es ≡ some v
      → Holds m (move_back k order (remove_key dec k order)) (touch k v es)
  used k v m order es h found = record {
    ordered = ground (arith, h.ordered, remove_key-keys k es v h.distinct found, keys-touch k v es);
    found = λ q. ground (arith, h.found q, lookup-touch q k v es);
    sized = ground (arith, h.sized, length-touch k v v es h.distinct found);
    map_distinct = h.map_distinct;
    distinct = touch-Distinct k v es h.distinct;
  }

  insert-Distinct :
      (k : K) (v : V) (m : List (K × V)) → Distinct dec m → Distinct dec (insert dec k v m)
  unfolding insert
  insert-Distinct k v m d = (absent k m, without-Distinct dec k m d)

  lookup-insert :
      (q k : K) (v : V) (m : List (K × V))
      → lookup dec q (insert dec k v m) ≡ ite (dec q k) (some v) (lookup dec q m)
  unfolding insert lookup
  lookup-insert q k v m = ground (arith, lookup-without dec q k m)

  length-insert :
      (k : K) (v w : V) (m : List (K × V))
      → Distinct dec m
      → lookup dec k m ≡ some w
      → length (insert dec k v m) ≡ length m
  unfolding insert
  length-insert k v w m d h = omega (arith, length-without dec k m w d h)

  length-insert_absent :
      (k : K) (v : V) (m : List (K × V))
      → lookup dec k m ≡ none
      → length (insert dec k v m) ≡ suc (length m)
  unfolding insert
  length-insert_absent k v m h = rw (without_absent dec k m h) refl

  -- A key that is there gets its new value and moves to the back.
  pub replaced :
      (k : K) (v w : V) (m : List (K × V)) (order : List K) (es : List (K × V))
      → Holds m order es
      → lookup dec k es ≡ some w
      → Holds (insert dec k v m) (put_back k order (remove_key dec k order)) (touch k v es)
  replaced k v w m order es h found = record {
    ordered = ground (arith, h.ordered, remove_key-keys k es w h.distinct found, keys-touch k v es);
    found = λ q. ground (arith, h.found q, lookup-touch q k v es, lookup-insert q k v m);
    sized = ground (
      arith,
      h.sized,
      h.found k,
      length-touch k v w es h.distinct found,
      length-insert k v w m h.map_distinct,
    );
    map_distinct = insert-Distinct k v m h.map_distinct;
    distinct = touch-Distinct k v es h.distinct;
  }

  -- A new key goes to the back.
  pub added :
      (k : K) (v : V) (m : List (K × V)) (order : List K) (es : List (K × V))
      → Holds m order es
      → lookup dec k es ≡ none
      → Holds (insert dec k v m) (order ++ k ∷ []) (touch k v es)
  added k v m order es h free = record {
    ordered = ground (arith, h.ordered, without_absent dec k es free, keys-touch k v es);
    found = λ q. ground (arith, h.found q, lookup-touch q k v es, lookup-insert q k v m);
    sized = ground (
      arith,
      h.sized,
      h.found k,
      without_absent dec k es free,
      length-append es ((k, v) ∷ []),
      length-insert_absent k v m,
    );
    map_distinct = insert-Distinct k v m h.map_distinct;
    distinct = touch-Distinct k v es h.distinct;
  }

  -- The oldest entry leaves.
  popped :
      (k : K) (v : V) (m : List (K × V)) (order : List K) (es : List (K × V))
      → Holds m (k ∷ order) ((k, v) ∷ es)
      → Holds (without dec k m) order es
  unfolding keys lookup
  popped k v m order es h = record {
    ordered = ground (arith, h.ordered);
    found = λ q. ground (arith, h.found q, lookup-without dec q k m, h.distinct.0);
    sized = ground (arith, h.sized, h.found k, length-without dec k m v h.map_distinct);
    map_distinct = without-Distinct dec k m h.map_distinct;
    distinct = h.distinct.1;
  }

  same_head :
      (k : K) (order : List K) (e : K × V) (m es : List (K × V))
      → Holds m (k ∷ order) (e ∷ es)
      → k ≡ e.0
  unfolding keys
  same_head k order e m es h = ground (arith, h.ordered)

  popped_head :
      (k : K) (order : List K) (e : K × V) (m es : List (K × V))
      → Holds m (k ∷ order) (e ∷ es)
      → Holds (without dec k m) order es
  popped_head k order e m es h =
      let p : k ≡ e.0 = same_head k order e m es h in
      rw p (popped e.0 e.1 m order es (subst (λ j. Holds m (j ∷ order) (e ∷ es)) p h))

  drop_more :
      (capacity n : ℕ) (e : K × V) (es : List (K × V))
      → capacity ≤ suc n
      → drop (suc (suc n) - capacity) (e ∷ es) ≡ drop (suc n - capacity) es
  drop_more capacity n e es h =
      let p : suc (suc n) - capacity ≡ suc (suc n - capacity) = omega arith in
      ap (λ j. drop j (e ∷ es)) p

  drop_none : (j : ℕ) (es : List (K × V)) → j ≡ 0 → drop j es ≡ es
  drop_none j es h = ap (λ i. drop i es) h ∙ drop-zero es

  pub evict-Holds :
      (capacity : ℕ) (m : List (K × V)) (order : List K) (es : List (K × V))
      → 1 ≤ capacity
      → Holds m order es
      → let (kept, queue) = evict dec capacity m order in
        Holds kept queue (drop (suc (length es) - capacity) es)
  unfolding evict keys
  evict-Holds capacity m [] [] hc h = h
  evict-Holds capacity m [] (e ∷ es) hc h = absurd (ground (arith, h.ordered))
  evict-Holds capacity m (k ∷ order) [] hc h = absurd (ground (arith, h.ordered))
  evict-Holds capacity m (k ∷ order) (e ∷ es) hc h =
      let ih = evict-Holds capacity (without dec k m) order es hc (popped_head k order e m es h) in
      elim (Bool-cases (leb capacity (length m))) [
        | inl full ↦
            let le : capacity ≤ suc (length es) = ground (arith, full, h.sized) in
            rw (full, drop_more capacity (length es) e es le) ih
        | inr room ↦
            let z : suc (suc (length es)) - capacity ≡ 0 = ground (arith, room, h.sized) in
            rw (room, drop_none _ (e ∷ es) z) h
      ]
