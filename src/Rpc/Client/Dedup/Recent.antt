-- ===== src/Rpc/Client/Dedup/Recent.antt =====
-- src/rpc/client.rs, `DedupState`: the list of entries that its operations are compared with.
use mathlib.Core.List.{lookup}
use soroban_cost_estimator.Prelude.{
  ℕ, zero, suc, ◌-◌, ◌≤◌, ◌≡◌, refl, Option, none, some, List, [], ◌∷◌, ◌++◌, length, arith, drop,
  drop-zero, length-append, length-drop, ap, sym, ◌∙◌,
}
use soroban_cost_estimator.Rpc.Client.Dedup.Map.{without_absent}
use soroban_cost_estimator.Rpc.Client.Dedup.Held.{touch}

module _ {K V : Type 0} (dec : Discrete K) where
  -- The specification: an entry that is used moves to the back, and the newest `capacity` stay.
  abbrev pub touch_found : K → List (K × V) → Option V → List (K × V)
  touch_found key es none = es
  touch_found key es (some value) = touch dec key value es

  unfoldable pub recent_get : K → List (K × V) → List (K × V)
  recent_get key es = touch_found key es (lookup dec key es)

  unfoldable pub recent_insert : ℕ → K → V → List (K × V) → List (K × V)
  recent_insert capacity key value es =
      let all = touch dec key value es in drop (length all - capacity) all

  drop_all : (xs : List (K × V)) → drop (length xs) xs ≡ []
  drop_all [] = refl
  drop_all (x ∷ xs) = drop_all xs

  -- Of the entries with a new one behind them, all but the oldest stay.
  drop_snoc :
      (n : ℕ) (e : K × V) (es : List (K × V))
      → n ≤ length es
      → drop n (es ++ e ∷ []) ≡ drop n es ++ e ∷ []
  drop_snoc zero e es h = rw (drop-zero es) (drop-zero (es ++ e ∷ []))
  drop_snoc (suc n) e [] h = absurd (omega arith)
  drop_snoc (suc n) e (x ∷ es) h = drop_snoc n e es (omega arith)

  nothing : (es : List (K × V)) → length es ≤ 0 → es ≡ []
  nothing [] h = refl
  nothing (e ∷ es) h = absurd (omega arith)

  pub lookup-drop_absent :
      (k : K) (n : ℕ) (es : List (K × V)) → lookup dec k es ≡ none → lookup dec k (drop n es) ≡ none
  unfolding lookup
  lookup-drop_absent k n [] h = h
  lookup-drop_absent k zero (e ∷ es) h = h
  lookup-drop_absent k (suc n) (e ∷ es) h = lookup-drop_absent k n es (ground arith)

  pub recent_insert_full :
      (capacity : ℕ) (k : K) (v : V) (es : List (K × V))
      → capacity ≡ 0
      → length es ≤ capacity
      → recent_insert capacity k v es ≡ es
  unfolding recent_insert
  recent_insert_full capacity k v es z h =
      let all = touch dec k v es in
      let n : length all - capacity ≡ length all = omega arith in
      ap (λ i. drop i all) n ∙ drop_all all ∙ sym (nothing es (omega arith))

  pub recent_insert_hit :
      (capacity : ℕ) (k : K) (v : V) (es : List (K × V))
      → length (touch dec k v es) ≡ length es
      → length es ≤ capacity
      → recent_insert capacity k v es ≡ touch dec k v es
  unfolding recent_insert
  recent_insert_hit capacity k v es len h =
      let all = touch dec k v es in
      let n : length all - capacity ≡ 0 = omega arith in ap (λ i. drop i all) n ∙ drop-zero all

  -- A new entry goes behind those that stay.
  pub recent_insert_miss :
      (capacity : ℕ) (k : K) (v : V) (es : List (K × V))
      → 1 ≤ capacity
      → lookup dec k es ≡ none
      → recent_insert capacity k v es ≡ touch dec k v (drop (suc (length es) - capacity) es)
  unfolding recent_insert
  recent_insert_miss capacity k v es hc miss =
      let n = suc (length es) - capacity in
      let le : n ≤ length es = omega arith in
      let len : length (es ++ (k, v) ∷ []) - capacity ≡ n =
        omega (arith, length-append es ((k, v) ∷ [])) in
      rw
        (
          without_absent dec k es miss,
          without_absent dec k (drop n es) (lookup-drop_absent k n es miss),
          len,
        )
        (drop_snoc n (k, v) es le)

  pub length-touch_miss :
      (capacity : ℕ) (k : K) (v : V) (es : List (K × V))
      → 1 ≤ capacity
      → lookup dec k es ≡ none
      → length (touch dec k v (drop (suc (length es) - capacity) es)) ≤ capacity
  length-touch_miss capacity k v es hc miss =
      let n = suc (length es) - capacity in
      rw (without_absent dec k (drop n es) (lookup-drop_absent k n es miss))
        (omega (arith, length-append (drop n es) ((k, v) ∷ []), length-drop n es))
