-- ===== src/Rpc/Client/Dedup/Map.antt =====
-- src/rpc/client.rs: a map as the list of its entries, for `DedupState`.
use mathlib.Core.List.{lookup}
use mathlib.Core.Logic.{ite}
use soroban_cost_estimator.Prelude.{◌+◌, ◌≡◌, refl, none, some, List, [], ◌∷◌, ◌++◌, length, arith}

module _ {K V : Type 0} where
  unfoldable pub keys : List (K × V) → List K
  keys [] = []
  keys (e ∷ l) = e.0 ∷ keys l

  pub keys-append : (l m : List (K × V)) → keys (l ++ m) ≡ keys l ++ keys m
  unfolding keys
  keys-append [] m = refl
  keys-append (e ∷ l) m = ground (arith, keys-append l m)

module _ {K V : Type 0} (dec : Discrete K) where
  -- The entries of the other keys.
  unfoldable pub without : K → List (K × V) → List (K × V)
  without key [] = []
  without key (e ∷ l) = let rest = without key l in ite (dec e.0 key) rest (e ∷ rest)

  -- `HashMap::insert`
  unfoldable pub insert : K → V → List (K × V) → List (K × V)
  unfolding without
  insert key value l = (key, value) ∷ without key l

  -- No key has two entries.
  abbrev pub Distinct : List (K × V) → Type 0
  Distinct [] = Unit
  Distinct (e ∷ l) = (lookup dec e.0 l ≡ none) × Distinct l

  pub lookup-without :
      (q k : K) (l : List (K × V))
      → lookup dec q (without k l) ≡ ite (dec q k) none (lookup dec q l)
  unfolding lookup without
  lookup-without q k [] = ground arith
  lookup-without q k (e ∷ l) = ground (arith, lookup-without q k l)

  pub without-Distinct : (k : K) (l : List (K × V)) → Distinct l → Distinct (without k l)
  unfolding without
  without-Distinct k [] d = tt
  without-Distinct k (e ∷ l) d = ground (arith, without-Distinct k l d.1, lookup-without e.0 k l)

  pub without_absent : (k : K) (l : List (K × V)) → lookup dec k l ≡ none → without k l ≡ l
  unfolding lookup without
  without_absent k [] h = refl
  without_absent k (e ∷ l) h = ground (arith, without_absent k l)

  pub length-without :
      (k : K) (l : List (K × V)) (v : V)
      → Distinct l
      → lookup dec k l ≡ some v
      → length (without k l) + 1 ≡ length l
  unfolding lookup without
  length-without k [] v d h = cc
  length-without k (e ∷ l) v d h = ground (arith, length-without k l v d.1, without_absent k l)

  pub lookup-snoc :
      (q k : K) (v : V) (l : List (K × V))
      → lookup dec k l ≡ none
      → lookup dec q (l ++ (k, v) ∷ []) ≡ ite (dec q k) (some v) (lookup dec q l)
  unfolding lookup
  lookup-snoc q k v [] h = ground arith
  lookup-snoc q k v (e ∷ l) h = ground (arith, lookup-snoc q k v l)

  pub snoc-Distinct :
      (k : K) (v : V) (l : List (K × V))
      → lookup dec k l ≡ none
      → Distinct l
      → Distinct (l ++ (k, v) ∷ [])
  unfolding lookup
  snoc-Distinct k v [] h d = ground arith
  snoc-Distinct k v (e ∷ l) h d = ground (arith, snoc-Distinct k v l, lookup-snoc e.0 k v l)
