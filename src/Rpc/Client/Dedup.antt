-- ===== src/Rpc/Client/Dedup.antt =====
-- src/rpc/client.rs, `DedupState`: the results of completed requests, kept up to a capacity. A
-- `HashMap` is the list of its entries; a key and a value are any types, for keys with a decidable
-- equality. The field `in_flight`, the requests that are still running, is not modelled.
pub mod Map
pub mod Held
pub mod Recent
pub mod Lru
use mathlib.Core.List.{lookup}
use mathlib.Core.Logic.{ite}
use soroban_cost_estimator.Prelude.{
  ℕ, leb, ◌==◌, if◌then◌else◌, Option, none, some, List, [], ◌∷◌, ◌++◌, length,
}
use soroban_cost_estimator.Rpc.Client.Dedup.Map.{without, insert}

abbrev pub default_dedup_cache_capacity : ℕ
default_dedup_cache_capacity = 256

pub record DedupState (K V : Type 0) : Type 0 where
  pub capacity : ℕ
  pub completed : List (K × V)
  pub order : List K

unfoldable pub with_capacity : {K V : Type 0} → ℕ → DedupState K V
with_capacity capacity = record { capacity = capacity; completed = []; order = [] }

abbrev kept : {K : Type 0} → K → Option (List K) → Option (List K)
kept k none = none
kept k (some rest) = some (k ∷ rest)

-- To the back, if the key is there.
abbrev pub move_back : {K : Type 0} → K → List K → Option (List K) → List K
move_back key order none = order
move_back key order (some rest) = rest ++ key ∷ []

-- To the back, also if the key is not there.
abbrev pub put_back : {K : Type 0} → K → List K → Option (List K) → List K
put_back key order none = order ++ key ∷ []
put_back key order (some rest) = rest ++ key ∷ []

module _ {K : Type 0} (dec : Discrete K) where
  -- `order.iter().position(|k| k == key)` and then `order.remove(pos)`
  unfoldable pub remove_key : K → List K → Option (List K)
  remove_key key [] = none
  remove_key key (k ∷ order) =
      let rest = remove_key key order in ite (dec k key) (some order) (kept k rest)

module _ {K V : Type 0} (dec : Discrete K) where
  abbrev get_found : K → DedupState K V → Option V → DedupState K V × Option V
  get_found key s none = (s, none)
  get_found key s (some value) =
      (record s { order = move_back key s.order (remove_key dec key s.order) }, some value)

  unfoldable pub get_completed : K → DedupState K V → DedupState K V × Option V
  unfolding remove_key
  get_completed key s = get_found key s (lookup dec key s.completed)

  -- The loop that pops the oldest key while the map is full.
  unfoldable pub evict : ℕ → List (K × V) → List K → List (K × V) × List K
  evict capacity completed [] = (completed, [])
  evict capacity completed (oldest ∷ order) =
      let rest = evict capacity (without dec oldest completed) order in
      if leb capacity (length completed) then rest else (completed, oldest ∷ order)

  abbrev insert_found : K → V → DedupState K V → Option V → DedupState K V
  insert_found key value s (some old) = record s {
    completed = insert dec key value s.completed;
    order = put_back key s.order (remove_key dec key s.order);
  }
  insert_found key value s none =
      let (completed, order) = evict s.capacity s.completed s.order in
      record s { completed = insert dec key value completed; order = order ++ key ∷ [] }

  unfoldable pub insert_completed : K → V → DedupState K V → DedupState K V
  unfolding remove_key evict insert
  insert_completed key value s =
      if s.capacity == 0 then s else insert_found key value s (lookup dec key s.completed)
