-- ===== src/Cache/Filter/Pages.antt =====
-- src/cache.rs, `list_cached_estimates_paginated`: the pages of a query.
use Prim.Native.Char.{Char}
use Prim.Native.String.{String}
use soroban_cost_estimator.Prelude.{
  ℕ, zero, suc, ◌+◌, ◌*◌, ◌≤◌, ◌≡◌, refl, min, List, [], ◌∷◌, ◌++◌, arith, length, drop, drop-drop,
  drop-zero, ap, ◌∙◌, sym,
}
use soroban_cost_estimator.Error.{Externals, ok, AppResult, ◌>>=◌}
use soroban_cost_estimator.Cache.{CachedEstimate}
use soroban_cost_estimator.Cache.Filter.{
  Times, CacheFilter, query_cache, take, list_cached_estimates_paginated, max_list_limit,
}

take-drop : {A : Type 0} (n : ℕ) (xs : List A) → take n xs ++ drop n xs ≡ xs
take-drop zero xs = drop-zero xs
take-drop (suc n) [] = refl
take-drop (suc n) (x ∷ xs) = ap (◌∷◌ x) (take-drop n xs)

drop_beyond : {A : Type 0} (n : ℕ) (xs : List A) → length xs ≤ n → drop n xs ≡ []
drop_beyond n [] h = refl
drop_beyond zero (x ∷ xs) h = absurd (omega arith)
drop_beyond (suc n) (x ∷ xs) h = drop_beyond n xs (omega arith)

module _ {x : Externals} (times : Times) (resolve_endpoint : String → AppResult x (List Char))
    (quoted : String → String) (table : List CachedEstimate) where
  -- The entries of so many pages of the same size, from this offset on.
  abbrev pub pages : CacheFilter → (limit count offset : ℕ) → AppResult x (List CachedEstimate)
  pages filter limit zero offset = ok []
  pages filter limit (suc count) offset = do
    page ← list_cached_estimates_paginated times resolve_endpoint quoted table filter limit offset
    rest ← pages filter limit count (offset + limit)
    ok (page.entries ++ rest)

  pages-drop :
      (filter : CacheFilter) (limit count offset : ℕ) (matched : List CachedEstimate)
      → limit ≤ max_list_limit
      → query_cache times resolve_endpoint quoted table filter ≡ ok matched
      → length matched ≤ offset + count * limit
      → pages filter limit count offset ≡ ok (drop offset matched)
  unfolding list_cached_estimates_paginated
  pages-drop filter limit zero offset matched hl e h =
      let all : length matched ≤ offset = omega arith in
      ap ok (sym (drop_beyond offset matched all))
  pages-drop filter limit (suc count) offset matched hl e h =
      let ih = pages-drop filter limit count (offset + limit) matched hl e (omega arith) in
      let m : min limit max_list_limit ≡ limit = omega arith in
      let more : drop (offset + limit) matched ≡ drop limit (drop offset matched) =
        sym (drop-drop limit offset matched) in
      rw (e, ih, m, more) (ap ok (take-drop limit (drop offset matched)))

  -- When a query succeeds, the entries of consecutive pages of a size up to 1000, enough of them to
  -- hold all matching entries, are exactly those entries, in order, none twice and none left out.
  pub list_cached_estimates_paginated-pages :
      (filter : CacheFilter) (limit count : ℕ) (matched : List CachedEstimate)
      → limit ≤ max_list_limit
      → query_cache times resolve_endpoint quoted table filter ≡ ok matched
      → length matched ≤ count * limit
      → pages filter limit count 0 ≡ ok matched
  list_cached_estimates_paginated-pages filter limit count matched hl e h =
      pages-drop filter limit count 0 matched hl e (omega arith) ∙ ap ok (drop-zero matched)
