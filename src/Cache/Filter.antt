-- ===== src/Cache/Filter.antt =====
-- src/cache.rs: the filter of cached estimates, queries, pages and deletion. The table `estimates` is
-- the list of its rows, already migrated. The parses of timestamps by `chrono` and the check of a
-- network's name are parameters; instants are counted from an origin before all of them.
pub mod Pages
use Prim.Native.Char.{Char, code}
use Prim.Native.String
use Prim.Native.String.{String}
use text.Mathlib.Text.{◌==◌ as str_eq}
use soroban_cost_estimator.Prelude.{
  ℕ, zero, suc, ◌+◌, ◌-◌, min, Bool, true, false, ◌&&◌, ◌||◌, not, ltb, leb, if◌then◌else◌, Option,
  none, some, List, [], ◌∷◌, length, drop,
}
use soroban_cost_estimator.Prelude.Int.{ℤ, ltb_ℤ, is_neg}
use soroban_cost_estimator.Text.{chars, of_chars, ◌<>◌, show_ℤ, is_digit}
use soroban_cost_estimator.Text.Parse.{trim}
use soroban_cost_estimator.Text.Search.{strip_prefix, lowercase}
use soroban_cost_estimator.Wasm.Args.{is_hex_digit, all, byte_len}
use soroban_cost_estimator.Error.{Externals, AppError, general, ok, err, AppResult, ◌>>=◌}
use soroban_cost_estimator.Snapshot.Payload.{is_greater}
use soroban_cost_estimator.Cache.{CachedEstimate}

abbrev pub max_list_limit : ℕ
max_list_limit = 1000

-- `chrono::DateTime<Utc>`: the instant of a timestamp, and its print.
pub record Times : Type 0 where
  pub parse_entry_timestamp : String → Option ℕ
  pub print : ℕ → String

pub record CacheFilter : Type 0 where
  pub function : Option String
  pub wasm_hash : Option String
  pub network : Option String
  pub min_fee : Option ℤ
  pub max_fee : Option ℤ
  pub since : Option ℕ
  pub to : Option ℕ

abbrev decimal : ℤ → String
decimal z = of_chars (show_ℤ z)

abbrev is_empty : String → Bool
is_empty s = str_eq s ""

abbrev bad_hash : List Char → Bool
bad_hash [] = true
bad_hash (c ∷ s) = ltb 64 (byte_len (c ∷ s)) || not (all is_hex_digit (c ∷ s))

module _ {x : Externals} (times : Times) where
  abbrev refuse_if : Bool → String → AppResult x Unit
  refuse_if true message = err (general message)
  refuse_if false message = ok tt

  abbrev check_function : Option String → AppResult x Unit
  check_function none = ok tt
  check_function (some f) = refuse_if (is_empty f) "function name filter cannot be empty"

  -- `quoted` is the debug print of the text.
  abbrev check_hash : (String → String) → Option String → AppResult x Unit
  check_hash quoted none = ok tt
  check_hash quoted (some hash) =
      refuse_if (bad_hash (trim (chars hash)))
        ("invalid wasm hash filter " <> quoted hash <> ": expected up to 64 hexadecimal characters")

  abbrev check_fee : String → Option ℤ → AppResult x Unit
  check_fee name none = ok tt
  check_fee name (some fee) =
      refuse_if (is_neg fee) (name <> " cannot be negative: " <> decimal fee)

  abbrev check_fees : Option ℤ → Option ℤ → AppResult x Unit
  check_fees (some min_fee) (some max_fee) = refuse_if (ltb_ℤ max_fee min_fee) (
      "invalid fee range: min-fee ("
      <> decimal min_fee
      <> ") cannot exceed max-fee ("
      <> decimal max_fee
      <> ")")
  check_fees _ _ = ok tt

  abbrev check_dates : Option ℕ → Option ℕ → AppResult x Unit
  check_dates (some since) (some to) = refuse_if (ltb to since) (
      "invalid date range: since ("
      <> times.print since
      <> ") cannot be after to ("
      <> times.print to
      <> ")")
  check_dates _ _ = ok tt

  abbrev check_network : (String → AppResult x (List Char)) → Option String → AppResult x Unit
  check_network resolve none = ok tt
  check_network resolve (some net) = do _ ← resolve net; ok tt

  unfoldable pub validate :
      (resolve_endpoint : String → AppResult x (List Char)) (quoted : String → String)
      → CacheFilter
      → AppResult x Unit
  unfolding trim chars is_digit
  validate resolve_endpoint quoted filter = do
    _ ← check_network resolve_endpoint filter.network
    _ ← check_function filter.function
    _ ← check_hash quoted filter.wasm_hash
    _ ← check_fee "min-fee" filter.min_fee
    _ ← check_fee "max-fee" filter.max_fee
    _ ← check_fees filter.min_fee filter.max_fee
    check_dates filter.since filter.to

abbrev pub is_same : Option String → String → Bool
is_same none s = true
is_same (some wanted) s = str_eq s wanted

abbrev pub begins : Option (List Char) → Bool
begins none = false
begins (some rest) = true

abbrev pub has_hash : Option String → String → Bool
has_hash none hash = true
has_hash (some wanted) hash =
    begins (strip_prefix (lowercase (trim (chars wanted))) (lowercase (chars hash)))

abbrev pub at_least : Option ℤ → ℤ → Bool
at_least none fee = true
at_least (some min_fee) fee = not (ltb_ℤ fee min_fee)

abbrev pub at_most : Option ℤ → ℤ → Bool
at_most none fee = true
at_most (some max_fee) fee = not (ltb_ℤ max_fee fee)

-- An entry whose timestamp cannot be read is outside every range of dates.
abbrev pub not_before : Option ℕ → Option ℕ → Bool
not_before none ts = true
not_before (some since) none = false
not_before (some since) (some ts) = not (ltb ts since)

abbrev pub not_after : Option ℕ → Option ℕ → Bool
not_after none ts = true
not_after (some to) none = false
not_after (some to) (some ts) = not (ltb to ts)

module _ (times : Times) where
  abbrev pub instant : CachedEstimate → Option ℕ
  instant e = times.parse_entry_timestamp e.timestamp

  unfoldable pub matches : CacheFilter → CachedEstimate → Bool
  unfolding strip_prefix lowercase trim chars
  matches filter e =
      is_same filter.function e.function
      && (has_hash filter.wasm_hash e.wasm_hash
          && (is_same filter.network e.network
              && (at_least filter.min_fee e.total_stroops
                  && (at_most filter.max_fee e.total_stroops
                      && (not_before filter.since (instant e)
                          && not_after filter.to (instant e))))))

  unfoldable pub matching : CacheFilter → List CachedEstimate → List CachedEstimate
  unfolding matches
  matching filter [] = []
  matching filter (e ∷ es) =
      let rest = matching filter es in if matches filter e then e ∷ rest else rest

  -- The rows that stay when those that match are deleted, and the number of those that go.
  unfoldable pub remaining : CacheFilter → List CachedEstimate → List CachedEstimate
  unfolding matches
  remaining filter [] = []
  remaining filter (e ∷ es) =
      let rest = remaining filter es in if matches filter e then rest else e ∷ rest

-- The stable `sort_by(|a, b| b.timestamp.cmp(&a.timestamp))`
unfoldable pub insert_newest : CachedEstimate → List CachedEstimate → List CachedEstimate
insert_newest e [] = e ∷ []
insert_newest e (d ∷ ds) =
    let rest = insert_newest e ds in
    if is_greater (String.compare d.timestamp e.timestamp) then d ∷ rest else e ∷ d ∷ ds

unfoldable pub newest_first : List CachedEstimate → List CachedEstimate
unfolding insert_newest
newest_first [] = []
newest_first (e ∷ es) = insert_newest e (newest_first es)

-- `WHERE network = ?1`, where a network is given
unfoldable pub of_network : Option String → List CachedEstimate → List CachedEstimate
of_network network [] = []
of_network network (e ∷ es) =
    let rest = of_network network es in if is_same network e.network then e ∷ rest else rest

abbrev pub take : {A : Type 0} → ℕ → List A → List A
take zero xs = []
take (suc n) [] = []
take (suc n) (x ∷ xs) = x ∷ take n xs

pub record CacheListing : Type 0 where
  pub entries : List CachedEstimate
  pub total : ℕ
  pub offset : ℕ
  pub limit : ℕ

module _ {x : Externals} (times : Times) (resolve_endpoint : String → AppResult x (List Char))
    (quoted : String → String) (table : List CachedEstimate) where
  unfoldable pub query_cache : CacheFilter → AppResult x (List CachedEstimate)
  unfolding validate newest_first of_network matching
  query_cache filter = do
    _ ← validate times resolve_endpoint quoted filter
    ok (matching times filter (newest_first (of_network filter.network table)))

  abbrev pub listing : ℕ → ℕ → List CachedEstimate → CacheListing
  listing limit offset matched = record {
    entries = take limit (drop offset matched);
    total = length matched;
    offset = offset;
    limit = limit;
  }

  unfoldable pub list_cached_estimates_paginated :
      CacheFilter → (limit offset : ℕ) → AppResult x CacheListing
  unfolding query_cache
  list_cached_estimates_paginated filter limit offset = do
    matched ← query_cache filter
    ok (listing (min limit max_list_limit) offset matched)

  unfoldable pub count_cached_estimates : CacheFilter → AppResult x ℕ
  unfolding query_cache
  count_cached_estimates filter = do matched ← query_cache filter; ok (length matched)

  -- The rows that stay, and how many are deleted.
  unfoldable pub delete_cached_estimates : CacheFilter → AppResult x (List CachedEstimate × ℕ)
  unfolding validate matching remaining
  delete_cached_estimates filter = do
    _ ← validate times resolve_endpoint quoted filter
    ok (remaining times filter table, length (matching times filter table))
