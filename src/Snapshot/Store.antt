-- ===== src/Snapshot/Store.antt =====
-- src/config_snapshot/store.rs: the names of the snapshot files, their order, and which of them is the
-- latest. A directory is the list of its files' names in the order in which it is read; a name is the
-- list of its characters, and the path of a file is its name behind that of the directory. The parse
-- of a timestamp by `chrono` is a parameter; instants are counted from an origin before all of them.
pub mod Undated
pub mod Order
pub mod Latest
use Prim.Native.Char.{Char, code}
use Prim.Native.Nat.{Ordering}
use Prim.Native.String
use Prim.Native.String.{String}
use soroban_cost_estimator.Prelude.{
  ℕ, zero, suc, ◌-◌, Bool, true, false, ◌||◌, ◌&&◌, ltb, ◌==◌, if◌then◌else◌, Option, none, some,
  List, [], ◌∷◌, ◌++◌, length,
}
use soroban_cost_estimator.Text.{chars, of_chars, split}
use soroban_cost_estimator.Text.Search.{strip_prefix, split_once, eq_chars}
use soroban_cost_estimator.Error.{
  Externals, AppError, no_snapshots, not_enough_snapshots, ok, err, AppResult,
}
use soroban_cost_estimator.Snapshot.Payload.{is_greater}

abbrev pub in_front : Char → Option (List Char) → Option (List Char)
in_front c none = none
in_front c (some s) = some (c ∷ s)

unfoldable pub strip_suffix : List Char → List Char → Option (List Char)
unfolding eq_chars
strip_suffix pat [] = if eq_chars [] pat then some [] else none
strip_suffix pat (c ∷ s) =
    let rest = strip_suffix pat s in if eq_chars (c ∷ s) pat then some [] else in_front c rest

abbrev pub is_sign : Char → Bool
is_sign c = code c == b'+' || code c == b'-'

-- `rfind(['+', '-'])`: the text in front of the last sign, and the text from it on.
abbrev pub from_sign :
    Char → List Char → Option (List Char × List Char) → Option (List Char × List Char)
from_sign c s (some (a, b)) = some (c ∷ a, b)
from_sign c s none = if is_sign c then some ([], c ∷ s) else none

unfoldable pub split_sign : List Char → Option (List Char × List Char)
split_sign [] = none
split_sign (c ∷ s) = from_sign c s (split_sign s)

abbrev pub colon : List Char → List Char → List Char
colon a b = a ++ (chars ":" ++ b)

-- `(clock, offset)` where the offset sign stands in the field of the seconds.
abbrev pub signed_clock :
    (hour minute offset_minute : List Char) → Option (List Char × List Char) → Option (List Char)
signed_clock hour minute offset_minute none = none
signed_clock hour minute offset_minute (some (seconds, sign)) =
    some (colon hour (colon minute seconds) ++ colon sign offset_minute)

-- The clock with its offset, from the fields of the time.
unfoldable pub clock_of : List (List Char) → Option (List Char)
unfolding chars split_sign
clock_of (hour ∷ minute ∷ second ∷ []) = some (colon hour (colon minute second))
clock_of (hour ∷ minute ∷ second ∷ offset_minute ∷ []) =
    signed_clock hour minute offset_minute (split_sign second)
clock_of (hour ∷ minute ∷ second ∷ offset_hour ∷ offset_minute ∷ []) =
    some (colon hour (colon minute second) ++ (chars "-" ++ colon offset_hour offset_minute))
clock_of _ = none

abbrev pub is_nil : List Char → Bool
is_nil [] = true
is_nil (c ∷ s) = false

abbrev pub dated : List Char → Option (List Char) → Option (List Char)
dated date none = none
dated date (some clock) = some (date ++ (chars "T" ++ clock))

abbrev pub of_date : Option (List Char × List Char) → Option (List Char)
of_date none = none
of_date (some (date, time)) = dated date (clock_of (split b'-' time))

abbrev pub of_stem : Option (List Char) → Option (List Char)
of_stem none = none
of_stem (some stem) = if is_nil stem then none else of_date (split_once (chars "T") stem)

abbrev pub of_name : Option (List Char) → Option (List Char)
of_name none = none
of_name (some rest) = of_stem (strip_suffix (chars ".json") rest)

module _ (parse_from_rfc3339 : List Char → Option ℕ) where
  abbrev pub if_parsed : Option (List Char) → Option ℕ → Option (List Char)
  if_parsed timestamp none = none
  if_parsed timestamp (some instant) = timestamp

  abbrev pub parsed : Option (List Char) → Option ℕ
  parsed none = none
  parsed (some timestamp) = parse_from_rfc3339 timestamp

  unfoldable pub timestamp_from_filename : (network filename : List Char) → Option (List Char)
  unfolding clock_of strip_prefix strip_suffix split_once split chars
  timestamp_from_filename network filename =
      let timestamp = of_name (strip_prefix (network ++ chars "-") filename) in
      if_parsed timestamp (parsed timestamp)

  unfoldable pub embedded_timestamp : (network filename : List Char) → Option ℕ
  unfolding timestamp_from_filename
  embedded_timestamp network filename = parsed (timestamp_from_filename network filename)

  -- `starts_with("{network}-") && ends_with(".json")`
  abbrev pub there : {A : Type 0} → Option A → Bool
  there none = false
  there (some a) = true

  unfoldable pub is_snapshot_name : (network filename : List Char) → Bool
  unfolding strip_prefix strip_suffix chars
  is_snapshot_name network filename =
      there (strip_prefix (network ++ chars "-") filename)
      && there (strip_suffix (chars ".json") filename)

  unfoldable pub candidates : List Char → List (List Char) → List (Option ℕ × List Char)
  unfolding embedded_timestamp is_snapshot_name
  candidates network [] = []
  candidates network (name ∷ names) =
      let rest = candidates network names in
      if is_snapshot_name network name then (embedded_timestamp network name, name) ∷ rest else rest

abbrev pub Candidate : Type 0
Candidate = Option ℕ × List Char

-- The comparator puts the first behind the second.
abbrev pub comes_after : Candidate → Candidate → Bool
comes_after (some a, p) (some b, q) = ltb b a
comes_after (some a, p) (none, q) = false
comes_after (none, p) (some b, q) = true
comes_after (none, p) (none, q) = is_greater (String.compare (of_chars p) (of_chars q))

unfoldable pub insert : Candidate → List Candidate → List Candidate
insert a [] = a ∷ []
insert a (b ∷ bs) = let rest = insert a bs in if comes_after a b then b ∷ rest else a ∷ b ∷ bs

unfoldable pub sort : List Candidate → List Candidate
unfolding insert
sort [] = []
sort (a ∷ rest) = insert a (sort rest)

-- `list_snapshots_in`, with the instants of the files.
unfoldable pub list_snapshots_in :
    (List Char → Option ℕ) → List Char → List (List Char) → List Candidate
unfolding candidates sort
list_snapshots_in parse network names = sort (candidates parse network names)

-- The loop that looks for the newest instant, with the best one so far.
abbrev pub better : Candidate → Option (ℕ × List Char) → Option (ℕ × List Char)
better (none, path) best = best
better (some t, path) none = some (t, path)
better (some t, path) (some (b, p)) = if ltb b t then some (t, path) else some (b, p)

unfoldable pub newest_from : Option (ℕ × List Char) → List Candidate → Option (ℕ × List Char)
newest_from best [] = best
newest_from best (c ∷ cs) = newest_from (better c best) cs

-- The first of the paths in descending order.
unfoldable pub greatest_from : List Char → List Candidate → List Char
greatest_from p [] = p
greatest_from p ((t, q) ∷ cs) =
    greatest_from (if is_greater (String.compare (of_chars q) (of_chars p)) then q else p) cs

abbrev pub or_greatest : List Char → List Candidate → Option (ℕ × List Char) → List Char
or_greatest first rest (some (t, path)) = path
or_greatest first rest none = greatest_from first rest

-- The last two of a list of at least two.
abbrev pub last_two : Candidate → Candidate → List Candidate → Candidate × Candidate
last_two a b [] = (a, b)
last_two a b (c ∷ cs) = last_two b c cs

module _ {x : Externals} where
  abbrev pub select : List Char → List Candidate → AppResult x (List Char)
  select network [] = err (no_snapshots (of_chars network))
  select network ((t, p) ∷ cs) = ok (or_greatest p cs (newest_from none ((t, p) ∷ cs)))

  unfoldable pub select_latest_snapshot :
      (List Char → Option ℕ) → List Char → List (List Char) → AppResult x (List Char)
  unfolding candidates newest_from greatest_from
  select_latest_snapshot parse network names = select network (candidates parse network names)

  abbrev pub pick_two : List Char → List Candidate → AppResult x (Candidate × Candidate)
  pick_two network (a ∷ b ∷ cs) = ok (last_two a b cs)
  pick_two network cs = err (not_enough_snapshots (of_chars network) (length cs))

  -- The two files that `load_last_two_snapshots` reads: the previous one and the latest.
  unfoldable pub last_two_paths :
      (List Char → Option ℕ) → List Char → List (List Char) → AppResult x (Candidate × Candidate)
  unfolding list_snapshots_in
  last_two_paths parse network names = pick_two network (list_snapshots_in parse network names)
