-- ===== src/Snapshot/Store/Undated.antt =====
-- src/config_snapshot/store.rs: files whose names hold no timestamp.
use Prim.Native.Char.{Char}
use mathlib.Core.List.{Mem, mem-cons_self, mem-cons_of_mem}
use soroban_cost_estimator.Prelude.{
  ℕ, ◌≡◌, refl, inl, inr, Bool, true, false, ltb, any, Option, none, some, List, [], ◌∷◌, arith,
  Bool-cases, if◌then◌else◌, All, ◌||◌, ◌∙◌,
}
use soroban_cost_estimator.Error.{Externals, ok}
use soroban_cost_estimator.Snapshot.Store.{
  Candidate, candidates, insert, sort, list_snapshots_in, newest_from, select_latest_snapshot,
  select, last_two, pick_two, last_two_paths,
}

abbrev pub is_dated : Candidate → Bool
is_dated (none, path) = false
is_dated (some t, path) = true

abbrev pub is_undated : Candidate → Bool
is_undated (none, path) = true
is_undated (some t, path) = false

abbrev Undated : Candidate → Type 0
Undated c = is_undated c ≡ true

-- Behind an undated file there are only undated ones.
abbrev Parted : List Candidate → Type 0
Parted [] = Unit
Parted ((some t, path) ∷ cs) = Parted cs
Parted ((none, path) ∷ cs) = All Undated cs

Parted-Undated : (cs : List Candidate) → All Undated cs → Parted cs
Parted-Undated [] h = tt
Parted-Undated ((some t, p) ∷ cs) h = absurd (cc)
Parted-Undated ((none, p) ∷ cs) h = h.1

insert-Undated :
    (a : Candidate) (cs : List Candidate) → Undated a → All Undated cs → All Undated (insert a cs)
unfolding insert
insert-Undated a [] h hs = (h, tt)
insert-Undated a (b ∷ bs) h hs = ground (arith, insert-Undated a bs h hs.1)

insert-Parted : (a : Candidate) (cs : List Candidate) → Parted cs → Parted (insert a cs)
unfolding insert
insert-Parted (some t, p) [] h = tt
insert-Parted (none, p) [] h = tt
insert-Parted (some t, p) ((some u, q) ∷ bs) h = ground (arith, insert-Parted (some t, p) bs h)
insert-Parted (some t, p) ((none, q) ∷ bs) h = h
insert-Parted (none, p) ((some u, q) ∷ bs) h = insert-Parted (none, p) bs h
insert-Parted (none, p) ((none, q) ∷ bs) h = ground (arith, insert-Undated (none, p) bs refl h)

sort-Parted : (cs : List Candidate) → Parted (sort cs)
unfolding sort
sort-Parted [] = tt
sort-Parted (a ∷ cs) = insert-Parted a (sort cs) (sort-Parted cs)

any-insert :
    (a : Candidate) (cs : List Candidate) → any is_undated (insert a cs) ≡ any is_undated (a ∷ cs)
unfolding insert
any-insert a [] = refl
any-insert a (b ∷ bs) = ground (arith, any-insert a bs)

any-sort : (cs : List Candidate) → any is_undated (sort cs) ≡ any is_undated cs
unfolding sort
any-sort [] = refl
any-sort (a ∷ cs) = ground (arith, any-insert a (sort cs), any-sort cs)

-- The last of such a list is undated, if any is.
last_two-Undated :
    (a b : Candidate) (cs : List Candidate)
    → Parted (a ∷ b ∷ cs)
    → any is_undated (a ∷ b ∷ cs) ≡ true
    → Undated (last_two a b cs).1
last_two-Undated (some t, q) (some u, r) [] p h = absurd (cc)
last_two-Undated (some t, q) (none, r) [] p h = refl
last_two-Undated (none, q) b [] p h = p.0
last_two-Undated (some t, q) b (c ∷ cs) p h = last_two-Undated b c cs p h
last_two-Undated (none, q) b (c ∷ cs) p h =
    last_two-Undated b c cs (Parted-Undated (b ∷ c ∷ cs) p) (ground (arith, p.0))

pick_two-Undated :
    {x : Externals} (network : List Char) (cs : List Candidate) (pair : Candidate × Candidate)
    → Parted cs
    → any is_undated cs ≡ true
    → pick_two {x = x} network cs ≡ ok pair
    → Undated pair.1
pick_two-Undated network [] pair p h e = absurd (cc)
pick_two-Undated network (a ∷ []) pair p h e = absurd (cc)
pick_two-Undated {x} network (a ∷ b ∷ cs) pair p h e =
    let same : last_two a b cs ≡ pair = ground (arith, e) in
    rw same at (last_two-Undated a b cs p h)

-- What the loop has found is one of the dated files.
Found : List Candidate → Option (ℕ × List Char) → Type 0
Found cs none = Unit
Found cs (some (t, path)) = Mem (some t, path) cs

newest_from-Mem :
    (best : Option (ℕ × List Char)) (all cs : List Candidate)
    → ((c : Candidate) → Mem c cs → Mem c all)
    → Found all best
    → Found all (newest_from best cs)
unfolding newest_from Found
newest_from-Mem best all [] sub h = h
newest_from-Mem best all ((none, p) ∷ cs) sub h =
    newest_from-Mem best all cs (λ c m. sub c (mem-cons_of_mem (none, p) m)) h
newest_from-Mem none all ((some t, p) ∷ cs) sub h =
    newest_from-Mem (some (t, p)) all cs (λ c m. sub c (mem-cons_of_mem (some t, p) m))
      (sub (some t, p) mem-cons_self)
newest_from-Mem (some (b, q)) all ((some t, p) ∷ cs) sub h = elim (Bool-cases (ltb b t)) [
  | inl newer ↦ rw newer (
      newest_from-Mem (some (t, p)) all cs (λ c m. sub c (mem-cons_of_mem (some t, p) m))
        (sub (some t, p) mem-cons_self))
  | inr older ↦
      rw older
        (newest_from-Mem (some (b, q)) all cs (λ c m. sub c (mem-cons_of_mem (some t, p) m)) h)
]

found : Option (ℕ × List Char) → Bool
found none = false
found (some b) = true

newest_from-found :
    (best : Option (ℕ × List Char)) (cs : List Candidate)
    → (found best || any is_dated cs) ≡ true
    → found (newest_from best cs) ≡ true
unfolding newest_from found
newest_from-found none [] h = absurd (cc)
newest_from-found (some b) [] h = refl
newest_from-found best ((none, p) ∷ cs) h = newest_from-found best cs h
newest_from-found none ((some t, p) ∷ cs) h = newest_from-found (some (t, p)) cs refl
newest_from-found (some (b, q)) ((some t, p) ∷ cs) h =
    newest_from-found (if ltb b t then some (t, p) else some (b, q)) cs (ground arith)

select-dated :
    {x : Externals} (network : List Char) (cs : List Candidate)
    → any is_dated cs ≡ true
    → (t : ℕ) × (path : List Char) × (select {x = x} network cs ≡ ok path) × Mem (some t, path) cs
unfolding Found found
select-dated network [] h = absurd (cc)
select-dated {x} network ((t, p) ∷ cs) h =
    of (newest_from none ((t, p) ∷ cs)) refl (newest_from-found none ((t, p) ∷ cs) h)
      (newest_from-Mem none ((t, p) ∷ cs) ((t, p) ∷ cs) (λ c m. m) tt)
  where
    of :
        (o : Option (ℕ × List Char))
        → newest_from none ((t, p) ∷ cs) ≡ o
        → found o ≡ true
        → Found ((t, p) ∷ cs) o
        → (t' : ℕ) × (path : List Char) × (select {x = x} network ((t, p) ∷ cs) ≡ ok path)
          × Mem (some t', path) ((t, p) ∷ cs)
    of none e f m = absurd (cc)
    of (some (u, path)) e f m = (u, path, rw e refl, m)

-- If a directory has both a file with a timestamp in its name and one without, and two files are
-- found to compare, then the one taken for the latest is one without a timestamp, while the
-- selection of the latest snapshot returns one with a timestamp.
pub last_two_paths-undated :
    {x : Externals} (parse : List Char → Option ℕ) (network : List Char) (names : List (List Char))
    (pair : Candidate × Candidate)
    → any is_dated (candidates parse network names) ≡ true
    → any is_undated (candidates parse network names) ≡ true
    → last_two_paths {x = x} parse network names ≡ ok pair
    → (is_undated pair.1 ≡ true)
      × ((t : ℕ) × (path : List Char) × (select_latest_snapshot {x = x} parse network names
            ≡ ok path)
          × Mem (some t, path) (candidates parse network names))
unfolding last_two_paths list_snapshots_in select_latest_snapshot
last_two_paths-undated {x} parse network names pair dated undated e =
    let cs = candidates parse network names in
    (
      pick_two-Undated {x = x} network (sort cs) pair (sort-Parted cs) (any-sort cs ∙ undated) e,
      select-dated network cs dated,
    )
