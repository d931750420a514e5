-- ===== src/Snapshot/Store/Latest.antt =====
-- src/config_snapshot/store.rs, `list_snapshots_in`: the order of the listed files.
use Prim.Native.Char.{Char}
use soroban_cost_estimator.Prelude.{
  ℕ, ◌≡◌, ◌≢◌, refl, inl, inr, false, Option, none, some, List, [], ◌∷◌, ◌++◌, arith, Bool-cases,
  All, ap, length, ◌==◌, ◌∙◌,
}
use soroban_cost_estimator.Snapshot.Store.{
  Candidate, comes_after, candidates, insert, sort, list_snapshots_in,
}
use soroban_cost_estimator.Snapshot.Store.Order.{
  later, Ascending, insert-All, sort-All, All-sort, sort-Ascending,
}

-- No two names are the same.
abbrev pub Distinct : List (List Char) → Type 0
Distinct [] = Unit
Distinct (n ∷ ns) = All (λ m. m ≢ n) ns × Distinct ns

abbrev pub Apart : List Candidate → Type 0
Apart [] = Unit
Apart (c ∷ cs) = All (λ d. d.1 ≢ c.1) cs × Apart cs

insert-Apart :
    (a : Candidate) (cs : List Candidate) → All (λ d. d.1 ≢ a.1) cs → Apart cs → Apart (insert a cs)
unfolding insert
insert-Apart a [] ha h = (tt, tt)
insert-Apart a (b ∷ bs) ha h = elim (Bool-cases (comes_after a b)) [
  | inl after ↦
      rw after (insert-All (λ d. d.1 ≢ b.1) a bs (λ e. ha.0 (cc)) h.0, insert-Apart a bs ha.1 h.1)
  | inr before ↦ rw before (ha, h)
]

sort-Apart : (cs : List Candidate) → Apart cs → Apart (sort cs)
unfolding sort
sort-Apart [] h = tt
sort-Apart (c ∷ cs) h =
    insert-Apart c (sort cs) (sort-All (λ d. d.1 ≢ c.1) cs h.0) (sort-Apart cs h.1)

module _ (parse : List Char → Option ℕ) (network : List Char) where
  pub candidates-All :
      (P : List Char → Type 0) (names : List (List Char))
      → All P names
      → All (λ c. P c.1) (candidates parse network names)
  unfolding candidates
  candidates-All P [] h = tt
  candidates-All P (n ∷ ns) h = ground (arith, candidates-All P ns h.1, h.0)

  candidates-Apart :
      (names : List (List Char)) → Distinct names → Apart (candidates parse network names)
  unfolding candidates
  candidates-Apart [] h = tt
  candidates-Apart (n ∷ ns) h =
      ground (arith, candidates-All (λ m. m ≢ n) ns h.0, candidates-Apart ns h.1)

-- A list that is not empty is its last element behind the others.
pub last_of :
    (c : Candidate) (cs : List Candidate)
    → (older : List Candidate) × (m : Candidate) × (c ∷ cs ≡ older ++ m ∷ [])
last_of c [] = ([], c, refl)
last_of c (d ∷ ds) = let (older, m, e) = last_of d ds in (c ∷ older, m, ap (λ l. c ∷ l) e)

pub Ascending-last :
    (older : List Candidate) (m : Candidate)
    → Ascending (older ++ m ∷ [])
    → All (λ d. later d m ≡ false) (older ++ m ∷ [])
unfolding later
Ascending-last [] (some t, p) h = (ground arith, tt)
Ascending-last [] (none, p) h = (refl, tt)
Ascending-last (c ∷ older) m h = (at_last older h.0, Ascending-last older m h.1)
  where
    at_last :
        (ds : List Candidate) → All (λ d. later c d ≡ false) (ds ++ m ∷ []) → later c m ≡ false
    at_last [] k = k.0
    at_last (d ∷ ds) k = at_last ds k.1

pub Apart-last :
    (older : List Candidate) (m : Candidate) → Apart (older ++ m ∷ []) → All (λ d. d.1 ≢ m.1) older
Apart-last [] m h = tt
Apart-last (c ∷ older) m h = ((λ e. at_last older h.0 (cc)), Apart-last older m h.1)
  where
    at_last : (ds : List Candidate) → All (λ d. d.1 ≢ c.1) (ds ++ m ∷ []) → m.1 ≢ c.1
    at_last [] k = k.0
    at_last (d ∷ ds) k = at_last ds k.1

-- The listed files are those of the directory, the latest one last, and no two have one name.
pub record Listed (cs older : List Candidate) (m : Candidate) : Type 1 where
  pub latest : All (λ c. later c m ≡ false) cs
  -- what holds of every file of the directory holds of the latest
  pub found : (P : Candidate → Type 0) → All P cs → P m
  pub others : All (λ d. d.1 ≢ m.1) older

insert-cons :
    (a : Candidate) (cs : List Candidate)
    → (d : Candidate) × (ds : List Candidate) × (insert a cs ≡ d ∷ ds)
unfolding insert
insert-cons a [] = (a, [], refl)
insert-cons a (b ∷ bs) = elim (Bool-cases (comes_after a b)) [
  | inl after ↦ (b, insert a bs, rw after refl)
  | inr before ↦ (a, b ∷ bs, rw before refl)
]

sort-last :
    (cs : List Candidate)
    → (length cs == 0) ≡ false
    → (older : List Candidate) × (m : Candidate) × (sort cs ≡ older ++ m ∷ [])
unfolding sort
sort-last [] h = absurd (cc)
sort-last (c ∷ cs) h =
    let (d, ds, e) = insert-cons c (sort cs) in
    let (older, m, f) = last_of d ds in (older, m, e ∙ f)

All-last :
    (P : Candidate → Type 0) (older : List Candidate) (m : Candidate)
    → All P (older ++ m ∷ [])
    → P m
All-last P [] m h = h.0
All-last P (c ∷ older) m h = All-last P older m h.1

-- A directory with a snapshot, in which no two files have one name, is listed with its latest
-- snapshot last.
pub list_snapshots_in-Listed :
    (parse : List Char → Option ℕ) (network : List Char) (names : List (List Char))
    → (length (candidates parse network names) == 0) ≡ false
    → Distinct names
    → (older : List Candidate) × (m : Candidate) × (list_snapshots_in parse network names
        ≡ older ++ m ∷ [])
      × Listed (candidates parse network names) older m
unfolding list_snapshots_in
list_snapshots_in-Listed parse network names some_file distinct =
    let cs = candidates parse network names in
    let (older, m, e) = sort-last cs some_file in
    let order = Ascending-last older m (rw e at (sort-Ascending cs)) in
    let apart =
      Apart-last older m
        (rw e at (sort-Apart cs (candidates-Apart parse network names distinct))) in
    (
      older,
      m,
      e,
      record {
        latest = All-sort (λ c. later c m ≡ false) cs (rw e order);
        found = λ P h. All-last P older m (rw e at (sort-All P cs h));
        others = apart;
      },
    )
