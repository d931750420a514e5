-- ===== src/Snapshot/Store/Order.antt =====
-- src/config_snapshot/store.rs, `list_snapshots_in`: its sort.
use mathlib.Core.List.{Mem, mem-cons_self, mem-cons_of_mem}
use soroban_cost_estimator.Prelude.{
  ◌≡◌, refl, inl, inr, Bool, true, false, ltb, none, some, List, [], ◌∷◌, arith, Bool-cases, All,
}
use soroban_cost_estimator.Snapshot.Store.{Candidate, comes_after, insert, sort}

-- The first file is later than the second: its instant is, or it alone has no timestamp.
unfoldable pub later : Candidate → Candidate → Bool
later (some a, p) (some b, q) = ltb b a
later (some a, p) (none, q) = false
later (none, p) (some b, q) = true
later (none, p) (none, q) = false

abbrev pub Ascending : List Candidate → Type 0
Ascending [] = Unit
Ascending (c ∷ cs) = All (λ d. later c d ≡ false) cs × Ascending cs

pub All-weaken :
    {A : Type 0} (P Q : A → Type 0) → ((a : A) → P a → Q a) → (xs : List A) → All P xs → All Q xs
All-weaken P Q f [] h = tt
All-weaken P Q f (a ∷ xs) h = (f a h.0, All-weaken P Q f xs h.1)

pub All-Mem : {A : Type 0} (xs : List A) → All (λ a. Mem a xs) xs
All-Mem [] = tt
All-Mem (a ∷ xs) = (
  mem-cons_self,
  All-weaken (λ b. Mem b xs) (λ b. Mem b (a ∷ xs)) (λ b m. mem-cons_of_mem a m) xs (All-Mem xs),
)

module _ (P : Candidate → Type 0) where
  pub insert-All : (a : Candidate) (cs : List Candidate) → P a → All P cs → All P (insert a cs)
  unfolding insert
  insert-All a [] h hs = (h, tt)
  insert-All a (b ∷ bs) h hs = elim (Bool-cases (comes_after a b)) [
    | inl after ↦ rw after (hs.0, insert-All a bs h hs.1)
    | inr before ↦ rw before (h, hs)
  ]

  All-insert : (a : Candidate) (cs : List Candidate) → All P (insert a cs) → P a × All P cs
  unfolding insert
  All-insert a [] h = h
  All-insert a (b ∷ bs) h = elim (Bool-cases (comes_after a b)) [
    | inl after ↦
        (let (hb, rest) = (rw after at h) in let (ha, hs) = All-insert a bs rest in (ha, (hb, hs)))
    | inr before ↦ (rw before at h)
  ]

  pub sort-All : (cs : List Candidate) → All P cs → All P (sort cs)
  unfolding sort
  sort-All [] h = tt
  sort-All (c ∷ cs) h = insert-All c (sort cs) h.0 (sort-All cs h.1)

  pub All-sort : (cs : List Candidate) → All P (sort cs) → All P cs
  unfolding sort
  All-sort [] h = tt
  All-sort (c ∷ cs) h = let (hc, hs) = All-insert c (sort cs) h in (hc, All-sort cs hs)

later_trans : (a b d : Candidate) → later a b ≡ false → later b d ≡ false → later a d ≡ false
unfolding later
later_trans (some a, p) (some b, q) (some d, r) h k = ground arith
later_trans (some a, p) (some b, q) (none, r) h k = refl
later_trans (some a, p) (none, q) (some d, r) h k = absurd (cc)
later_trans (some a, p) (none, q) (none, r) h k = refl
later_trans (none, p) (some b, q) d h k = absurd (cc)
later_trans (none, p) (none, q) (some d, r) h k = absurd (cc)
later_trans (none, p) (none, q) (none, r) h k = refl

after-later : (a b : Candidate) → comes_after a b ≡ true → later b a ≡ false
unfolding later
after-later (some a, p) (some b, q) h = ground arith
after-later (some a, p) (none, q) h = absurd (cc)
after-later (none, p) (some b, q) h = refl
after-later (none, p) (none, q) h = refl

before-later : (a b : Candidate) → comes_after a b ≡ false → later a b ≡ false
unfolding later
before-later (some a, p) (some b, q) h = h
before-later (some a, p) (none, q) h = refl
before-later (none, p) (some b, q) h = absurd (cc)
before-later (none, p) (none, q) h = refl

insert-Ascending : (a : Candidate) (cs : List Candidate) → Ascending cs → Ascending (insert a cs)
unfolding insert
insert-Ascending a [] h = (tt, tt)
insert-Ascending a (b ∷ bs) h = elim (Bool-cases (comes_after a b)) [
  | inl after ↦ rw after (
    insert-All (λ d. later b d ≡ false) a bs (after-later a b after) h.0,
    insert-Ascending a bs h.1,
  )
  | inr before ↦
      let first = before-later a b before in
      let rest =
        All-weaken (λ d. later b d ≡ false) (λ d. later a d ≡ false) (λ d. later_trans a b d first)
          bs h.0 in
      rw before ((first, rest), h)
]

pub sort-Ascending : (cs : List Candidate) → Ascending (sort cs)
unfolding sort
sort-Ascending [] = tt
sort-Ascending (c ∷ cs) = insert-Ascending c (sort cs) (sort-Ascending cs)
