-- ===== src/Report/Abi/Unchanged.antt =====
-- src/report/diff.rs, `compare_contract_abi`: which ABIs it finds unchanged.
use Prim.Native.String.{String}
use mathlib.Core.Path.{subst}
use text.Mathlib.Text.{◌==◌ as str_eq}
use text.Mathlib.TextEquality.{eq_iff as str_eq_iff}
use soroban_cost_estimator.Prelude.{
  ◌≡◌, ◌↔◌, refl, ◌∙◌, ap, Bool-cases, true, ◌&&◌, any, Option, none, some, Option-cases, inl, inr,
  List, [], ◌∷◌, All, arith,
}
use soroban_cost_estimator.Snapshot.Same.Equality.{eq_option_iff}
use soroban_cost_estimator.Snapshot.Diff.Exact.{++_empty, cons_empty}
use soroban_cost_estimator.Wasm.{ParamInfo, FunctionInfo}
use soroban_cost_estimator.Report.Abi.{
  none_left, is_empty, insert_function, by_name, get, named, param_changes, return_text, modified,
  absent_only, modified_only, each_against, compare_contract_abi,
}
use soroban_cost_estimator.Report.Abi.Names.{
  last_named, last_named_under, named_self, any-last_named, get-by_name,
}

none_left_iff : {A : Type 0} (xs : List A) → (none_left xs ≡ true) ↔ (xs ≡ [])
none_left_iff [] = (λ h. refl, λ h. refl)
none_left_iff (x ∷ xs) = (λ h. absurd (cc), λ h. absurd (cc))

all_none :
    {A B C : Type 0} (xs : List A) (ys : List B) (zs : List C)
    → ((none_left xs && (none_left ys && none_left zs)) ≡ true)
      ↔ ((xs ≡ []) × (ys ≡ []) × (zs ≡ []))
all_none xs ys zs = ground (arith, none_left_iff xs, none_left_iff ys, none_left_iff zs)

module _ {TypeDef : Type 0} where
  -- The names and the types of the parameters, in their order.
  abbrev pub shape : List (ParamInfo TypeDef) → List (String × String)
  shape [] = []
  shape (p ∷ ps) = (p.name, p.type_name) ∷ shape ps

  param_changes-nil :
      (os ns : List (ParamInfo TypeDef)) → (param_changes os ns ≡ []) ↔ (shape os ≡ shape ns)
  unfolding param_changes
  param_changes-nil [] [] = (λ h. refl, λ h. refl)
  param_changes-nil [] (n ∷ ns) = (λ h. absurd (cc), λ h. absurd (cc))
  param_changes-nil (o ∷ os) [] = (λ h. absurd (cc), λ h. absurd (cc))
  param_changes-nil (o ∷ os) (n ∷ ns) =
      ground (
        arith,
        param_changes-nil os ns,
        str_eq_iff o.name n.name,
        str_eq_iff o.type_name n.type_name,
      )

  -- The same parameters and the same text for the returned values.
  abbrev pub SameSignature : FunctionInfo TypeDef → FunctionInfo TypeDef → Type 0
  SameSignature f g =
      (shape f.params ≡ shape g.params) × (return_text f.returns ≡ return_text g.returns)

  modified-nil : (f g : FunctionInfo TypeDef) → (modified f g ≡ []) ↔ SameSignature f g
  unfolding modified
  modified-nil f g = ground (
    arith,
    none_left_iff (param_changes f.params g.params),
    param_changes-nil f.params g.params,
    eq_option_iff str_eq str_eq_iff (return_text f.returns) (return_text g.returns),
  )

  each_against-nil :
      {A : Type 0} (push : FunctionInfo TypeDef → Option (FunctionInfo TypeDef) → List A)
      (other fs : List (FunctionInfo TypeDef))
      → (each_against push other fs ≡ []) ↔ All (λ f. push f (get f.name other) ≡ []) fs
  unfolding each_against
  each_against-nil push other [] = (λ h. tt, λ h. refl)
  each_against-nil push other (f ∷ fs) =
      let both = ++_empty (push f (get f.name other)) (each_against push other fs) in
      let rest = each_against-nil push other fs in
      (λ h. ((both.0 h).0, rest.0 (both.0 h).1), λ h. both.1 (h.0, rest.1 h.1))

  module _ (P : FunctionInfo TypeDef → Type 0) where
    All-insert_function :
        (f : FunctionInfo TypeDef) (m : List (FunctionInfo TypeDef))
        → P f
        → All P m
        → All P (insert_function f m)
    unfolding insert_function
    All-insert_function f [] h hs = (h, tt)
    All-insert_function f (g ∷ gs) h hs = ground (arith, All-insert_function f gs h hs.1)

    All-by_name :
        (fs : List (FunctionInfo TypeDef))
        → ((f : FunctionInfo TypeDef) → last_named f.name fs ≡ some f → P f)
        → All P (by_name fs)
    unfolding by_name
    All-by_name [] each = tt
    All-by_name (f ∷ fs) each = elim (Bool-cases (any (named f.name) fs)) [
      | inl t ↦ rw t (All-by_name fs (λ k e. each k (rw e refl)))
      | inr n ↦
          (let own : last_named f.name (f ∷ fs) ≡ some f =
              rw (any-last_named f.name fs n, named_self f) refl in
            let rest = All-by_name fs (λ k e. each k (rw e refl)) in
            rw n (All-insert_function f (by_name fs) (each f own) rest))
    ]

    All-get :
        (name : String) (m : List (FunctionInfo TypeDef)) (f : FunctionInfo TypeDef)
        → All P m
        → get name m ≡ some f
        → P f
    unfolding get
    All-get name [] f h e = absurd (cc)
    All-get name (g ∷ gs) f h e = elim (Bool-cases (named name g)) [
      | inl t ↦ (let same : g ≡ f = cc (rw t at e) in subst P same h.0)
      | inr n ↦ All-get name gs f h.1 (rw n at e)
    ]

  -- A function that both or neither have, with the same signature.
  abbrev pub SameFunction : Option (FunctionInfo TypeDef) → Option (FunctionInfo TypeDef) → Type 0
  SameFunction none none = Unit
  SameFunction (some f) (some g) = SameSignature f g
  SameFunction none (some g) = ⊥
  SameFunction (some f) none = ⊥

  abbrev Kept : Option (FunctionInfo TypeDef) → FunctionInfo TypeDef → Type 0
  Kept o new_fn = (absent_only new_fn o ≡ []) × (modified_only new_fn o ≡ [])

  Kept-iff :
      (o : Option (FunctionInfo TypeDef)) (g : FunctionInfo TypeDef)
      → Kept o g ↔ SameFunction o (some g)
  Kept-iff none g = (λ h. absurd (cc h.0), λ h. absurd h)
  Kept-iff (some f) g = (λ h. (modified-nil f g).0 h.1, λ h. (refl, (modified-nil f g).1 h))

  All-pair :
      (P Q : FunctionInfo TypeDef → Type 0) (fs : List (FunctionInfo TypeDef))
      → All (λ f. P f × Q f) fs ↔ (All P fs × All Q fs)
  All-pair P Q [] = (λ h. (tt, tt), λ h. tt)
  All-pair P Q (f ∷ fs) = ground (arith, All-pair P Q fs)

  -- Every function of the new map is kept, and every function of the old map is in the new one.
  is_empty_iff :
      (old new : List (FunctionInfo TypeDef))
      → (is_empty (compare_contract_abi old new) ≡ true) ↔ (
          All (λ g. Kept (get g.name (by_name old)) g) (by_name new)
          × All (λ f. absent_only f (get f.name (by_name new)) ≡ []) (by_name old))
  unfolding is_empty compare_contract_abi
  is_empty_iff old new =
      let old_map = by_name old in
      let new_map = by_name new in
      let empty =
        all_none (each_against absent_only old_map new_map)
          (each_against absent_only new_map old_map) (each_against modified_only old_map new_map) in
      let added = each_against-nil absent_only old_map new_map in
      let removed = each_against-nil absent_only new_map old_map in
      let changed = each_against-nil modified_only old_map new_map in
      let kept =
        All-pair (λ g. absent_only g (get g.name old_map) ≡ [])
          (λ g. modified_only g (get g.name old_map) ≡ []) new_map in
      (
        λ h. let (a, r, m) = empty.0 h in (kept.1 (added.0 a, changed.0 m), removed.0 r),
        λ h. let (a, m) = kept.0 h.0 in empty.1 (added.1 a, removed.1 h.1, changed.1 m),
      )

  same_at :
      (old new : List (FunctionInfo TypeDef)) (name : String)
      → All (λ g. Kept (get g.name (by_name old)) g) (by_name new)
      → All (λ f. absent_only f (get f.name (by_name new)) ≡ []) (by_name old)
      → SameFunction (last_named name old) (last_named name new)
  same_at old new name kept back = elim (Option-cases (last_named name new)) [
    | inr (g, e) ↦
        (let here : get g.name (by_name old) ≡ last_named name old =
            get-by_name g.name old ∙ ap (λ n. last_named n old) (last_named_under name new g e) in
          let all_kept =
            All-get (λ k. Kept (get k.name (by_name old)) k) name (by_name new) g kept
              (get-by_name name new ∙ e) in
          let same : SameFunction (last_named name old) (some g) =
            (Kept-iff _ g).0 (rw here at all_kept) in
          rw e same)
    | inl e ↦ elim (Option-cases (last_named name old)) [
      | inl e' ↦ rw (e, e') tt
      | inr (f, e') ↦
          (let gone : get f.name (by_name new) ≡ none =
              get-by_name f.name new
              ∙ ap (λ n. last_named n new) (last_named_under name old f e')
              ∙ e in
            let pushed =
              All-get (λ k. absent_only k (get k.name (by_name new)) ≡ []) name (by_name old) f back
                (get-by_name name old ∙ e') in
            absurd (cons_empty {B = ⊥} (rw gone at pushed)))
    ]
  ]

  present :
      (o p : Option (FunctionInfo TypeDef)) (f : FunctionInfo TypeDef)
      → SameFunction o p
      → o ≡ some f
      → absent_only f p ≡ []
  present o none f h e = absurd (rw e at h)
  present o (some g) f h e = refl

  -- The comparison finds no function added, removed or modified exactly when, for every name, the
  -- last function of that name in the old list and the one in the new list are both absent or have
  -- the same names and types of parameters in the same order and the same text of return types.
  pub compare_contract_abi-is_empty_iff :
      (old new : List (FunctionInfo TypeDef))
      → (is_empty (compare_contract_abi old new) ≡ true)
        ↔ ((name : String) → SameFunction (last_named name old) (last_named name new))
  compare_contract_abi-is_empty_iff old new =
      let parts = is_empty_iff old new in
      let P = λ (g : FunctionInfo TypeDef). Kept (get g.name (by_name old)) g in
      let R = λ (f : FunctionInfo TypeDef). absent_only f (get f.name (by_name new)) ≡ [] in
      (
        λ h name. (let (kept, back) = parts.0 h in same_at old new name kept back),
        λ h. parts.1 (
          All-by_name P new (λ g e.
              (let s : SameFunction (last_named g.name old) (some g) = rw e at (h g.name) in
                (Kept-iff _ g).1 (rw (get-by_name g.name old) s))),
          All-by_name R old (λ f e. rw (get-by_name f.name new) (present _ _ f (h f.name) e)),
        ),
      )
