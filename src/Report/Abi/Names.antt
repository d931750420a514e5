-- ===== src/Report/Abi/Names.antt =====
-- src/report/diff.rs, `compare_contract_abi`: its maps of functions by name.
use Prim.Native.String.{String}
use text.Mathlib.Text.{◌==◌ as str_eq}
use text.Mathlib.TextEquality.{eq_iff as str_eq_iff}
use soroban_cost_estimator.Prelude.{
  ◌≡◌, refl, sym, ◌∙◌, ap, Bool-cases, true, false, any, if◌then◌else◌, Option, none, some, inl,
  inr, List, [], ◌∷◌, arith,
}
use soroban_cost_estimator.Wasm.{FunctionInfo}
use soroban_cost_estimator.Report.Abi.{insert_function, by_name, get, named}

-- The last function of a name.
abbrev later : {A : Type 0} → Option A → Option A → Option A
later none a = a
later (some b) a = some b

module _ {TypeDef : Type 0} where
  abbrev pub last_named : String → List (FunctionInfo TypeDef) → Option (FunctionInfo TypeDef)
  last_named name [] = none
  last_named name (f ∷ fs) = later (last_named name fs) (if named name f then some f else none)

  pub named_self : (f : FunctionInfo TypeDef) → named f.name f ≡ true
  named_self f = (str_eq_iff f.name f.name).1 refl

  named_other :
      (name : String) (f g : FunctionInfo TypeDef)
      → named name f ≡ true
      → named f.name g ≡ named name g
  named_other name f g h = ap (λ n. str_eq n g.name) (sym ((str_eq_iff name f.name).0 h))

  -- A function that is not there yet is found under its name, and hides no other.
  get-insert_function :
      (name : String) (f : FunctionInfo TypeDef) (m : List (FunctionInfo TypeDef))
      → get f.name m ≡ none
      → get name (insert_function f m) ≡ (if named name f then some f else get name m)
  unfolding get insert_function
  get-insert_function name f [] h = ground arith
  get-insert_function name f (g ∷ gs) h =
      ground (arith, named_other name f g, get-insert_function name f gs)

  -- Some function of the list has the name exactly when the last such is found.
  pub any-last_named :
      (name : String) (fs : List (FunctionInfo TypeDef))
      → any (named name) fs ≡ false
      → last_named name fs ≡ none
  any-last_named name [] h = refl
  any-last_named name (f ∷ fs) h = ground (arith, any-last_named name fs)

  last_named-any :
      (name : String) (fs : List (FunctionInfo TypeDef))
      → last_named name fs ≡ none
      → any (named name) fs ≡ false
  last_named-any name [] h = refl
  last_named-any name (f ∷ fs) h = ground (arith, last_named-any name fs)

  -- The name of a function found is the one it is found under.
  pub last_named_under :
      (name : String) (fs : List (FunctionInfo TypeDef)) (f : FunctionInfo TypeDef)
      → last_named name fs ≡ some f
      → f.name ≡ name
  last_named_under name [] f h = absurd (cc)
  last_named_under name (g ∷ gs) f h =
      ground (arith, last_named_under name gs f, (str_eq_iff name g.name).0)

  same_last :
      (name : String) (f : FunctionInfo TypeDef) (fs : List (FunctionInfo TypeDef))
      → named name f ≡ true
      → last_named name fs ≡ last_named f.name fs
  same_last name f fs h = ap (λ n. last_named n fs) ((str_eq_iff name f.name).0 h)

  get_nil : (name : String) → get {TypeDef = TypeDef} name [] ≡ none
  unfolding get
  get_nil name = refl

  pub get-by_name :
      (name : String) (fs : List (FunctionInfo TypeDef))
      → get name (by_name fs) ≡ last_named name fs
  unfolding by_name
  get-by_name name [] = get_nil name
  get-by_name name (f ∷ fs) = elim (Bool-cases (any (named f.name) fs)) [
    | inl t ↦
        rw t (
          get-by_name name fs ∙ sym (ground (arith, same_last name f fs, last_named-any f.name fs)))
    | inr n ↦
        (let fresh = get-by_name f.name fs ∙ any-last_named f.name fs n in
          rw n (
            get-insert_function name f (by_name fs) fresh
            ∙ ap (λ r. if named name f then some f else r) (get-by_name name fs)
            ∙ ground (arith, same_last name f fs, any-last_named f.name fs n)))
  ]
