-- ===== src/Report/Abi.antt =====
-- src/report/diff.rs: the comparison of two contract ABIs. A `BTreeMap` of the functions by name is
-- the list of its values in the order of their names.
pub mod Names
pub mod Unchanged
pub mod Print
use Prim.Native.String
use Prim.Native.String.{String}
use text.Mathlib.Text.{◌==◌ as str_eq}
use soroban_cost_estimator.Prelude.{
  Bool, true, false, ◌&&◌, ◌||◌, not, any, if◌then◌else◌, Option, none, some, List, [], ◌∷◌, ◌++◌,
}
use soroban_cost_estimator.Text.{◌<>◌}
use soroban_cost_estimator.Snapshot.Same.{eq_option}
use soroban_cost_estimator.Snapshot.Payload.{is_greater}
use soroban_cost_estimator.Wasm.{TypeInfo, ParamInfo, FunctionInfo, join_with, format_function}

pub record ParamTypeChange : Type 0 where
  pub name : String
  pub old_type : Option String
  pub new_type : Option String

pub record FunctionAbiChange : Type 0 where
  pub name : String
  pub old_signature : String
  pub new_signature : String
  pub param_changes : List ParamTypeChange
  pub old_return : Option String
  pub new_return : Option String

pub record ContractAbiDiff : Type 0 where
  pub added_functions : List String
  pub removed_functions : List String
  pub modified_functions : List FunctionAbiChange

abbrev pub none_left : {A : Type 0} → List A → Bool
none_left [] = true
none_left (a ∷ rest) = false

unfoldable pub is_empty : ContractAbiDiff → Bool
is_empty d =
    none_left d.added_functions && (none_left d.removed_functions && none_left d.modified_functions)

module _ {TypeDef : Type 0} where
  -- Into the order of the names, in front of the first name that is not smaller.
  unfoldable pub insert_function :
      FunctionInfo TypeDef → List (FunctionInfo TypeDef) → List (FunctionInfo TypeDef)
  insert_function f [] = f ∷ []
  insert_function f (g ∷ gs) =
      let rest = insert_function f gs in
      if is_greater (String.compare f.name g.name) then g ∷ rest else f ∷ g ∷ gs

  abbrev pub named : String → FunctionInfo TypeDef → Bool
  named name f = str_eq name f.name

  -- `collect` into a map: of functions with the same name the last one stays.
  unfoldable pub by_name : List (FunctionInfo TypeDef) → List (FunctionInfo TypeDef)
  unfolding insert_function
  by_name [] = []
  by_name (f ∷ fs) =
      let rest = by_name fs in if any (named f.name) fs then rest else insert_function f rest

  unfoldable pub get : String → List (FunctionInfo TypeDef) → Option (FunctionInfo TypeDef)
  get name [] = none
  get name (f ∷ fs) = let rest = get name fs in if named name f then some f else rest

  -- The loop over the positions of the parameters of both.
  unfoldable pub param_changes :
      List (ParamInfo TypeDef) → List (ParamInfo TypeDef) → List ParamTypeChange
  param_changes [] [] = []
  param_changes (o ∷ os) [] =
      record { name = o.name; old_type = some o.type_name; new_type = none } ∷ param_changes os []
  param_changes [] (n ∷ ns) =
      record { name = n.name; old_type = none; new_type = some n.type_name } ∷ param_changes [] ns
  param_changes (o ∷ os) (n ∷ ns) =
      let rest = param_changes os ns in
      if not (str_eq o.name n.name) || not (str_eq o.type_name n.type_name)
      then record {
        name = if str_eq o.name n.name then n.name else o.name <> " -> " <> n.name;
        old_type = some o.type_name;
        new_type = some n.type_name;
      }
        ∷ rest
      else rest

  unfoldable pub return_text : List (TypeInfo TypeDef) → Option String
  unfolding join_with
  return_text [] = none
  return_text (r ∷ rs) = some (join_with (λ (t : TypeInfo TypeDef). t.type_name) (r ∷ rs))

  -- What is pushed for a function that both have.
  unfoldable pub modified : FunctionInfo TypeDef → FunctionInfo TypeDef → List FunctionAbiChange
  unfolding param_changes return_text
  modified old_fn new_fn =
      let changes = param_changes old_fn.params new_fn.params in
      let old_ret = return_text old_fn.returns in
      let new_ret = return_text new_fn.returns in
      if not (none_left changes) || not (eq_option str_eq old_ret new_ret)
      then record {
        name = new_fn.name;
        old_signature = format_function old_fn;
        new_signature = format_function new_fn;
        param_changes = changes;
        old_return = old_ret;
        new_return = new_ret;
      }
        ∷ []
      else []

  -- What is pushed for a function that the other map has or has not.
  abbrev pub absent_only : FunctionInfo TypeDef → Option (FunctionInfo TypeDef) → List String
  absent_only f none = format_function f ∷ []
  absent_only f (some g) = []

  abbrev pub modified_only :
      FunctionInfo TypeDef → Option (FunctionInfo TypeDef) → List FunctionAbiChange
  modified_only new_fn none = []
  modified_only new_fn (some old_fn) = modified old_fn new_fn

  -- A loop over the functions of a map that looks each up in the other map.
  unfoldable pub each_against :
      {A : Type 0}
      → (FunctionInfo TypeDef → Option (FunctionInfo TypeDef) → List A)
      → List (FunctionInfo TypeDef)
      → List (FunctionInfo TypeDef)
      → List A
  unfolding get
  each_against push other [] = []
  each_against push other (f ∷ fs) = push f (get f.name other) ++ each_against push other fs

  unfoldable pub compare_contract_abi :
      List (FunctionInfo TypeDef) → List (FunctionInfo TypeDef) → ContractAbiDiff
  unfolding by_name each_against modified
  compare_contract_abi old_functions new_functions =
      let old_map = by_name old_functions in
      let new_map = by_name new_functions in
      record {
        added_functions = each_against absent_only old_map new_map;
        removed_functions = each_against absent_only new_map old_map;
        modified_functions = each_against modified_only old_map new_map;
      }
