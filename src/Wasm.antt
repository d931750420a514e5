-- ===== src/Wasm.antt =====
-- src/wasm/parser.rs: what the parser tells of a contract's functions. The type definitions of a
-- contract spec are another crate's and a parameter.
pub mod Sections
pub mod Meta
pub mod Memory
pub mod Args
use Prim.Native.String.{String}
use soroban_cost_estimator.Prelude.{ℕ, List, [], ◌∷◌}
use soroban_cost_estimator.Text.{◌<>◌}

module _ (TypeDef : Type 0) where
  pub record TypeInfo : Type 0 where
    pub type_name : String
    pub type_def : TypeDef

  pub record ParamInfo : Type 0 where
    pub name : String
    pub type_name : String
    pub type_def : TypeDef

  pub record FunctionInfo : Type 0 where
    pub name : String
    pub param_count : ℕ
    pub result_count : ℕ
    pub params : List ParamInfo
    pub returns : List TypeInfo

-- `join(", ")` of the texts of a list
unfoldable pub join_with : {A : Type 0} → (A → String) → List A → String
join_with f [] = ""
join_with f (a ∷ []) = f a
join_with f (a ∷ b ∷ rest) = f a <> ", " <> join_with f (b ∷ rest)

module _ {TypeDef : Type 0} where
  unfoldable pub format_function : FunctionInfo TypeDef → String
  unfolding join_with
  format_function fn_info =
      let params =
        join_with (λ (p : ParamInfo TypeDef). p.name <> ": " <> p.type_name) fn_info.params in
      with_returns (fn_info.name <> "(" <> params <> ")") fn_info.returns
    where
      with_returns : String → List (TypeInfo TypeDef) → String
      with_returns signature [] = signature
      with_returns signature (r ∷ rs) =
          signature <> " -> " <> join_with (λ (t : TypeInfo TypeDef). t.type_name) (r ∷ rs)
