-- ===== src/Report/Batch.antt =====
-- src/report/cost_report.rs, `ContractCostSummary` and `BatchCostReport`: a run over several
-- contracts.
use Prim.Native.String.{String}
use soroban_cost_estimator.Prelude.{
  ℕ, suc, ◌-◌, Bool, true, false, if◌then◌else◌, Option, none, some, List, [], ◌∷◌, length,
}
use soroban_cost_estimator.Prelude.Int.{ℤ}

pub record ContractCostSummary : Type 0 where
  pub path : String
  pub wasm_hash : Option String
  pub function_count : Option ℕ
  pub upload_cost_stroops : Option ℤ
  pub min_invocation_fee_stroops : Option ℤ
  pub max_invocation_fee_stroops : Option ℤ
  pub functions_simulated : Option ℕ
  pub error : Option String

unfoldable pub unloadable : String → String → ContractCostSummary
unloadable path error = record {
  path = path;
  wasm_hash = none;
  function_count = none;
  upload_cost_stroops = none;
  min_invocation_fee_stroops = none;
  max_invocation_fee_stroops = none;
  functions_simulated = none;
  error = some error;
}

abbrev absent : Option String → Bool
absent none = true
absent (some text) = false

unfoldable pub contract_is_ok : ContractCostSummary → Bool
contract_is_ok c = absent c.error

unfoldable pub status : ContractCostSummary → String
status c = word c.wasm_hash c.error
  where
    word : Option String → Option String → String
    word none error = "error"
    word (some hash) (some error) = "partial"
    word (some hash) none = "ok"

pub record BatchCostReport : Type 0 where
  pub network : String
  pub contracts : List ContractCostSummary
  pub total_contracts : ℕ
  pub succeeded : ℕ
  pub failed : ℕ

-- `filter(|c| !c.is_ok()).count()`
unfoldable pub count_failed : List ContractCostSummary → ℕ
unfolding contract_is_ok
count_failed [] = 0
count_failed (c ∷ cs) = let rest = count_failed cs in if contract_is_ok c then rest else suc rest

unfoldable pub batch_report : String → List ContractCostSummary → BatchCostReport
unfolding count_failed
batch_report network contracts =
    let total_contracts = length contracts in
    let failed = count_failed contracts in
    record {
      network = network;
      contracts = contracts;
      total_contracts = total_contracts;
      succeeded = total_contracts - failed;
      failed = failed;
    }
