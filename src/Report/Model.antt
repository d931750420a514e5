-- ===== src/Report/Model.antt =====
-- src/report/cost_report.rs, `CostReport` and what it holds; src/wasm/parser.rs, `SectionSize` and
-- `ContractMeta`. The type of f64 is a parameter.
use Prim.Native.Char.{Char}
use Prim.Native.String.{String}
use soroban_cost_estimator.Prelude.{ℕ, Option, List}
use soroban_cost_estimator.Prelude.Int.{ℤ}
use soroban_cost_estimator.Fee.Breakdown.{FeeBreakdown, FeeRates}

pub record ResourceWarning : Type 0 where
  pub resource : String
  pub label : String
  pub used : ℕ
  pub limit : ℕ
  pub percent : ℕ
  pub message : String

pub data CostTrend : Type 0 where
  improvement regression unchanged : CostTrend

pub record IoFootprint : Type 0 where
  pub read_entries : ℕ
  pub write_entries : ℕ
  pub read_bytes : ℕ
  pub write_bytes : ℕ

pub record FootprintDelta : Type 0 where
  pub read_entries : ℤ
  pub write_entries : ℤ
  pub read_bytes : ℤ
  pub write_bytes : ℤ

pub record HistoryEntry : Type 0 where
  pub timestamp : String
  pub ledger : ℕ
  pub cpu_instructions : ℕ
  pub total_stroops : ℤ
  pub total_xlm : List Char
  pub delta_stroops : ℤ
  pub trend : CostTrend
  pub footprint_delta : Option FootprintDelta

pub record CostProjection (F64 : Type 0) : Type 0 where
  pub invocations : ℕ
  pub total_stroops : ℤ
  pub total_xlm : List Char
  pub usd : Option F64

pub record SectionSize (F64 : Type 0) : Type 0 where
  pub name : String
  pub id : Option ℕ
  pub offset : Option ℕ
  pub end_ : Option ℕ
  pub size : ℕ
  pub header_size : ℕ
  pub total_size : ℕ
  pub percent : F64

pub record ContractMeta : Type 0 where
  pub name : Option String
  pub version : Option String
  pub description : Option String
  pub author : Option String
  pub sdk_version : Option String
  pub entries : List (String × String)

pub record EventSummary : Type 0 where
  pub kind : String
  pub topic_count : ℕ
  pub data_bytes : Option ℕ
  pub topic_previews : List String
  pub data_preview : Option String

pub record StateChangeSummary : Type 0 where
  pub key_type : String
  pub change : String
  pub payload_bytes : Option ℕ
  pub payload_preview : Option String

pub record SimulationDiagnostics : Type 0 where
  pub event_count : ℕ
  pub state_change_count : ℕ
  pub events : List EventSummary
  pub state_changes : List StateChangeSummary

pub record CostReport (F64 : Type 0) : Type 0 where
  pub function : String
  pub wasm_hash : String
  pub wasm_size : ℕ
  pub wasm_sections : List (SectionSize F64)
  pub cpu_instructions : ℕ
  pub memory_bytes : ℕ
  pub tx_size : ℕ
  pub read_entries : ℕ
  pub write_entries : ℕ
  pub read_bytes : ℕ
  pub write_bytes : ℕ
  pub fee : FeeBreakdown
  pub ledger : ℕ
  pub network : String
  pub simulation_duration_ms : ℕ
  pub rpc_endpoint : String
  pub rpc_role : String
  pub rates : Option FeeRates
  pub warnings : List ResourceWarning
  pub history : Option (List HistoryEntry)
  pub projections : Option (List (CostProjection F64))
  pub contract_meta : ContractMeta
  pub diagnostics : Option SimulationDiagnostics
