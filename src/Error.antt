-- ===== src/Error.antt =====
-- src/error.rs: the error type of every fallible operation, and `AppResult`. What other crates
-- supply (their error values, JSON) is a parameter.
use Prim.Native.String.{String}
use soroban_cost_estimator.Prelude.{ℕ, Bool, Option}
use soroban_cost_estimator.Prelude.Int.{ℤ}

-- The types of other crates that error values carry, with the questions that the code asks them.
pub record Externals : Type 1 where
  pub IoError : Type 0
  -- `reqwest::Error`
  pub HttpError : Type 0
  pub is_connect : HttpError → Bool
  pub is_timeout : HttpError → Bool
  pub is_request : HttpError → Bool
  -- `serde_json::Value`
  pub Json : Type 0
  -- `value.as_object()?.get(name)?.as_bool()`
  pub bool_field : Json → String → Option Bool
  pub JsonError : Type 0
  pub SqliteError : Type 0

pub record SimulationError (x : Externals) : Type 0 where
  pub code : Option ℤ
  pub message : String
  pub details : Option x.Json

-- Durations are nanoseconds.
pub data AppError (x : Externals) : Type 0 where
  io : x.IoError → AppError x
  file_not_found : String → AppError x
  rpc : (status : ℤ) → (message : String) → (details : Option x.Json) → AppError x
  rpc_unavailable : (status : ℕ) → AppError x
  http : x.HttpError → AppError x
  invalid_header : String → AppError x
  invalid_proxy : String → AppError x
  invalid_rpc_url : String → AppError x
  http_status : (status : ℕ) → (retry_after : Option ℕ) → (message : String) → AppError x
  connect_timeout : (seconds : ℕ) → (source : x.HttpError) → AppError x
  total_timeout : (timeout_ms : ℕ) → AppError x
  ws_connect : String → AppError x
  ws_protocol : String → AppError x
  ws_closed : AppError x
  unknown_network : String → AppError x
  xdr_decode : String → AppError x
  xdr_encode : String → AppError x
  wasm_parse : String → AppError x
  wasm_validation : String → AppError x
  wasm_file_too_large : (path : String) → (size : ℕ) → (max_size : ℕ) → AppError x
  type_validation : String → AppError x
  snapshot_not_found : String → AppError x
  snapshot_parse : String → AppError x
  snapshot_schema_unsupported : (file : String) → (version : ℕ) → (supported : ℕ) → AppError x
  no_snapshots : String → AppError x
  not_enough_snapshots : (network : String) → (found : ℕ) → AppError x
  simulation_failed : SimulationError x → AppError x
  tx_construction : String → AppError x
  fee_calc : String → AppError x
  config : String → AppError x
  config_fetch : String → AppError x
  config_setting_not_found : String → AppError x
  json : x.JsonError → AppError x
  cache_corrupt : String → AppError x
  sqlite : x.SqliteError → AppError x
  general : String → AppError x

pub data Result {ℓ κ} (E : Type ℓ) (A : Type κ) : Type (ℓ ⊔ κ) where
  ok : A → Result E A
  err : E → Result E A

abbrev pub AppResult : Externals → Type 0 → Type 0
AppResult x A = Result (AppError x) A

infixl 5 ◌>>=◌
abbrev pub ◌>>=◌ {ℓ} : {E A B : Type ℓ} → Result E A → (A → Result E B) → Result E B
ok a >>= f = f a
err e >>= f = err e
