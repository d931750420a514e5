-- ===== src/Tests/Fixtures.antt =====
-- Concrete values for what other crates supply.
use soroban_cost_estimator.Prelude.{ℕ, Bool, ◌==◌, some}
use soroban_cost_estimator.Error.{Externals}

-- HTTP errors 1, 2 and 3 are a failed connection, a timeout and a failed request; a JSON value is
-- the Boolean that each of its fields holds.
abbrev pub sample : Externals
sample = record {
  IoError = Unit;
  HttpError = ℕ;
  is_connect = λ e. e == 1;
  is_timeout = λ e. e == 2;
  is_request = λ e. e == 3;
  Json = Bool;
  bool_field = λ j name. some j;
  JsonError = Unit;
  SqliteError = Unit;
}
