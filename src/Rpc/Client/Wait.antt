-- ===== src/Rpc/Client/Wait.antt =====
-- src/rpc/client.rs: the delay that a `Retry-After` header asks for. The readings of a date by the
-- crates `httpdate` and `chrono` are parameters, in nanoseconds on the system's clock.
use Prim.Native.Char.{Char}
use soroban_cost_estimator.Prelude.{ℕ, ◌-◌, ◌*◌, Option, none, some, List, min}
use soroban_cost_estimator.Text.Parse.{trim, parse_u64}
use soroban_cost_estimator.Rpc.Retry.{ms, max_retry_delay}

-- `httpdate::parse_http_date` and `chrono::DateTime::parse_from_rfc2822`
pub record Dates : Type 0 where
  pub parse_http_date : List Char → Option ℕ
  pub parse_from_rfc2822 : List Char → Option ℕ

-- `Duration::from_secs(seconds).min(MAX_RETRY_DELAY)`
abbrev of_seconds : ℕ → ℕ
of_seconds seconds = min (ms 1000 * seconds) max_retry_delay

-- A date in the past is a delay of zero, as `-` on ℕ is.
abbrev until : ℕ → ℕ → ℕ
until now target = min (target - now) max_retry_delay

module _ (dates : Dates) (now : ℕ) where
  abbrev from_rfc2822 : Option ℕ → Option ℕ
  from_rfc2822 (some target) = some (until now target)
  from_rfc2822 none = none

  abbrev from_http_date : List Char → Option ℕ → Option ℕ
  from_http_date trimmed (some target) = some (until now target)
  from_http_date trimmed none = from_rfc2822 (dates.parse_from_rfc2822 trimmed)

  abbrev from_number : List Char → Option ℕ → Option ℕ
  from_number trimmed (some seconds) = some (of_seconds seconds)
  from_number trimmed none = from_http_date trimmed (dates.parse_http_date trimmed)

  unfoldable pub parse_retry_after_value : List Char → Option ℕ
  unfolding trim parse_u64
  parse_retry_after_value value = from_number (trim value) (parse_u64 (trim value))

  -- The header's text, if it has one that is visible ASCII.
  unfoldable pub parse_retry_after : Option (List Char) → Option ℕ
  unfolding parse_retry_after_value
  parse_retry_after none = none
  parse_retry_after (some value) = parse_retry_after_value value
