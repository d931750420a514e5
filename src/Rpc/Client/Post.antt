-- ===== src/Rpc/Client/Post.antt =====
-- src/rpc/client.rs, `post_and_parse`: a request with its retries, and the reading of the answer.
-- What the HTTP library and the clock answer is an argument.
pub mod Ends
pub mod Gateway
use Prim.Native.Char.{Char}
use Prim.Native.String.{String}
use soroban_cost_estimator.Prelude.{
  ℕ, ◌/◌, Bool, true, false, ◌&&◌, ◌||◌, not, leb, ◌==◌, if◌then◌else◌, Option, none, some, List,
  [], ◌∷◌, min,
}
use soroban_cost_estimator.Prelude.Int.{ℤ, pos, negsuc}
use soroban_cost_estimator.Prelude.Machine.{u64_max}
use soroban_cost_estimator.Error.{
  Externals, AppError, http, connect_timeout, http_status, rpc_unavailable, rpc, total_timeout,
  config, Result, ok, err, AppResult,
}
use soroban_cost_estimator.Rpc.Breaker.{CircuitBreaker}
use soroban_cost_estimator.Rpc.Retry.{Round, Retried, with_retry_deadline}
use soroban_cost_estimator.Rpc.Client.Wait.{Dates, parse_retry_after}

-- `reqwest::Response`, with the questions that the code asks it and the JSON values in its body.
pub record Wire (x : Externals) : Type 1 where
  pub Response : Type 0
  pub status : Response → ℕ
  -- the text of the `Retry-After` header
  pub retry_after : Response → Option (List Char)
  pub get : x.Json → String → Option x.Json
  pub as_i64 : x.Json → Option ℤ
  pub as_str : x.Json → Option String
  pub dates : Dates
  -- the text of the error for a transient status
  pub transient_message : ℕ → String

-- `is_transient_status`
unfoldable pub is_transient_status : ℕ → Bool
is_transient_status status =
    status == 429 || status == 500 || status == 502 || status == 503 || status == 504

-- `matches!(status, 502..=504)`
abbrev pub is_gateway_status : ℕ → Bool
is_gateway_status status = leb 502 status && leb status 504

-- `Duration::is_zero`, and the whole seconds of a duration
abbrev seconds_of : ℕ → ℕ
seconds_of duration = duration / 1000000000

-- What the surroundings answer to one attempt: the clock at its head, the response or the error of
-- the library (`none` if the deadline fires first), the system's clock for a date in a header, the
-- jitter's seed, and the clock after a failure.
pub record Sent {x : Externals} (w : Wire x) : Type 0 where
  pub started_at : ℕ
  pub sent : Option (Result x.HttpError w.Response)
  pub system_time : ℕ
  pub seed : ℕ
  pub failed_at : ℕ

-- The attempts of one request, and what reading the body of the last response gives (`none` if the
-- deadline fires first).
pub record Post {x : Externals} (w : Wire x) : Type 0 where
  pub attempts : ℕ → Sent w
  pub body : Option (Result x.HttpError x.Json)

-- The answer, the instants at which a request was sent, and what is stored as the number of
-- attempts, if anything.
pub record Posted (x : Externals) : Type 0 where
  pub answer : AppResult x x.Json
  pub requests : List ℕ
  pub counter : Option ℕ

abbrev pub or_code : Option ℤ → ℤ
or_code none = negsuc 0
or_code (some code) = code

abbrev pub or_message : Option String → String
or_message none = "unknown error"
or_message (some message) = message

-- The client. Its HTTP client may have failed to build, with this text.
pub record RpcClient : Type 0 where
  pub url : String
  pub fallback_url : Option String
  pub client : Result {0, 0} String Unit
  pub max_retries : ℕ
  pub connect_timeout : ℕ
  pub last_attempt_count : ℕ
  pub fallback_used : Bool
  pub total_timeout : Option ℕ
  pub circuit_primary : Option CircuitBreaker
  pub circuit_fallback : Option CircuitBreaker

-- The milliseconds of the total timeout, or 0.
abbrev pub timeout_ms_of : Option ℕ → ℕ
timeout_ms_of none = 0
timeout_ms_of (some t) = min (t / 1000000) u64_max

module _ {x : Externals} where
  unfoldable pub connect_timeout_error : x.HttpError → (limit : ℕ) → AppError x
  connect_timeout_error error limit =
      if not (limit == 0) && (x.is_timeout error && x.is_connect error)
      then connect_timeout (seconds_of limit) error
      else http error

module _ {x : Externals} (w : Wire x) where
  -- The closure that makes one attempt.
  unfoldable pub attempt :
      (limit : ℕ) → (system_time : ℕ) → Result x.HttpError w.Response → AppResult x w.Response
  unfolding connect_timeout_error is_transient_status
  attempt limit system_time (err e) = err (connect_timeout_error e limit)
  attempt limit system_time (ok response) =
      if is_transient_status (w.status response)
      then err (
          http_status (w.status response)
            (parse_retry_after w.dates system_time (w.retry_after response))
            (w.transient_message (w.status response)))
      else ok response

  abbrev attempted :
      ℕ → ℕ → Option (Result x.HttpError w.Response) → Option (AppResult x w.Response)
  attempted limit system_time none = none
  attempted limit system_time (some sent) = some (attempt limit system_time sent)

  unfoldable pub round : ℕ → Sent w → Round x w.Response
  unfolding attempt
  round limit s = record {
    started_at = s.started_at;
    outcome = attempted limit s.system_time s.sent;
    seed = s.seed;
    failed_at = s.failed_at;
  }

  abbrev text_of : Option x.Json → Option String
  text_of none = none
  text_of (some value) = w.as_str value

  abbrev number_of : Option x.Json → Option ℤ
  number_of none = none
  number_of (some value) = w.as_i64 value

  abbrev result_of : ℕ → Option x.Json → AppResult x x.Json
  result_of status none = err (rpc (pos status) "response missing 'result' field" none)
  result_of status (some result) = ok result

  -- The `error` field of the body, and else its `result` field.
  unfoldable pub parse_body : ℕ → x.Json → Option x.Json → AppResult x x.Json
  parse_body status body (some error) = err (
      rpc (or_code (number_of (w.get error "code"))) (or_message (text_of (w.get error "message")))
        (w.get error "data"))
  parse_body status body none = result_of status (w.get body "result")

  unfoldable pub read_body :
      (timeout_ms status : ℕ) → Option (Result x.HttpError x.Json) → AppResult x x.Json
  unfolding parse_body
  read_body timeout_ms status none = err (total_timeout timeout_ms)
  read_body timeout_ms status (some (err e)) = err (http e)
  read_body timeout_ms status (some (ok body)) = parse_body status body (w.get body "error")

  -- What is behind the retries.
  unfoldable pub parse_response :
      ℕ → Option (Result x.HttpError x.Json) → AppResult x w.Response → AppResult x x.Json
  unfolding read_body
  parse_response timeout_ms body (err e) = err e
  parse_response timeout_ms body (ok response) =
      if is_gateway_status (w.status response)
      then err (rpc_unavailable (w.status response))
      else read_body timeout_ms (w.status response) body

  abbrev posted :
      ℕ → Option (Result x.HttpError x.Json) → Option (Retried x w.Response) → Option (Posted x)
  posted timeout_ms body none = none
  posted timeout_ms body (some r) = some (record {
    answer = parse_response timeout_ms body r.answer;
    requests = r.starts;
    counter = r.counter;
  })

  abbrev refused_or : AppResult x Unit → Option (Posted x) → Option (Posted x)
  refused_or (err e) sent = some (record { answer = err e; requests = []; counter = none })
  refused_or (ok _) sent = sent

  abbrev built : Result {0, 0} String Unit → AppResult x Unit
  built (err message) = err (config message)
  built (ok _) = ok tt

  unfoldable pub post_and_parse : RpcClient → (deadline : Option ℕ) → Post w → Option (Posted x)
  unfolding round parse_response
  post_and_parse c deadline post =
      let timeout_ms = timeout_ms_of c.total_timeout in
      refused_or (built c.client) (
        posted timeout_ms post.body (
          with_retry_deadline c.max_retries deadline timeout_ms
            (λ n. round c.connect_timeout (post.attempts n))))
