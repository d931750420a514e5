-- ===== src/Tests/ClientRuns.antt =====
-- The theorems on the RPC client, at concrete calls.
use Prim.Native.Char.{Char}
use native.Mathlib.Decide.{ℕ_discrete}
use soroban_cost_estimator.Prelude.{
  ℕ, ◌+◌, ◌*◌, ◌≤◌, ◌<◌, ◌≡◌, refl, ◌↔◌, inl, true, false, not, ◌&&◌, Option, none, some, List, [],
  ◌∷◌, ◌++◌, if◌then◌else◌, length,
}
use soroban_cost_estimator.Text.{chars}
use soroban_cost_estimator.Text.Parse.{trim, trim_start, trim_end, is_whitespace}
use soroban_cost_estimator.Error.{ok, err}
use soroban_cost_estimator.Rpc.Retry.{past, ms}
use soroban_cost_estimator.Rpc.Breaker.{new}
use soroban_cost_estimator.Rpc.Client.Dedup.{with_capacity}
use soroban_cost_estimator.Rpc.Client.Dedup.Lru.{
  gets, inserts, Request, recent_answers, run, run-recent_answers,
}
use soroban_cost_estimator.Rpc.Client.Post.{Wire, Post, Posted, RpcClient, post_and_parse}
use soroban_cost_estimator.Rpc.Client.Call.{Setting, Called, perform_call, deadline_of}
use soroban_cost_estimator.Rpc.Client.Call.Requests.{Limited, perform_call-Limited}
use soroban_cost_estimator.Rpc.Client.Call.Failover.{
  is_some, triggers, rejects, kept, perform_call-contacts,
}
use soroban_cost_estimator.Rpc.Client.Call.Role.{
  served_role, perform_calls, any_contacted, served_role-any,
}
use soroban_cost_estimator.Rpc.Client.Url.{to_websocket_url, to_http_url, url_of}
use soroban_cost_estimator.Rpc.Client.Url.RoundTrip.{web, to_http_url-to_websocket_url}
use soroban_cost_estimator.Rpc.Client.Headers.{redacted_headers, is_sensitive_header_text}
use soroban_cost_estimator.Rpc.Client.Headers.Redacted.{redacted_headers-secret}
use soroban_cost_estimator.Rpc.Simulate.{parse_resource_fee, panics, parse_i64}
use soroban_cost_estimator.Rpc.Simulate.Fee.{parse_resource_fee-panics_iff}
use soroban_cost_estimator.Tests.Fixtures.{sample}

abbrev requests : List (Request ℕ ℕ)
requests = inserts 1 10 ∷ inserts 2 20 ∷ gets 1 ∷ inserts 3 30 ∷ gets 2 ∷ gets 1 ∷ []

run-recent_answers_example :
    let (last, answers) = run ℕ_discrete requests (with_capacity 2) in
    (answers ≡ recent_answers ℕ_discrete 2 requests []) × (length last.completed ≤ 2)
run-recent_answers_example = run-recent_answers ℕ_discrete 2 requests

-- A response is its status; a body has only the field that is asked for.
abbrev wire : Wire sample
wire = record {
  Response = ℕ;
  status = λ r. r;
  retry_after = λ r. none;
  get = λ body name. some body;
  as_i64 = λ body. none;
  as_str = λ body. none;
  dates = record { parse_http_date = λ s. none; parse_from_rfc2822 = λ s. none };
  transient_message = λ status. "transient";
}

-- The endpoint refuses every connection.
abbrev refusing : Post wire
refusing = record {
  attempts = λ n. record {
    started_at = ms (10 * n);
    sent = some (err 1);
    system_time = 0;
    seed = 0;
    failed_at = ms (10 * n + 1);
  };
  body = none;
}

abbrev answering : Post wire
answering = record {
  attempts = λ n. record {
    started_at = ms 20;
    sent = some (ok 200);
    system_time = 0;
    seed = 0;
    failed_at = ms 20;
  };
  body = some (ok true);
}

abbrev setting : Setting wire
setting = record {
  started_at = 0;
  checked_at = 0;
  primary = refusing;
  answered_at = ms 11;
  decided_at = ms 12;
  fallback_checked_at = ms 13;
  fallback = answering;
  fallback_answered_at = ms 30;
}

abbrev client : RpcClient
client = record {
  url = "https://a.example";
  fallback_url = some "https://b.example";
  client = ok tt;
  max_retries = 1;
  connect_timeout = ms 5000;
  last_attempt_count = 0;
  fallback_used = false;
  total_timeout = none;
  circuit_primary = some (new (record { failure_threshold = 2; cooldown = ms 1000 }) "primary");
  circuit_fallback = none;
}

perform_call-Limited_example :
    (r : Called sample) × (perform_call wire setting client ≡ some r)
    × Limited (deadline_of 0 none) (1 + 1) r
perform_call-Limited_example = perform_call-Limited wire setting client

perform_call-contacts_example :
    (p q : Posted sample) × (r : Called sample) × (post_and_parse wire client
        (deadline_of 0 none)
        refusing
      ≡ some p)
    × (post_and_parse wire client (deadline_of 0 none) answering ≡ some q)
    × (perform_call wire setting client ≡ some r)
    × (is_some r.to_fallback ≡ (
        not (rejects 0 client.circuit_primary)
        && (triggers p.answer
            && (not (past (deadline_of 0 none) (ms 12))
                && (is_some client.fallback_url && not (rejects (ms 13) none))))))
    × (r.answer ≡ (if is_some r.to_fallback then q.answer else kept wire setting client p.answer))
perform_call-contacts_example = perform_call-contacts wire setting client

served_role-any_example :
    (rs : List (Called sample)) × (last : RpcClient) × (perform_calls wire
        (setting ∷ setting ∷ [])
        client
      ≡ some (rs, last))
    × (served_role last ≡ (if any_contacted wire rs then "fallback" else "primary"))
served_role-any_example = served_role-any wire (setting ∷ setting ∷ []) client refl

to_http_url-to_websocket_url_example :
    (v : List Char) × (to_websocket_url {x = sample} (url_of (web true) ("h" ∷ chars "ost:8000"))
      ≡ ok v)
    × (to_http_url {x = sample} v ≡ ok (url_of (web true) ("h" ∷ chars "ost:8000")))
unfolding chars
to_http_url-to_websocket_url_example =
    to_http_url-to_websocket_url {x = sample} true "h" (chars "ost:8000") (inl (refl, refl))

redacted_headers-secret_example :
    redacted_headers ([] ++ (chars " Cookie" ++ ":" ∷ chars "a=1") ∷ [])
    ≡ redacted_headers ([] ++ (chars " Cookie" ++ "=" ∷ chars "b") ∷ [])
unfolding chars trim is_sensitive_header_text trim_end trim_start is_whitespace
redacted_headers-secret_example =
    redacted_headers-secret [] (chars " Cookie") ":" "=" (chars "a=1") (chars "b") [] refl refl refl
      refl

-- Three bytes, whatever the text.
abbrev three_bytes : List Char → Option (List ℕ)
three_bytes s = some (1 ∷ 2 ∷ 3 ∷ [])

parse_resource_fee-panics_iff_example :
    (parse_resource_fee {x = sample} three_bytes (λ s. "") (some (chars "AQID")) ≡ panics) ↔ (
      (parse_i64 (trim (chars "AQID")) ≡ none)
      × ((bytes : List ℕ) × (three_bytes (chars "AQID") ≡ some bytes) × (length bytes < 8)))
parse_resource_fee-panics_iff_example =
    parse_resource_fee-panics_iff {x = sample} three_bytes (λ s. "") (chars "AQID")
