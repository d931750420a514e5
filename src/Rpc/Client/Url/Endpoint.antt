-- ===== src/Rpc/Client/Url/Endpoint.antt =====
-- src/rpc/client.rs: the choice and the check of an endpoint. A URL is the list of its characters; its
-- parse by the crate `url` is a parameter. The overrides are a function of the network's name; a
-- poisoned lock is left out.
use Prim.Native.Char.{Char}
use Prim.Native.String.{String}
use text.Mathlib.Text.{◌==◌ as str_eq}
use soroban_cost_estimator.Prelude.{
  ℕ, zero, Bool, true, false, ◌||◌, not, if◌then◌else◌, Option, none, some, List,
}
use soroban_cost_estimator.Text.{chars, of_chars, ◌<>◌}
use soroban_cost_estimator.Text.Search.{eq_chars}
use soroban_cost_estimator.Error.{
  Externals, invalid_rpc_url, unknown_network, ok, err, AppResult, ◌>>=◌,
}
use soroban_cost_estimator.Rpc.Client.Url.{is_empty, to_websocket_url}

-- `reqwest::Url`
pub record Urls : Type 1 where
  pub Url : Type 0
  -- the URL, or the text of the error
  pub parse : List Char → Option Url
  pub parse_error : List Char → String
  pub scheme : Url → List Char
  pub host_str : Url → Option (List Char)
  pub port : Url → Option ℕ

unfoldable pub is_supported_scheme : List Char → Bool
unfolding eq_chars chars
is_supported_scheme scheme =
    eq_chars scheme (chars "http")
    || eq_chars scheme (chars "https")
    || eq_chars scheme (chars "ws")
    || eq_chars scheme (chars "wss")

-- `is_none_or(str::is_empty)`
abbrev pub lacks_host : Option (List Char) → Bool
lacks_host none = true
lacks_host (some host) = is_empty host

-- `== Some(0)`
abbrev pub is_port_zero : Option ℕ → Bool
is_port_zero (some zero) = true
is_port_zero _ = false

module _ {x : Externals} (urls : Urls) where
  abbrev pub check_url : List Char → Option urls.Url → AppResult x Unit
  check_url url none =
      err
        (invalid_rpc_url ("`" <> of_chars url <> "` is not a valid URL: " <> urls.parse_error url))
  check_url url (some parsed) =
      if not (is_supported_scheme (urls.scheme parsed))
      then err (
          invalid_rpc_url (
            "`"
            <> of_chars url
            <> "` uses unsupported scheme `"
            <> of_chars (urls.scheme parsed)
            <> "`; expected http://, https://, ws://, or wss://"))
      else if lacks_host (urls.host_str parsed)
      then err (invalid_rpc_url ("`" <> of_chars url <> "` is missing a host"))
      else if is_port_zero (urls.port parsed)
      then err (invalid_rpc_url ("`" <> of_chars url <> "` has an invalid port 0"))
      else ok tt

  unfoldable pub validate_rpc_url : List Char → AppResult x Unit
  unfolding is_supported_scheme
  validate_rpc_url url = check_url url (urls.parse url)

  -- The well-known URLs.
  unfoldable pub known_endpoint : String → AppResult x (List Char)
  unfolding chars
  known_endpoint network =
      if str_eq network "testnet"
      then ok (chars "https://soroban-testnet.stellar.org")
      else if str_eq network "mainnet"
      then ok (chars "https://soroban.stellar.org")
      else if str_eq network "futurenet"
      then ok (chars "https://rpc-futurenet.stellar.org")
      else err (unknown_network network)

  abbrev pub valid : List Char → AppResult x (List Char)
  valid url = do _ ← validate_rpc_url url; ok url

  -- `endpoint_override(network)`, and else the well-known URL
  abbrev pub overridden : String → Option (List Char) → AppResult x (List Char)
  overridden network (some url) = valid url
  overridden network none = known_endpoint network

  module _ (endpoint_override : String → Option (List Char)) where
    unfoldable pub resolve_endpoint : String → Option (List Char) → AppResult x (List Char)
    unfolding validate_rpc_url known_endpoint
    resolve_endpoint network (some url) = valid url
    resolve_endpoint network none = overridden network (endpoint_override network)

    unfoldable pub resolve_ws_endpoint : String → Option (List Char) → AppResult x (List Char)
    unfolding resolve_endpoint to_websocket_url
    resolve_ws_endpoint network (some url) = to_websocket_url url
    resolve_ws_endpoint network none = do
      http_endpoint ← resolve_endpoint network none
      to_websocket_url http_endpoint
