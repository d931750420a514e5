-- ===== src/Rpc/Client/Url.antt =====
-- src/rpc/client.rs: the forms of the URL of an endpoint. A URL is the list of its characters.
pub mod Forms
pub mod RoundTrip
pub mod Endpoint
use Prim.Native.Char.{Char, code}
use Prim.Native.String.{String}
use soroban_cost_estimator.Prelude.{
  ℕ, Bool, true, false, ◌||◌, not, ◌==◌, if◌then◌else◌, Option, none, some, List, [], ◌∷◌, ◌++◌,
}
use soroban_cost_estimator.Text.{chars, of_chars, ◌<>◌, split}
use soroban_cost_estimator.Text.Search.{split_once, eq_chars, without_suffix, up_to, lowercase}
use soroban_cost_estimator.Error.{
  Externals, AppError, general, invalid_rpc_url, unknown_network, ok, err, AppResult, ◌>>=◌,
}

-- `str::is_empty`
abbrev pub is_empty : List Char → Bool
is_empty [] = true
is_empty (c ∷ s) = false

module _ {x : Externals} where
  unfoldable pub unsupported_scheme : List Char → AppError x
  unsupported_scheme url = general (
      "unsupported RPC URL `"
      <> of_chars url
      <> "`: expected a ws://, wss://, http://, or https:// URL")

  abbrev pub split_parts :
      List Char → Option (List Char × List Char) → AppResult x (List Char × List Char)
  split_parts url none = err (unsupported_scheme url)
  split_parts url (some (scheme, rest)) =
      if is_empty scheme || is_empty rest
      then err (unsupported_scheme url)
      else ok (lowercase scheme, rest)

  unfoldable pub split_url_scheme : List Char → AppResult x (List Char × List Char)
  unfolding split_once lowercase chars
  split_url_scheme url = split_parts url (split_once (chars "://") url)

-- `['?', '#']`
abbrev pub is_query : Char → Bool
is_query c = code c == b'?' || code c == b'#'

abbrev pub is_slash : Char → Bool
is_slash c = code c == b'/'

-- `split_once('/').is_some_and(|(_, path)| !path.is_empty())`
unfoldable pub has_path : List Char → Bool
has_path [] = false
has_path (c ∷ s) = let later = has_path s in if is_slash c then not (is_empty s) else later

-- `trim_end_matches('/')`
abbrev pub before_end : Char → List Char → List Char
before_end c [] = if is_slash c then [] else c ∷ []
before_end c (d ∷ s) = c ∷ d ∷ s

unfoldable pub trim_slashes : List Char → List Char
trim_slashes [] = []
trim_slashes (c ∷ s) = before_end c (trim_slashes s)

unfoldable pub with_ws_path : List Char → List Char
unfolding up_to has_path trim_slashes chars
with_ws_path rest =
    let path_part = up_to is_query rest in
    if has_path path_part then rest else trim_slashes path_part ++ chars "/ws"

-- `format!("{scheme}://{rest}")`
unfoldable pub url_of : List Char → List Char → List Char
unfolding chars
url_of scheme rest = scheme ++ (chars "://" ++ rest)

unfoldable pub ws_scheme : List Char → Option (List Char)
unfolding eq_chars chars
ws_scheme scheme =
    if eq_chars scheme (chars "ws") || eq_chars scheme (chars "wss")
    then some scheme
    else if eq_chars scheme (chars "http")
    then some (chars "ws")
    else if eq_chars scheme (chars "https")
    then some (chars "wss")
    else none

unfoldable pub http_scheme : List Char → Option (List Char)
unfolding eq_chars chars
http_scheme scheme =
    if eq_chars scheme (chars "http") || eq_chars scheme (chars "https")
    then some scheme
    else if eq_chars scheme (chars "ws")
    then some (chars "http")
    else if eq_chars scheme (chars "wss")
    then some (chars "https")
    else none

module _ {x : Externals} where
  abbrev pub with_scheme : List Char → List Char → Option (List Char) → AppResult x (List Char)
  with_scheme url rest none = err (unsupported_scheme url)
  with_scheme url rest (some scheme) = ok (url_of scheme rest)

  unfoldable pub to_websocket_url : List Char → AppResult x (List Char)
  unfolding split_url_scheme ws_scheme with_ws_path
  to_websocket_url url = do
    (scheme, rest) ← split_url_scheme url
    with_scheme url (with_ws_path rest) (ws_scheme scheme)

  unfoldable pub to_http_url : List Char → AppResult x (List Char)
  unfolding split_url_scheme http_scheme without_suffix chars
  to_http_url url = do
    (scheme, rest) ← split_url_scheme url
    with_scheme url (without_suffix (chars "/ws") rest) (http_scheme scheme)

-- `split("://").nth(1).unwrap_or(url)`: what is between the first two marks.
abbrev pub second_piece : List Char → Option (List Char × List Char) → List Char
second_piece url none = url
second_piece url (some (scheme, rest)) = first_piece rest (split_once (chars "://") rest)
  where
    first_piece : List Char → Option (List Char × List Char) → List Char
    first_piece rest none = rest
    first_piece rest (some (piece, more)) = piece

abbrev last_of : List Char → List (List Char) → List Char
last_of d [] = d
last_of d (p ∷ ps) = last_of p ps

unfoldable pub sanitize_host : List Char → List Char
unfolding split_once split up_to chars
sanitize_host url =
    let without_scheme = second_piece url (split_once (chars "://") url) in
    let host_part = up_to is_slash without_scheme in
    let host = last_of host_part (split b'@' host_part) in up_to (λ c. code c == b'?') host
