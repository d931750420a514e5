-- ===== src/Rpc/Client/Headers.antt =====
-- src/rpc/client.rs: custom headers, their parse and what the logs show of them. A text is the list of
-- its characters. The checks of a name and of a value by the crate `http` are parameters.
pub mod Redacted
use Prim.Native.Char.{Char, code}
use soroban_cost_estimator.Prelude.{
  Bool, true, false, ◌||◌, ◌==◌, if◌then◌else◌, Option, none, some, List, [], ◌∷◌, ◌++◌, any,
}
use soroban_cost_estimator.Text.{chars, of_chars, ◌<>◌}
use Prim.Native.String.{String}
use soroban_cost_estimator.Text.Parse.{trim}
use soroban_cost_estimator.Text.Search.{eq_chars, lowercase}
use soroban_cost_estimator.Error.{Externals, AppError, invalid_header, ok, err, AppResult, ◌>>=◌}
use soroban_cost_estimator.Rpc.Client.Url.{is_empty}

abbrev pub sensitive_headers : List (List Char)
sensitive_headers =
    chars "authorization"
    ∷ chars "proxy-authorization"
    ∷ chars "x-api-key"
    ∷ chars "api-key"
    ∷ chars "cookie"
    ∷ []

abbrev pub redacted : List Char
redacted = chars "<redacted>"

-- `=` or `:`
abbrev pub is_separator : Char → Bool
is_separator c = code c == b'=' || code c == b':'

abbrev pub in_front : Char → Option (List Char × List Char) → Option (List Char × List Char)
in_front c none = none
in_front c (some (name, value)) = some (c ∷ name, value)

-- The text in front of the first separator and the text behind it.
unfoldable pub split_separator : List Char → Option (List Char × List Char)
split_separator [] = none
split_separator (c ∷ s) =
    let later = split_separator s in if is_separator c then some ([], s) else in_front c later

abbrev pub trimmed : Option (List Char × List Char) → Option (List Char × List Char)
trimmed none = none
trimmed (some (name, value)) = some (trim name, trim value)

unfoldable pub split_header : List Char → Option (List Char × List Char)
unfolding split_separator trim
split_header raw = trimmed (split_separator raw)

unfoldable pub is_sensitive : List Char → Bool
unfolding lowercase eq_chars chars
is_sensitive name = any (λ s. eq_chars s (lowercase name)) sensitive_headers

unfoldable pub is_sensitive_header_text : List Char → Bool
unfolding is_sensitive trim
is_sensitive_header_text name = is_sensitive (trim name)

abbrev pub shown : List Char → Option (List Char × List Char) → List Char
shown raw none = raw
shown raw (some (name, value)) =
    if is_sensitive_header_text name then name ++ (chars "=" ++ redacted) else raw

-- What is shown of one raw header.
unfoldable pub render : List Char → List Char
unfolding split_header is_sensitive_header_text chars
render raw = shown raw (split_header raw)

unfoldable pub join : List Char → List (List Char) → List Char
join sep [] = []
join sep (p ∷ []) = p
join sep (p ∷ q ∷ ps) = p ++ (sep ++ join sep (q ∷ ps))

unfoldable pub render_all : List (List Char) → List (List Char)
unfolding render
render_all [] = []
render_all (raw ∷ raws) = render raw ∷ render_all raws

unfoldable pub redacted_headers : List (List Char) → List Char
unfolding render_all join chars
redacted_headers [] = chars "(none)"
redacted_headers (raw ∷ raws) = join (chars ", ") (render_all (raw ∷ raws))

-- `HeaderName` and `HeaderValue`: a name is printed in lower case and is its text.
pub record HeaderTypes : Type 1 where
  pub Name : Type 0
  pub Value : Type 0
  pub from_bytes : List Char → Option Name
  pub from_str : List Char → Option Value
  pub name_error : List Char → String
  pub value_error : List Char → String
  pub as_str : Name → List Char
  pub from_static : List Char → Value

module _ (h : HeaderTypes) where
  -- The entries of a `HeaderMap` with one value for each name.
  abbrev pub HeaderMap : Type 0
  HeaderMap = List (h.Name × h.Value)

  unfoldable pub is_sensitive_header : h.Name → Bool
  unfolding is_sensitive
  is_sensitive_header name = is_sensitive (h.as_str name)

  unfoldable pub redact_sensitive : HeaderMap → HeaderMap
  unfolding is_sensitive_header
  redact_sensitive [] = []
  redact_sensitive ((name, value) ∷ headers) =
      (name, if is_sensitive_header name then h.from_static redacted else value)
      ∷ redact_sensitive headers

  -- `HeaderMap::insert`: the value of the name is replaced, or the entry is new.
  unfoldable pub insert : h.Name → h.Value → HeaderMap → HeaderMap
  unfolding eq_chars
  insert name value [] = (name, value) ∷ []
  insert name value ((n, v) ∷ headers) =
      let rest = insert name value headers in
      if eq_chars (h.as_str n) (h.as_str name) then (n, value) ∷ headers else (n, v) ∷ rest

  module _ {x : Externals} where
    abbrev name_of : List Char → Option h.Name → AppResult x h.Name
    name_of text none =
        err
          (invalid_header ("invalid header name '" <> of_chars text <> "': " <> h.name_error text))
    name_of text (some name) = ok name

    abbrev value_of : List Char → List Char → Option h.Value → AppResult x h.Value
    value_of name text none = err (
        invalid_header
          ("invalid header value for '" <> of_chars name <> "': " <> h.value_error text))
    value_of name text (some value) = ok value

    abbrev non_empty : List Char → String → AppResult x Unit
    non_empty text message = if is_empty text then err (invalid_header message) else ok tt

    abbrev header_of : List Char → Option (List Char × List Char) → AppResult x (h.Name × h.Value)
    header_of raw none =
        err (invalid_header ("'" <> of_chars raw <> "' is not a KEY=VALUE pair (or KEY: VALUE)"))
    header_of raw (some (name_str, value_str)) = do
      _ ← non_empty name_str ("'" <> of_chars raw <> "' has an empty header name")
      name ← name_of name_str (h.from_bytes name_str)
      _ ← non_empty value_str ("header '" <> of_chars name_str <> "' has an empty value")
      value ← value_of name_str value_str (h.from_str value_str)
      ok (name, value)

    unfoldable pub parse_header : List Char → AppResult x (h.Name × h.Value)
    unfolding split_header
    parse_header raw = header_of raw (split_header raw)

    -- The loop, with the headers read so far.
    unfoldable pub parse_onto : HeaderMap → List (List Char) → AppResult x HeaderMap
    unfolding parse_header insert
    parse_onto headers [] = ok headers
    parse_onto headers (raw ∷ raws) = do
      (name, value) ← parse_header raw
      parse_onto (insert name value headers) raws

    unfoldable pub parse_headers : List (List Char) → AppResult x HeaderMap
    unfolding parse_onto
    parse_headers raws = parse_onto [] raws
