-- ===== src/Rpc/Client/Url/RoundTrip.antt =====
-- src/rpc/client.rs: the HTTP form of the websocket form of a URL.
use Prim.Native.Char.{Char}
use soroban_cost_estimator.Prelude.{
  ◌≡◌, refl, Bool, true, false, any, List, [], ◌∷◌, ◌++◌, arith, inl, inr, ◌⊎◌,
}
use soroban_cost_estimator.Text.{chars}
use soroban_cost_estimator.Text.Search.{
  split_once, strip_prefix, lower, eq_chars, without_suffix, without_suffix-append, up_to,
  lowercase,
}
use soroban_cost_estimator.Error.{Externals, ok}
use soroban_cost_estimator.Rpc.Client.Url.{
  split_url_scheme, is_query, is_slash, has_path, trim_slashes, before_end, with_ws_path, url_of,
  ws_scheme, http_scheme, to_websocket_url, to_http_url,
}
use soroban_cost_estimator.Rpc.Client.Url.Forms.{with_ws_path-cons}

up_to_none : (s : List Char) → any is_query s ≡ false → up_to is_query s ≡ s
unfolding up_to
up_to_none [] h = refl
up_to_none (c ∷ s) h = ground (arith, up_to_none s)

has_path_none : (s : List Char) → any is_slash s ≡ false → has_path s ≡ false
unfolding has_path
has_path_none [] h = refl
has_path_none (c ∷ s) h = ground (arith, has_path_none s)

before_end-other : (c : Char) (s : List Char) → is_slash c ≡ false → before_end c s ≡ c ∷ s
before_end-other c [] h = ground arith
before_end-other c (d ∷ s) h = refl

trim_slashes_none : (s : List Char) → any is_slash s ≡ false → trim_slashes s ≡ s
unfolding trim_slashes
trim_slashes_none [] h = refl
trim_slashes_none (c ∷ s) h =
    rw (trim_slashes_none s (ground arith)) (before_end-other c s (ground arith))

-- What stands behind `://`: a host alone, or a text with a path of its own, which as a whole, with
-- its query and its fragment, does not end in `/ws`.
abbrev pub Kept : List Char → Type 0
Kept rest =
    ((any is_slash rest ≡ false) × (any is_query rest ≡ false))
    ⊎ ((has_path (up_to is_query rest) ≡ true) × (without_suffix (chars "/ws") rest ≡ rest))

without_suffix-with_ws_path :
    (rest : List Char) → Kept rest → without_suffix (chars "/ws") (with_ws_path rest) ≡ rest
unfolding with_ws_path
without_suffix-with_ws_path rest (inl (host, plain)) =
    rw (up_to_none rest plain, has_path_none rest host, trim_slashes_none rest host)
      (without_suffix-append (chars "/ws") rest)
without_suffix-with_ws_path rest (inr (own, kept)) = rw own kept

-- `http` or `https`, and `ws` or `wss`
abbrev pub web : Bool → List Char
web false = chars "http"
web true = chars "https"

abbrev pub socket : Bool → List Char
socket false = chars "ws"
socket true = chars "wss"

module _ {x : Externals} where
  to_socket :
      (secure : Bool) (c : Char) (s : List Char)
      → to_websocket_url {x = x} (url_of (web secure) (c ∷ s))
        ≡ ok (url_of (socket secure) (with_ws_path (c ∷ s)))
  unfolding to_websocket_url split_url_scheme url_of chars split_once strip_prefix lowercase lower
      ws_scheme eq_chars
  to_socket false c s = refl
  to_socket true c s = refl

  to_web :
      (secure : Bool) (c : Char) (s : List Char)
      → to_http_url {x = x} (url_of (socket secure) (c ∷ s))
        ≡ ok (url_of (web secure) (without_suffix (chars "/ws") (c ∷ s)))
  unfolding to_http_url split_url_scheme url_of chars split_once strip_prefix lowercase lower
      http_scheme eq_chars
  to_web false c s = refl
  to_web true c s = refl

  -- An HTTP URL, with or without TLS, has a websocket form, and the HTTP form of that is the URL
  -- again, if what stands behind `://` is a host alone, without a slash, a query or a fragment, or
  -- if it has a path of its own and the whole of it, with its query and its fragment, does not end
  -- in `/ws`.
  pub to_http_url-to_websocket_url :
      (secure : Bool) (c : Char) (s : List Char)
      → Kept (c ∷ s)
      → (v : List Char) × (to_websocket_url {x = x} (url_of (web secure) (c ∷ s)) ≡ ok v)
        × (to_http_url {x = x} v ≡ ok (url_of (web secure) (c ∷ s)))
  to_http_url-to_websocket_url secure c s h =
      let (d, t, e) = with_ws_path-cons (c ∷ s) in
      let back : without_suffix (chars "/ws") (d ∷ t) ≡ c ∷ s =
        rw e at (without_suffix-with_ws_path (c ∷ s) h) in
      (
        url_of (socket secure) (with_ws_path (c ∷ s)),
        to_socket secure c s,
        rw (e, to_web secure d t, back) refl,
      )

up_to_query :
    (host : List Char) (c : Char) (query : List Char)
    → any is_query host ≡ false
    → is_query c ≡ true
    → up_to is_query (host ++ c ∷ query) ≡ host
unfolding up_to
up_to_query [] c query h hc = rw hc refl
up_to_query (a ∷ host) c query h hc = ground (arith, up_to_query host c query)

with_ws_path-query :
    (host : List Char) (c : Char) (query : List Char)
    → any is_slash host ≡ false
    → any is_query host ≡ false
    → is_query c ≡ true
    → with_ws_path (host ++ c ∷ query) ≡ with_ws_path host
unfolding with_ws_path
with_ws_path-query host c query hs hq hc =
    rw (up_to_query host c query hq hc, up_to_none host hq, has_path_none host hs) refl

-- The websocket form of an HTTP URL that is a host and a query or a fragment, with no slash in
-- front of it, does not depend on the query or the fragment: it is dropped.
pub to_websocket_url-query :
    {x : Externals} (secure : Bool) (a : Char) (host : List Char) (c : Char) (query : List Char)
    → any is_slash (a ∷ host) ≡ false
    → any is_query (a ∷ host) ≡ false
    → is_query c ≡ true
    → to_websocket_url {x = x} (url_of (web secure) (a ∷ (host ++ c ∷ query)))
      ≡ to_websocket_url (url_of (web secure) (a ∷ host))
to_websocket_url-query {x} secure a host c query hs hq hc =
    let e : with_ws_path (a ∷ (host ++ c ∷ query)) ≡ with_ws_path (a ∷ host) =
      with_ws_path-query (a ∷ host) c query hs hq hc in
    rw (to_socket {x = x} secure a (host ++ c ∷ query), to_socket {x = x} secure a host, e) refl
