-- ===== src/Rpc/Client/Url/Forms.antt =====
-- src/rpc/client.rs: the websocket form and the HTTP form of a URL.
use Prim.Native.Char.{Char}
use soroban_cost_estimator.Prelude.{
  ◌≡◌, refl, true, false, any, Option, none, some, List, [], ◌∷◌, ◌++◌, arith, Bool-cases, inl, inr,
  ◌⊎◌,
}
use soroban_cost_estimator.Text.{chars}
use soroban_cost_estimator.Text.Search.{
  split_once, strip_prefix, lower, eq_chars, eq_chars_sound, up_to, lowercase,
}
use soroban_cost_estimator.Error.{Externals, ok, err, AppResult}
use soroban_cost_estimator.Rpc.Client.Url.{
  is_empty, split_url_scheme, is_query, has_path, trim_slashes, before_end, with_ws_path, url_of,
  ws_scheme, with_scheme, to_websocket_url,
}

up_to-plain : (s : List Char) → any is_query (up_to is_query s) ≡ false
unfolding up_to
up_to-plain [] = refl
up_to-plain (c ∷ s) = ground (arith, up_to-plain s)

before_end-plain :
    (c : Char) (s : List Char)
    → is_query c ≡ false
    → any is_query s ≡ false
    → any is_query (before_end c s) ≡ false
before_end-plain c [] hc hs = ground arith
before_end-plain c (d ∷ s) hc hs = ground arith

trim_slashes-plain :
    (s : List Char) → any is_query s ≡ false → any is_query (trim_slashes s) ≡ false
unfolding trim_slashes
trim_slashes-plain [] h = refl
trim_slashes-plain (c ∷ s) h =
    before_end-plain c (trim_slashes s) (ground arith) (trim_slashes-plain s (ground arith))

-- The path `/ws` behind a text without a query.
up_to-ws :
    (s : List Char) → any is_query s ≡ false → up_to is_query (s ++ chars "/ws") ≡ s ++ chars "/ws"
unfolding up_to chars
up_to-ws [] h = refl
up_to-ws (c ∷ s) h = ground (arith, up_to-ws s)

longer : (s : List Char) → is_empty (s ++ chars "/ws") ≡ false
unfolding chars
longer [] = refl
longer (c ∷ s) = refl

has_path-ws : (s : List Char) → has_path (s ++ chars "/ws") ≡ true
unfolding has_path chars
has_path-ws [] = refl
has_path-ws (c ∷ s) = ground (arith, has_path-ws s, longer s)

with_ws_path-twice : (rest : List Char) → with_ws_path (with_ws_path rest) ≡ with_ws_path rest
unfolding with_ws_path
with_ws_path-twice rest = elim (Bool-cases (has_path (up_to is_query rest))) [
  | inl own ↦ ground (arith, own)
  | inr bare ↦
      let s = trim_slashes (up_to is_query rest) in
      let e = up_to-ws s (trim_slashes-plain (up_to is_query rest) (up_to-plain rest)) in
      ground (arith, bare, e, has_path-ws s)
]

-- A websocket scheme is `ws` or `wss`.
ws_scheme-cases :
    (scheme t : List Char) → ws_scheme scheme ≡ some t → (t ≡ chars "ws") ⊎ (t ≡ chars "wss")
unfolding ws_scheme
ws_scheme-cases scheme t h = elim (Bool-cases (eq_chars scheme (chars "ws"))) [
  | inl is_ws ↦ inl (ground (arith, is_ws, eq_chars_sound scheme (chars "ws") is_ws))
  | inr not_ws ↦ elim (Bool-cases (eq_chars scheme (chars "wss"))) [
    | inl is_wss ↦ inr (ground (arith, not_ws, is_wss, eq_chars_sound scheme (chars "wss") is_wss))
    | inr not_wss ↦ ground (arith, not_ws, not_wss)
  ]
]

cons-append : (s : List Char) → (c : Char) × (t : List Char) × (s ++ chars "/ws" ≡ c ∷ t)
unfolding chars
cons-append [] = (_, _, refl)
cons-append (c ∷ s) = (c, s ++ chars "/ws", refl)

pub with_ws_path-cons :
    (rest : List Char) → (c : Char) × (t : List Char) × (with_ws_path rest ≡ c ∷ t)
unfolding with_ws_path up_to has_path
with_ws_path-cons [] = cons-append []
with_ws_path-cons (c ∷ s) = elim (Bool-cases (has_path (up_to is_query (c ∷ s)))) [
  | inl own ↦ (c, s, rw own refl)
  | inr bare ↦ rw bare (cons-append (trim_slashes (up_to is_query (c ∷ s))))
]

module _ {x : Externals} where
  split_ws :
      (c : Char) (s : List Char)
      → split_url_scheme {x = x} (url_of (chars "ws") (c ∷ s)) ≡ ok (chars "ws", c ∷ s)
  unfolding split_url_scheme url_of chars split_once strip_prefix lowercase lower
  split_ws c s = refl

  split_wss :
      (c : Char) (s : List Char)
      → split_url_scheme {x = x} (url_of (chars "wss") (c ∷ s)) ≡ ok (chars "wss", c ∷ s)
  unfolding split_url_scheme url_of chars split_once strip_prefix lowercase lower
  split_wss c s = refl

  fixed_ws :
      (rest : List Char)
      → to_websocket_url {x = x} (url_of (chars "ws") (with_ws_path rest))
        ≡ ok (url_of (chars "ws") (with_ws_path rest))
  unfolding to_websocket_url
  fixed_ws rest =
      let (c, t, e) = with_ws_path-cons rest in
      let same : with_ws_path (c ∷ t) ≡ c ∷ t = rw e at (with_ws_path-twice rest) in
      rw (e, split_ws c t, same) refl

  fixed_wss :
      (rest : List Char)
      → to_websocket_url {x = x} (url_of (chars "wss") (with_ws_path rest))
        ≡ ok (url_of (chars "wss") (with_ws_path rest))
  unfolding to_websocket_url
  fixed_wss rest =
      let (c, t, e) = with_ws_path-cons rest in
      let same : with_ws_path (c ∷ t) ≡ c ∷ t = rw e at (with_ws_path-twice rest) in
      rw (e, split_wss c t, same) refl

  fixed_scheme :
      (url scheme rest v : List Char) (o : Option (List Char))
      → ws_scheme scheme ≡ o
      → with_scheme {x = x} url (with_ws_path rest) o ≡ ok v
      → to_websocket_url {x = x} v ≡ ok v
  fixed_scheme url scheme rest v none hs h = absurd (cc)
  fixed_scheme url scheme rest v (some t) hs h =
      let e : url_of t (with_ws_path rest) ≡ v = ground (arith, h) in
      elim (ws_scheme-cases scheme t hs) [
        | inl is_ws ↦ rw (← e, is_ws) (fixed_ws rest)
        | inr is_wss ↦ rw (← e, is_wss) (fixed_wss rest)
      ]

  fixed_parts :
      (url v : List Char) (o : AppResult x (List Char × List Char))
      → split_url_scheme url ≡ o
      → to_websocket_url {x = x} url ≡ ok v
      → to_websocket_url {x = x} v ≡ ok v
  unfolding to_websocket_url
  fixed_parts url v (err e) ho h = absurd (ground (arith, ho, h))
  fixed_parts url v (ok (scheme, rest)) ho h =
      fixed_scheme url scheme rest v (ws_scheme scheme) refl (rw ho at h)

  -- The websocket form of a URL is its own websocket form.
  pub to_websocket_url-twice :
      (url v : List Char) → to_websocket_url {x = x} url ≡ ok v → to_websocket_url {x = x} v ≡ ok v
  to_websocket_url-twice url v h = fixed_parts url v (split_url_scheme url) refl h
