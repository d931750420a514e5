-- ===== src/Rpc/Client/Headers/Redacted.antt =====
-- src/rpc/client.rs: what the logs show of headers.
use Prim.Native.Char.{Char}
use soroban_cost_estimator.Prelude.{
  ◌≡◌, refl, true, false, any, some, List, [], ◌∷◌, ◌++◌, arith, ◌∙◌, sym,
}
use soroban_cost_estimator.Text.{chars}
use soroban_cost_estimator.Text.Parse.{trim}
use soroban_cost_estimator.Rpc.Client.Headers.{
  is_separator, split_separator, split_header, is_sensitive_header_text, render, render_all,
  redacted_headers, redacted, join,
}

split_separator-at :
    (name : List Char) (c : Char) (value : List Char)
    → any is_separator name ≡ false
    → is_separator c ≡ true
    → split_separator (name ++ c ∷ value) ≡ some (name, value)
unfolding split_separator
split_separator-at [] c value h hc = rw hc refl
split_separator-at (a ∷ name) c value h hc = ground (arith, split_separator-at name c value)

render_sensitive :
    (name : List Char) (c : Char) (value : List Char)
    → any is_separator name ≡ false
    → is_separator c ≡ true
    → is_sensitive_header_text (trim name) ≡ true
    → render (name ++ c ∷ value) ≡ trim name ++ (chars "=" ++ redacted)
unfolding render split_header
render_sensitive name c value h hc secret = rw (split_separator-at name c value h hc, secret) refl

render_all-swap :
    (before : List (List Char)) (a b : List Char) (after : List (List Char))
    → render a ≡ render b
    → render_all (before ++ a ∷ after) ≡ render_all (before ++ b ∷ after)
unfolding render_all
render_all-swap [] a b after h = rw h refl
render_all-swap (r ∷ before) a b after h = rw (render_all-swap before a b after h) refl

redacted-join :
    (before : List (List Char)) (a : List Char) (after : List (List Char))
    → redacted_headers (before ++ a ∷ after) ≡ join (chars ", ") (render_all (before ++ a ∷ after))
unfolding redacted_headers
redacted-join [] a after = refl
redacted-join (r ∷ before) a after = refl

-- What is logged of a list of raw headers does not depend on the value of a header whose name,
-- read without its case and the space around it, is a sensitive one, nor on which of the two
-- separators it is written with.
pub redacted_headers-secret :
    (before : List (List Char)) (name : List Char) (c d : Char) (v w : List Char)
    (after : List (List Char))
    → any is_separator name ≡ false
    → is_separator c ≡ true
    → is_separator d ≡ true
    → is_sensitive_header_text (trim name) ≡ true
    → redacted_headers (before ++ (name ++ c ∷ v) ∷ after)
      ≡ redacted_headers (before ++ (name ++ d ∷ w) ∷ after)
redacted_headers-secret before name c d v w after h hc hd secret =
    let same : render (name ++ c ∷ v) ≡ render (name ++ d ∷ w) =
      render_sensitive name c v h hc secret ∙ sym (render_sensitive name d w h hd secret) in
    rw
      (
        redacted-join before (name ++ c ∷ v) after,
        redacted-join before (name ++ d ∷ w) after,
        render_all-swap before (name ++ c ∷ v) (name ++ d ∷ w) after same,
      )
      refl
