-- ===== src/Wasm/Memory/Limits.antt =====
-- src/wasm/parser.rs: which memories are warned of.
use Prim.Native.String.{String}
use soroban_cost_estimator.Prelude.{
  ℕ, ◌+◌, ◌≤◌, ◌≡◌, refl, ◌↔◌, Option, none, some, List, [], ◌∷◌, ◌++◌, arith, All, length,
}
use soroban_cost_estimator.Text.{◌<>◌}
use soroban_cost_estimator.Wasm.Memory.{
  MemoryDeclaration, over_limit, maximum_over, page_bytes, memory_label, memory_warnings,
  warnings_from, with_rest, joined, validate_wasm_memory_limits,
}

abbrev pub UpTo : ℕ → Option ℕ → Type 0
UpTo n none = Unit
UpTo n (some pages) = pages ≤ n

-- A memory of 40 MB at most, in whole pages, now and when it grows.
abbrev pub Fits : MemoryDeclaration → Type 0
Fits m = (m.info.initial_pages ≤ 610) × UpTo 610 m.info.maximum_pages

append-nil_iff : {A : Type 0} (xs ys : List A) → (xs ++ ys ≡ []) ↔ ((xs ≡ []) × (ys ≡ []))
append-nil_iff [] ys = ground arith
append-nil_iff (x ∷ xs) ys = ground arith

over_limit-nil_iff :
    (kind : String) (pages bytes : ℕ) → (over_limit kind pages bytes ≡ []) ↔ (pages ≤ 610)
over_limit-nil_iff kind pages bytes = ground arith

maximum_over-nil_iff :
    (kind : String) (o : Option ℕ) → (maximum_over page_bytes kind o ≡ []) ↔ UpTo 610 o
maximum_over-nil_iff kind none = ground arith
maximum_over-nil_iff kind (some pages) = over_limit-nil_iff kind pages (page_bytes pages)

warnings_from-nil_iff :
    (declared index : ℕ) (ms : List MemoryDeclaration)
    → (warnings_from declared index ms ≡ []) ↔ All Fits ms
unfolding warnings_from
warnings_from-nil_iff declared index [] = ground arith
warnings_from-nil_iff declared index (m ∷ ms) =
    let label = memory_label declared index m.imported in
    let initial =
      over_limit-nil_iff (label <> ": initial") m.info.initial_pages
        (page_bytes m.info.initial_pages) in
    let maximum = maximum_over-nil_iff (label <> ": maximum") m.info.maximum_pages in
    let here =
      append-nil_iff
        (over_limit (label <> ": initial") m.info.initial_pages (page_bytes m.info.initial_pages))
        (maximum_over page_bytes (label <> ": maximum") m.info.maximum_pages) in
    let both =
      append-nil_iff (memory_warnings label m.info) (warnings_from declared (index + 1) ms) in
    let rest = warnings_from-nil_iff declared (index + 1) ms in
    (
      λ e. let (h, t) = both.0 e in let (i, x) = here.0 h in ((initial.0 i, maximum.0 x), rest.0 t),
      λ f. both.1 (here.1 (initial.1 f.0.0, maximum.1 f.0.1), rest.1 f.1),
    )

with_rest-some : (w : String) (o : Option String) → with_rest w o ≡ none → ⊥
with_rest-some w none e = absurd (cc)
with_rest-some w (some r) e = absurd (cc)

joined-none_iff : (ws : List String) → (joined ws ≡ none) ↔ (ws ≡ [])
unfolding joined
joined-none_iff [] = (λ _. refl, λ _. refl)
joined-none_iff (w ∷ []) = ground arith
joined-none_iff (w ∷ v ∷ ws) =
    (λ e. absurd (with_rest-some w (joined (v ∷ ws)) e), λ e. absurd (cc))

-- A module is not warned of exactly when each memory that it declares or imports has at most 610
-- pages, the whole pages in 40 MB, at first and, if it states a maximum, at most.
pub validate_wasm_memory_limits-none_iff :
    (memories : List MemoryDeclaration)
    → (validate_wasm_memory_limits memories ≡ none) ↔ All Fits memories
unfolding validate_wasm_memory_limits
validate_wasm_memory_limits-none_iff memories =
    let texts = joined-none_iff (warnings_from (length memories) 0 memories) in
    let warned = warnings_from-nil_iff (length memories) 0 memories in
    (λ e. warned.0 (texts.0 e), λ f. texts.1 (warned.1 f))
