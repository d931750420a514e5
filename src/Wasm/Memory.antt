-- ===== src/Wasm/Memory.antt =====
-- src/wasm/parser.rs: the limits on linear memory and the estimate of what an optimized build saves.
-- The memories that a module declares are an argument: the crate `wasmparser` reads them. u64 wraps as
-- in a release build.
pub mod Limits
use Prim.Native.String.{String}
use text.Mathlib.Text.{◌==◌ as str_eq}
use soroban_cost_estimator.Prelude.{
  ℕ, zero, suc, ◌+◌, ◌*◌, ◌/◌, ◌%◌, ◌^◌, min, max, Bool, true, false, ◌||◌, ltb, ◌==◌,
  if◌then◌else◌, Option, none, some, List, [], ◌∷◌, ◌++◌, length,
}
use soroban_cost_estimator.Prelude.Machine.{u64_max}
use soroban_cost_estimator.Text.{chars, of_chars, ◌<>◌, show}
use soroban_cost_estimator.Text.Search.{strip_prefix}
use soroban_cost_estimator.Wasm.Sections.{SectionInfo}

abbrev pub wasm_page_size_bytes : ℕ
wasm_page_size_bytes = 65536

abbrev pub soroban_tx_memory_limit_bytes : ℕ
soroban_tx_memory_limit_bytes = 40000000

abbrev pub soroban_max_wasm_pages : ℕ
soroban_max_wasm_pages = soroban_tx_memory_limit_bytes / wasm_page_size_bytes

pub record MemoryInfo : Type 0 where
  pub initial_pages : ℕ
  pub maximum_pages : Option ℕ
  pub memory64 : Bool

pub record MemoryDeclaration : Type 0 where
  pub info : MemoryInfo
  pub imported : Bool

abbrev pub decimal : ℕ → String
decimal n = of_chars (show n)

-- `saturating_mul(WASM_PAGE_SIZE_BYTES)`
abbrev pub page_bytes : ℕ → ℕ
page_bytes pages = min (pages * wasm_page_size_bytes) u64_max

-- `{kind} size {pages} pages ({bytes} bytes) exceeds Soroban limit of …`
unfoldable pub limit_text : String → ℕ → ℕ → String
limit_text kind pages bytes =
    kind
    <> " size "
    <> decimal pages
    <> " pages ("
    <> decimal bytes
    <> " bytes) exceeds Soroban limit of "
    <> decimal soroban_max_wasm_pages
    <> " pages ("
    <> decimal soroban_tx_memory_limit_bytes
    <> " bytes)"

unfoldable pub memory_label : (declared index : ℕ) → Bool → String
memory_label declared index true = "Imported memory[" <> decimal index <> "]"
memory_label declared index false =
    if declared == 1 then "Memory" else "Memory[" <> decimal index <> "]"

abbrev pub over_limit : String → ℕ → ℕ → List String
over_limit kind pages bytes =
    if ltb soroban_max_wasm_pages pages then limit_text kind pages bytes ∷ [] else []

abbrev pub maximum_over : (ℕ → ℕ) → String → Option ℕ → List String
maximum_over bytes_of kind none = []
maximum_over bytes_of kind (some pages) = over_limit kind pages (bytes_of pages)

abbrev pub memory_warnings : String → MemoryInfo → List String
memory_warnings label info =
    over_limit (label <> ": initial") info.initial_pages (page_bytes info.initial_pages)
    ++ maximum_over page_bytes (label <> ": maximum") info.maximum_pages

unfoldable pub warnings_from : (declared index : ℕ) → List MemoryDeclaration → List String
unfolding memory_label limit_text
warnings_from declared index [] = []
warnings_from declared index (m ∷ ms) =
    memory_warnings (memory_label declared index m.imported) m.info
    ++ warnings_from declared (index + 1) ms

abbrev pub with_rest : String → Option String → Option String
with_rest w none = some w
with_rest w (some rest) = some (w <> "; " <> rest)

-- `warnings.join("; ")`, if there are any
unfoldable pub joined : List String → Option String
joined [] = none
joined (w ∷ []) = some w
joined (w ∷ v ∷ ws) = with_rest w (joined (v ∷ ws))

unfoldable pub validate_wasm_memory_limits : List MemoryDeclaration → Option String
unfolding warnings_from joined
validate_wasm_memory_limits memories = joined (warnings_from (length memories) 0 memories)

-- The product is not saturated here.
abbrev pub wrapped_bytes : ℕ → ℕ
wrapped_bytes pages = pages * wasm_page_size_bytes % 2 ^ 64

unfoldable pub validate_wasm_memory_limit_for_memory : MemoryInfo → Option String
unfolding joined limit_text
validate_wasm_memory_limit_for_memory memory = joined (
    over_limit "initial" memory.initial_pages (wrapped_bytes memory.initial_pages)
    ++ maximum_over wrapped_bytes "maximum" memory.maximum_pages)

-- `try_from(n).unwrap_or(1)` into u32
abbrev pub u32_or_one : ℕ → ℕ
u32_or_one n = if ltb n (2 ^ 32) then n else 1

unfoldable pub estimated_size_reduction_percent : (bytes debug_symbol_bytes : ℕ) → ℕ
estimated_size_reduction_percent bytes debug_symbol_bytes =
    if debug_symbol_bytes == 0 || bytes == 0
    then 0
    else u32_or_one (max ((debug_symbol_bytes * 100 % 2 ^ 64 + bytes / 2) % 2 ^ 64 / bytes) 1)

-- `starts_with(".debug")`
abbrev pub found : {A : Type 0} → Option A → Bool
found none = false
found (some a) = true

unfoldable pub is_debug_custom_section : String → Bool
unfolding strip_prefix chars
is_debug_custom_section name =
    str_eq name "name" || found (strip_prefix (chars ".debug") (chars name))

unfoldable pub format_optimization_tip : Bool → (bytes debug_symbol_bytes : ℕ) → Option String
unfolding estimated_size_reduction_percent
format_optimization_tip false bytes debug_symbol_bytes = none
format_optimization_tip true bytes debug_symbol_bytes = some (
    "💡 Tip: Unoptimized WASM detected (contains debug symbols). Run `soroban contract optimize` or `wasm-opt` to reduce upload cost by ~"
    <> decimal (estimated_size_reduction_percent bytes debug_symbol_bytes)
    <> "%")
