-- ===== src/Report/Abi/Print.antt =====
-- src/report/diff.rs, `format_abi_diff`.
use Prim.Native.String.{String}
use soroban_cost_estimator.Prelude.{if◌then◌else◌, List, [], ◌∷◌, ◌++◌}
use soroban_cost_estimator.Text.{◌<>◌}
use soroban_cost_estimator.Report.Abi.{FunctionAbiChange, ContractAbiDiff, is_empty}

join_lines : List String → String
join_lines [] = ""
join_lines (line ∷ []) = line
join_lines (line ∷ next ∷ rest) = line <> "\n" <> join_lines (next ∷ rest)

function_lines : String → List String → List String
function_lines sign [] = []
function_lines sign (f ∷ fs) = ("    " <> sign <> " " <> f) ∷ function_lines sign fs

modified_lines : List FunctionAbiChange → List String
modified_lines [] = []
modified_lines (f ∷ fs) =
    ("    ~ " <> f.name <> ":")
    ∷ ("      old: " <> f.old_signature)
    ∷ ("      new: " <> f.new_signature)
    ∷ modified_lines fs

-- A heading and its lines, where there are any.
section : String → List String → List String
section heading [] = []
section heading (line ∷ lines) = heading ∷ line ∷ lines

unfoldable pub format_abi_diff : ContractAbiDiff → String
unfolding join_lines function_lines modified_lines section
format_abi_diff d =
    if is_empty d
    then "Contract ABI: unchanged (all functions and signatures match)"
    else join_lines (
        "Contract ABI changes:"
        ∷ (section "  Added functions:" (function_lines "+" d.added_functions)
            ++ (section "  Removed functions:" (function_lines "-" d.removed_functions)
                ++ section "  Modified functions:" (modified_lines d.modified_functions))))
