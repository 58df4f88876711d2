-- ===== src/Codegen/Script.antt =====
-- `generatePython` of web/libs/pythonCodegen.ts: the whole script, line by line. The time of the
-- run, `new Date().toISOString()`, is an argument.
mod Head
mod Helpers
mod Loop
use polyquantlab.Common.{String, List, [], ◌∷◌, ◌++◌, concat, join}
use polyquantlab.Codegen.Spec.{CodegenSpec}
use polyquantlab.Codegen.Expressions.{section_expr}
use polyquantlab.Codegen.Script.Head.{head_lines}
use polyquantlab.Codegen.Script.Helpers.{book_lines, primitive_lines}
use polyquantlab.Codegen.Script.Loop.{fetch_lines, market_lines, main_lines}

-- The three functions that the loop asks, from their expressions.
abbrev pub check_lines : String → String → String → List String
check_lines e tp sl =
    "# ─── Condition closures (translated from Strategy Builder) ──────────"
    ∷ "def check_entry(snap: dict, market_open: dict | None, history: list, resolution_at: str | None, prev_state: dict) -> bool:"
    ∷ (concat ("    return " ∷ e ∷ []))
    ∷ ""
    ∷ ""
    ∷ "def check_take_profit(snap: dict, market_open: dict | None, history: list, resolution_at: str | None, prev_state: dict) -> bool:"
    ∷ (concat ("    return " ∷ tp ∷ []))
    ∷ ""
    ∷ ""
    ∷ "def check_stop_loss(snap: dict, market_open: dict | None, history: list, resolution_at: str | None, prev_state: dict) -> bool:"
    ∷ (concat ("    return " ∷ sl ∷ []))
    ∷ ""
    ∷ ""
    ∷ []

abbrev pub before_checks : String → CodegenSpec → List String
before_checks now spec = head_lines now spec ++ (book_lines ++ primitive_lines)

abbrev pub after_checks : CodegenSpec → List String
after_checks spec = fetch_lines ++ (market_lines spec ++ main_lines)

-- `generatePython`; the last line of the text is empty.
unfoldable pub generate_python : String → CodegenSpec → String
generate_python now spec =
    let e = section_expr spec.entry "True" in
    let tp = section_expr spec.take_profit "False" in
    let sl = section_expr spec.stop_loss "False" in
    join "\n" (before_checks now spec ++ (check_lines e tp sl ++ (after_checks spec ++ ("" ∷ []))))
