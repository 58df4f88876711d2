-- ===== src/Codegen/Tests.antt =====
-- Runs of the code generator at concrete inputs, and instances of its theorems.
use polyquantlab.Common.{
  ℕ, String, Bool, true, false, ◌≡◌, refl, ◌≤◌, [], ◌∷◌, ◌++◌, none, some, join, map,
}
use Prim.Native.String.{count}
use polyquantlab.Strategy.Params.{
  token_price, spread, yes_side, no_side, le, crosses_above, decimal, show_number,
}
use polyquantlab.Strategy.Tree.{and_op, or_op}
use polyquantlab.Strategy.Wire.{Rule, rule, wire_group, wire_nil, wire_cons}
use polyquantlab.Strategy.Wire.Submitted.{on_rules}
use polyquantlab.Strategy.Builder.{default_state}
use polyquantlab.Codegen.Keys.{
  expr_key, squash, is_word, trim_left, trim_right, prefix, IsWord, expr_key-IsWord,
}
use polyquantlab.Codegen.Expressions.{leaf_expr, node_expr}
use polyquantlab.Codegen.Grammar.{Parses, disjunction}
use polyquantlab.Codegen.Script.{check_lines, before_checks, after_checks, generate_python}
use polyquantlab.Codegen.Compiled.{sanitised, section_meaning, generate_python-Parses}

abbrev cheap : Rule
cheap = record {
  type = token_price;
  side = some no_side;
  op = le;
  value = decimal 30 2;
  window_sec = none;
}

abbrev crossing : Rule
crossing = record {
  type = spread;
  side = some yes_side;
  op = crosses_above;
  value = decimal 5 2;
  window_sec = none;
}

numbers :
    map show_number (decimal 30 2 ∷ decimal 1005 2 ∷ decimal 300 0 ∷ decimal 0 0 ∷ decimal 5 3 ∷ [])
    ≡ "0.3" ∷ "10.05" ∷ "300" ∷ "0" ∷ "0.005" ∷ []
numbers = refl

negative : show_number (record { minus = true; digits = 2; places = 0 }) ≡ "-2"
negative = refl

leaf_text_of : leaf_expr cheap ≡ "snap[\"mid_no\"] <= 0.3"
unfolding leaf_expr
leaf_text_of = refl

cross_text_of :
    leaf_expr crossing ≡ "crosses_above(snap[\"spread_yes\"], prev_snap_spread_yes, 0.05)"
unfolding leaf_expr expr_key squash is_word trim_left trim_right prefix
cross_text_of = refl

chain_text_of :
    node_expr (
      wire_group and_op
        (wire_cons (rule cheap) (wire_cons (rule cheap) (wire_cons (rule cheap) wire_nil)))
        (some (or_op ∷ [])))
    ≡ "(((snap[\"mid_no\"] <= 0.3) or (snap[\"mid_no\"] <= 0.3)) and (snap[\"mid_no\"] <= 0.3))"
unfolding node_expr leaf_expr
chain_text_of = refl

abbrev draw : ℕ → String
draw n = "id"

abbrev always : Rule → Bool
always r = true

generate_python-Parses_example :
    (e : String) × (tp : String) × (sl : String) × (generate_python "now"
        (sanitised (default_state draw))
      ≡ join "\n" (
          before_checks "now" (sanitised (default_state draw))
          ++ (check_lines e tp sl ++ (after_checks (sanitised (default_state draw)) ++ ("" ∷ [])))))
    × Parses always disjunction e
        (section_meaning (on_rules always) true (default_state draw).entry)
    × Parses always disjunction tp
        (section_meaning (on_rules always) false (default_state draw).take_profit)
    × Parses always disjunction sl
        (section_meaning (on_rules always) false (default_state draw).stop_loss)
generate_python-Parses_example = generate_python-Parses always "now" (default_state draw)

expr_key-IsWord_example :
    IsWord (expr_key "snap[\"spread_yes\"]") × (count (expr_key "snap[\"spread_yes\"]") ≤ 40)
expr_key-IsWord_example = expr_key-IsWord "snap[\"spread_yes\"]"
