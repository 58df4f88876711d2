-- ===== src/Codegen/Expressions.antt =====
-- The Python expressions of a strategy: `leafExpr`, `basicOrCross`, `nodeExpr`, `groupExpr` and
-- `sectionExpr` of web/libs/pythonCodegen.ts.
use polyquantlab.Common.{String, List, [], ◌∷◌, Option, none, some, concat}
use mathlib.Core.Option
use polyquantlab.Strategy.Params.{
  token_price, spread, time_to_resolution_s, time_since_market_open_s, coin_move_since_open_usd,
  coin_move_since_open_pct, coin_price_volatility, token_price_volatility, TokenSide, yes_side,
  no_side, Op, ge, gt, le, lt, eq, ne, crosses_above, crosses_below, Number, decimal, show_number,
}
use polyquantlab.Strategy.Tree.{GroupOp, and_op, or_op}
use polyquantlab.Strategy.Edit.{existing}
use polyquantlab.Strategy.Wire.{
  Rule, WireNode, rule, wire_group, WireNodes, wire_nil, wire_cons, first_join, later_joins,
}
use polyquantlab.Codegen.Spec.{CodegenGroup}
use polyquantlab.Codegen.Keys.{expr_key}

-- An operator as the wire writes it, which is `opPy` too.
abbrev pub op_text : Op → String
op_text ge = ">="
op_text gt = ">"
op_text le = "<="
op_text lt = "<"
op_text eq = "=="
op_text ne = "!="
op_text crosses_above = "crosses_above"
op_text crosses_below = "crosses_below"

-- `sideKey`
abbrev pub side_key : Option TokenSide → String
side_key none = "yes"
side_key (some yes_side) = "yes"
side_key (some no_side) = "no"

-- `${expr} ${opPy} ${value}`
abbrev pub basic : String → Op → Number → String
basic expr op value = concat (expr ∷ " " ∷ op_text op ∷ " " ∷ show_number value ∷ [])

-- A call of one of the two crossing helpers of the script.
abbrev pub cross : String → String → Number → String
cross helper expr value =
    concat (helper ∷ "(" ∷ expr ∷ ", prev_" ∷ expr_key expr ∷ ", " ∷ show_number value ∷ ")" ∷ [])

-- `basicOrCross`
abbrev pub basic_or_cross : String → Op → Number → String
basic_or_cross expr crosses_above value = cross "crosses_above" expr value
basic_or_cross expr crosses_below value = cross "crosses_below" expr value
basic_or_cross expr op value = basic expr op value

-- `c.window_sec ?? 60`
abbrev pub window : Rule → String
window c = show_number (Option.get_or c.window_sec (decimal 60 0))

-- `leafExpr`
unfoldable pub leaf_expr : Rule → String
leaf_expr c =
    let side = side_key c.side in
    elim c.type [
      | token_price ↦ basic_or_cross (concat ("snap[\"mid_" ∷ side ∷ "\"]" ∷ [])) c.op c.value
      | spread ↦ basic_or_cross (concat ("snap[\"spread_" ∷ side ∷ "\"]" ∷ [])) c.op c.value
      | time_to_resolution_s ↦ basic "time_to_resolution_s(snap, resolution_at)" c.op c.value
      | time_since_market_open_s ↦ basic "time_since_market_open_s(snap, market_open)" c.op c.value
      | coin_move_since_open_usd ↦
          basic_or_cross "coin_move_since_open_usd(snap, market_open)" c.op c.value
      | coin_move_since_open_pct ↦
          basic_or_cross "coin_move_since_open_pct(snap, market_open)" c.op c.value
      | coin_price_volatility ↦
          basic (concat ("coin_volatility(history, snap, " ∷ window c ∷ ")" ∷ [])) c.op c.value
      | token_price_volatility ↦
          basic
            (concat ("token_volatility(history, snap, " ∷ window c ∷ ", \"" ∷ side ∷ "\")" ∷ []))
            c.op c.value
    ]

abbrev pub joiner : GroupOp → String
joiner and_op = "and"
joiner or_op = "or"

-- `(${acc} ${joiner} (${child}))`
abbrev pub joined : String → GroupOp → String → String
joined acc c child = concat ("(" ∷ acc ∷ " " ∷ joiner c ∷ " (" ∷ child ∷ "))" ∷ [])

-- The loop of `groupExpr` over the children after the first.
unfoldable mutual
  pub node_expr : WireNode → String
  node_expr (rule r) = leaf_expr r
  node_expr (wire_group op ws cs) = children_expr op (existing cs) ws

  -- `groupExpr`
  pub children_expr : GroupOp → List GroupOp → WireNodes → String
  children_expr op cs wire_nil = "False"
  children_expr op cs (wire_cons w wire_nil) = node_expr w
  children_expr op cs (wire_cons w (wire_cons v ws)) =
      rest_expr op (later_joins cs) ws
        (joined (concat ("(" ∷ node_expr w ∷ ")" ∷ [])) (first_join op cs) (node_expr v))

  pub rest_expr : GroupOp → List GroupOp → WireNodes → String → String
  rest_expr op cs wire_nil acc = acc
  rest_expr op cs (wire_cons w ws) acc =
      rest_expr op (later_joins cs) ws (joined acc (first_join op cs) (node_expr w))

-- `groupExpr` at a group
abbrev pub group_expr : CodegenGroup → String
group_expr g = node_expr (wire_group g.op g.children g.connectors)

-- `sectionExpr`
unfoldable pub section_expr : CodegenGroup → String → String
section_expr g default_empty = elim g.children [
  | wire_nil ↦ default_empty
  | wire_cons w ws ↦ group_expr g
]
