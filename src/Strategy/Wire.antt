-- ===== src/Strategy/Wire.antt =====
-- The wire form of a section: `stripIds`, `stripGroupIds`, `stripLeafId` and `serialiseSection` of
-- web/components/StrategyBuilder.tsx, and the reader of that form, `evaluate_section` and
-- `evaluate_node` of backtest/conditions.py.
pub mod Reading
pub mod Submitted
use polyquantlab.Common.{
  Bool, true, false, not, ◌&&◌, ◌||◌, List, [], ◌∷◌, map, Option, none, some, all, if◌then◌else◌,
}
use polyquantlab.Strategy.Params.{ConditionType, TokenSide, Op, Number}
use polyquantlab.Strategy.Tree.{
  Condition, GroupOp, and_op, or_op, Node, leaf, group, Nodes, nil, cons, Group, is_group, to_node,
}
use polyquantlab.Strategy.Edit.{existing}

-- A condition without its id.
pub record Rule : Type 0 where
  pub type : ConditionType
  pub side : Option TokenSide
  pub op : Op
  pub value : Number
  pub window_sec : Option Number

mutual
  pub data WireNode : Type 0 where
    rule : Rule → WireNode
    wire_group : GroupOp → WireNodes → Option (List GroupOp) → WireNode

  pub data WireNodes : Type 0 where
    wire_nil : WireNodes
    wire_cons : WireNode → WireNodes → WireNodes

-- `const { id: _, ...rest } = n`
abbrev pub strip_leaf_id : Condition → Rule
strip_leaf_id c = record {
  type = c.type;
  side = c.side;
  op = c.op;
  value = c.value;
  window_sec = c.window_sec;
}

-- `stripIds`: of a group, its op and children.
unfoldable mutual
  pub strip_ids : Node → WireNode
  strip_ids (leaf c) = rule (strip_leaf_id c)
  strip_ids (group id op ns cs) = wire_group op (strip_children ns) none

  pub strip_children : Nodes → WireNodes
  strip_children nil = wire_nil
  strip_children (cons n ns) = wire_cons (strip_ids n) (strip_children ns)

-- `stripGroupIds`, for the code generator: the connectors too.
unfoldable mutual
  pub strip_group_ids : Node → WireNode
  strip_group_ids (leaf c) = rule (strip_leaf_id c)
  strip_group_ids (group id op ns cs) = wire_group op (strip_group_children ns) cs

  pub strip_group_children : Nodes → WireNodes
  strip_group_children nil = wire_nil
  strip_group_children (cons n ns) = wire_cons (strip_group_ids n) (strip_group_children ns)

abbrev pub wire_list : List WireNode → WireNodes
wire_list [] = wire_nil
wire_list (w ∷ ws) = wire_cons w (wire_list ws)

abbrev pub is_and : GroupOp → Bool
is_and and_op = true
is_and or_op = false

pub data Section : Type 0 where
  flat : List WireNode → Section
  tree : WireNode → Section

-- `!root.connectors || root.connectors.every((c) => c === "AND")`
abbrev pub connectors_and : Option (List GroupOp) → Bool
connectors_and none = true
connectors_and (some cs) = all is_and cs

-- `allLeaves` and the rest of `uniformAnd`
abbrev pub uniform_and : Group → Bool
uniform_and root =
    all (λ c. not (is_group c)) root.children && is_and root.op && connectors_and root.connectors

-- `serialiseSection`
unfoldable pub serialise_section : Group → Section
serialise_section root =
    if uniform_and root then flat (map strip_ids root.children) else tree (strip_ids (to_node root))

-- `join_at(i)`, and the rest of the connectors.
abbrev pub first_join : GroupOp → List GroupOp → GroupOp
first_join op [] = op
first_join op (c ∷ cs) = c

abbrev pub later_joins : List GroupOp → List GroupOp
later_joins [] = []
later_joins (c ∷ cs) = cs

-- The reader in the backend, over `evaluate_one`, which may read and write the cross state `S`.
module _ {S : Type 0} (evaluate_one : Rule → S → Bool × S) where
  -- One round of the loop: after a false AND the child is walked for its state alone, after a true
  -- OR it is skipped.
  abbrev pub join_child : GroupOp → Bool → (S → Bool × S) → S → Bool × S
  join_child and_op false child s = (false, (child s).1)
  join_child and_op true child s = child s
  join_child or_op false child s = child s
  join_child or_op true child s = (true, s)

  unfoldable mutual
    pub evaluate_node : WireNode → S → Bool × S
    evaluate_node (rule r) s = evaluate_one r s
    evaluate_node (wire_group op ws cs) s = evaluate_group op (existing cs) ws s

    pub evaluate_group : GroupOp → List GroupOp → WireNodes → S → Bool × S
    evaluate_group op cs wire_nil s = (false, s)
    evaluate_group op cs (wire_cons w ws) s = evaluate_rest op cs ws (evaluate_node w s)

    pub evaluate_rest : GroupOp → List GroupOp → WireNodes → Bool × S → Bool × S
    evaluate_rest op cs wire_nil r = r
    evaluate_rest op cs (wire_cons w ws) r =
        evaluate_rest op (later_joins cs) ws
          (join_child (first_join op cs) r.0 (evaluate_node w) r.1)

  -- A flat list is read as an AND group; an empty one does not fire.
  unfoldable pub evaluate_section : Section → S → Bool × S
  evaluate_section (flat ws) s = evaluate_node (wire_group and_op (wire_list ws) none) s
  evaluate_section (tree w) s = evaluate_node w s
