-- ===== src/Strategy/Tree.antt =====
-- The condition trees of web/components/StrategyBuilder.tsx and the update at a path, `mutateAt`.
-- The random ids enter as arguments. A thrown TypeError is the result `throws`.
pub mod Children
pub mod Paths
use polyquantlab.Common.{
  ℕ, String, Bool, true, false, List, [], ◌∷◌, Option, none, some, get_elem?, set, erase_idx,
  if◌then◌else◌,
}
use polyquantlab.Strategy.Params.{ConditionType, TokenSide, Op, Number, decimal, param_specs}

pub record Condition : Type 0 where
  pub id : String
  pub type : ConditionType
  pub side : Option TokenSide
  pub op : Op
  pub value : Number
  pub window_sec : Option Number

pub data GroupOp : Type 0 where
  and_op or_op : GroupOp

-- A node is a condition or a group; a group is its id, op, children and connectors.
mutual
  pub data Node : Type 0 where
    leaf : Condition → Node
    group : String → GroupOp → Nodes → Option (List GroupOp) → Node

  pub data Nodes : Type 0 where
    nil : Nodes
    cons : Node → Nodes → Nodes

abbrev pub to_list : Nodes → List Node
to_list nil = []
to_list (cons n ns) = n ∷ to_list ns

abbrev pub from_list : List Node → Nodes
from_list [] = nil
from_list (n ∷ ns) = cons n (from_list ns)

pub record Group : Type 0 where
  pub id : String
  pub op : GroupOp
  pub children : List Node
  pub connectors : Option (List GroupOp)

-- A group where a node is expected.
abbrev pub to_node : Group → Node
to_node g = group g.id g.op (from_list g.children) g.connectors

abbrev pub is_group : Node → Bool
is_group (leaf c) = false
is_group (group id op ns cs) = true

-- `newCondition`, its id drawn by the caller.
unfoldable pub new_condition : String → ConditionType → TokenSide → Condition
new_condition id type side =
    let spec = param_specs type in
    record {
      id = id;
      type = type;
      side = if spec.has_side then some side else none;
      op = spec.default_op;
      value = spec.default_value;
      window_sec = if spec.needs_window then some (decimal 60 0) else none;
    }

abbrev pub new_group : String → GroupOp → Group
new_group id op = record { id = id; op = op; children = []; connectors = none }

abbrev pub leaves : List Condition → List Node
leaves [] = []
leaves (c ∷ cs) = leaf c ∷ leaves cs

-- `mkGroup`, over the conditions given.
abbrev pub mk_group : String → List Condition → Group
mk_group id conds = record { id = id; op = and_op; children = leaves conds; connectors = none }

-- What the inner `go` of `mutateAt` gives: an exception, `null`, or the new node.
pub data Edited : Type 0 where
  throws removed : Edited
  changed : Node → Edited

-- The new children once the child at `i` is edited: `null` takes the child out.
abbrev pub put_child : List Node → ℕ → Edited → (List Node → Edited) → Edited
put_child ns i throws k = throws
put_child ns i removed k = k (erase_idx ns i)
put_child ns i (changed n) k = k (set ns i n)

-- `go`: past the last child `node.children[i]` is undefined, and every callback, as `isGroup` on
-- the way down, reads a property of it.
unfoldable pub go : List ℕ → (Node → Edited) → Node → Edited
go [] fn node = fn node
go (i ∷ path) fn (leaf c) = changed (leaf c)
go (i ∷ path) fn (group id op ns cs) =
    put_child (to_list ns) i
      (elim (get_elem? (to_list ns) i) [ none ↦ throws | some child ↦ go path fn child ])
      (λ ns'. changed (group id op (from_list ns') cs))

-- The exception, or the new root; a result that is no group leaves the root as it was.
abbrev pub new_root : Group → Edited → Option Group
new_root root throws = none
new_root root removed = some root
new_root root (changed (leaf c)) = some root
new_root root (changed (group id op ns cs)) =
    some (record { id = id; op = op; children = to_list ns; connectors = cs })

-- `mutateAt`; `none` is the exception.
unfoldable pub mutate_at : Group → List ℕ → (Node → Edited) → Option Group
unfolding go
mutate_at root path fn = new_root root (go path fn (to_node root))
