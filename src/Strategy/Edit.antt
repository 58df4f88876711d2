-- ===== src/Strategy/Edit.antt =====
-- The editing operations on one section of the builder: `appendChild`, `addCond`, `addGroup`,
-- `removeNode`, `toggleConnector` and `patchCond` of web/components/StrategyBuilder.tsx. Each gives
-- the section's new root, or `none` for a thrown TypeError; a drawn id is an argument.
pub mod Aligned
pub mod Effects
pub mod Leaves
pub mod Sound
use polyquantlab.Common.{
  ℕ, ◌-◌, String, List, [], ◌∷◌, ◌++◌, Option, none, some, length, get_or, last_or, set, erase_idx,
  replicate, leb, ltb, ◌==◌, if◌then◌else◌,
}
use mathlib.Core.Option
use polyquantlab.Strategy.Params.{
  ConditionType, token_price, TokenSide, yes_side, Op, Number, includes, param_specs,
}
use polyquantlab.Strategy.Tree.{
  Condition, GroupOp, and_op, or_op, Node, leaf, group, Group, to_node, to_list, new_condition,
  new_group, Edited, changed, mutate_at,
}

-- The connectors of a group, `g.connectors ?? []`.
abbrev pub existing : Option (List GroupOp) → List GroupOp
existing none = []
existing (some cs) = cs

-- `appendChild`
unfoldable pub append_child : Group → Node → Group
append_child g child =
    let next_children = g.children ++ child ∷ [] in
    if leb (length next_children) 1 then record g { children = next_children } else record g {
      children = next_children;
      connectors = some (existing g.connectors ++ last_or (existing g.connectors) g.op ∷ []);
    }

-- A callback of `mutateSection` that leaves a condition alone.
abbrev pub on_group : (Group → Group) → Node → Edited
on_group f (leaf c) = changed (leaf c)
on_group f (group id op ns cs) =
    changed (to_node (f (record { id = id; op = op; children = to_list ns; connectors = cs })))

-- A callback that leaves a group alone.
abbrev pub on_leaf : (Condition → Condition) → Node → Edited
on_leaf f (leaf c) = changed (leaf (f c))
on_leaf f (group id op ns cs) = changed (group id op ns cs)

unfoldable pub add_cond : String → Group → List ℕ → Option Group
add_cond id root parent =
    mutate_at root parent
      (on_group (λ g. append_child g (leaf (new_condition id token_price yes_side))))

unfoldable pub add_group : String → Group → List ℕ → Option Group
add_group id root parent =
    mutate_at root parent (on_group (λ g. append_child g (to_node (new_group id and_op))))

-- `path.slice(0, -1)` and `path[path.length - 1]`
unfoldable pub split_last : List ℕ → Option (List ℕ × ℕ)
split_last [] = none
split_last (i ∷ []) = some ([], i)
split_last (i ∷ j ∷ path) = Option.map (λ (p, k). (i ∷ p, k)) (split_last (j ∷ path))

-- The callback of `removeNode`: the child at the index goes, and the connector before it.
unfoldable pub remove_child : ℕ → Group → Group
remove_child i g = record g {
  children = erase_idx g.children i;
  connectors = Option.map (λ cs. erase_idx cs (i - 1)) g.connectors;
}

-- `removeNode`: the root itself stays.
unfoldable pub remove_node : Group → List ℕ → Option Group
remove_node root path = elim (split_last path) [
  | none ↦ some root
  | some (parent, i) ↦ mutate_at root parent (on_group (remove_child i))
]

abbrev pub flip : GroupOp → GroupOp
flip and_op = or_op
flip or_op = and_op

-- The array that `toggleConnector` starts from: the group's own, if it has one for each pair.
unfoldable pub base_connectors : Group → List GroupOp
base_connectors g =
    let need = length g.children - 1 in
    elim g.connectors [
      | none ↦ replicate need g.op
      | some cs ↦ if length cs == need then cs else replicate need g.op
    ]

-- The callback of `toggleConnector`.
unfoldable pub toggle_at : ℕ → Group → Group
unfolding base_connectors
toggle_at i g =
    let base = base_connectors g in
    if ltb i (length base)
    then record g { connectors = some (set base i (flip (get_or base i g.op))) }
    else g

unfoldable pub toggle_connector : Group → List ℕ → ℕ → Option Group
toggle_connector root path i = mutate_at root path (on_group (toggle_at i))

-- `Partial<Condition>`: a field is `none` where the patch lacks it.
pub record Patch : Type 0 where
  pub type : Option ConditionType
  pub side : Option (Option TokenSide)
  pub op : Option Op
  pub value : Option Number
  pub window_sec : Option (Option Number)

-- `{ ...node, ...patch }`
abbrev pub merge : Condition → Patch → Condition
merge c p = record {
  id = c.id;
  type = Option.get_or p.type c.type;
  side = Option.get_or p.side c.side;
  op = Option.get_or p.op c.op;
  value = Option.get_or p.value c.value;
  window_sec = Option.get_or p.window_sec c.window_sec;
}

-- A change of type resets the dependent fields to the new type's defaults.
abbrev pub reset_fields : Option ConditionType → Condition → Condition
reset_fields none c = c
reset_fields (some t) c =
    let fresh = new_condition c.id t yes_side in
    record c {
      value = fresh.value;
      side = fresh.side;
      op = fresh.op;
      window_sec = fresh.window_sec;
    }

abbrev pub repair_op : Condition → Condition
repair_op c =
    let spec = param_specs c.type in
    if includes spec.valid_ops c.op then c else record c { op = spec.default_op }

-- The callback of `patchCond`.
unfoldable pub patch_leaf : Patch → Condition → Condition
patch_leaf p c = repair_op (reset_fields p.type (merge c p))

unfoldable pub patch_cond : Patch → Group → List ℕ → Option Group
patch_cond p root path = mutate_at root path (on_leaf (patch_leaf p))
