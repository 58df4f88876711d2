-- ===== src/Strategy/Wire/Submitted.antt =====
-- What a submitted section says to the backend, against what the builder's tree says.
use polyquantlab.Common.{
  ◌≡◌, refl, sym, ap, ap₂, ◌∙◌, Bool, true, not, ◌&&◌, List, [], ◌∷◌, map, none, some, all, arith,
  String, Bool-cases, inl, inr, ◌≢◌,
}
use polyquantlab.Strategy.Tree.{
  Condition, GroupOp, and_op, or_op, Node, leaf, group, Nodes, nil, cons, Group, to_node, from_list,
  is_group,
}
use polyquantlab.Strategy.Edit.{existing}
use polyquantlab.Strategy.Meaning.{apply_join, joins, chain, meaning, values}
use polyquantlab.Strategy.Edit.Aligned.{AllSame}
use polyquantlab.Strategy.Wire.Reading.{says, says_all, stateless, node-says}
use polyquantlab.Strategy.Wire.{
  Rule, wire_cons, wire_list, strip_leaf_id, strip_ids, strip_children, strip_group_ids,
  strip_group_children, serialise_section, is_and, connectors_and, uniform_and, evaluate_node,
  evaluate_section,
}

-- A tree without its connectors.
unfoldable mutual
  pub forget : Node → Node
  forget (leaf c) = leaf c
  forget (group id op ns cs) = group id op (forget_children ns) none

  pub forget_children : Nodes → Nodes
  forget_children nil = nil
  forget_children (cons n ns) = cons (forget n) (forget_children ns)

-- The reading of a condition is that of its rule.
abbrev pub on_rules : (Rule → Bool) → Condition → Bool
on_rules ρ c = ρ (strip_leaf_id c)

module _ (ρ : Rule → Bool) where
  mutual
    unfolding says meaning strip_ids forget

    says-strip_ids : (n : Node) → says ρ (strip_ids n) ≡ meaning (on_rules ρ) (forget n)
    says-strip_ids (leaf c) = refl
    says-strip_ids (group id op ns cs) = ap (chain op []) (says-strip_children ns)

    says-strip_children :
        (ns : Nodes) → says_all ρ (strip_children ns) ≡ values (on_rules ρ) (forget_children ns)
    says-strip_children nil = refl
    says-strip_children (cons n ns) = ap₂ ◌∷◌ (says-strip_ids n) (says-strip_children ns)

  mutual
    unfolding says meaning strip_group_ids

    pub says-strip_group_ids : (n : Node) → says ρ (strip_group_ids n) ≡ meaning (on_rules ρ) n
    says-strip_group_ids (leaf c) = refl
    says-strip_group_ids (group id op ns cs) =
        ap (chain op (existing cs)) (says-strip_group_children ns)

    pub says-strip_group_children :
        (ns : Nodes) → says_all ρ (strip_group_children ns) ≡ values (on_rules ρ) ns
    says-strip_group_children nil = refl
    says-strip_group_children (cons n ns) =
        ap₂ ◌∷◌ (says-strip_group_ids n) (says-strip_group_children ns)

  wire_list-strip_children :
      (ns : List Node) → wire_list (map strip_ids ns) ≡ strip_children (from_list ns)
  unfolding strip_ids
  wire_list-strip_children [] = refl
  wire_list-strip_children (n ∷ ns) = ap (wire_cons (strip_ids n)) (wire_list-strip_children ns)

  and_middle : (a b c : Bool) → (a && b && c) ≡ true → b ≡ true
  and_middle a b c h = ground arith

  is_and-and_op : (op : GroupOp) → is_and op ≡ true → and_op ≡ op
  is_and-and_op and_op h = refl
  is_and-and_op or_op h = cc

  -- The legacy form is read as the group that it stands for.
  section-eq-node :
      {S : Type 0} (root : Group) (s : S)
      → evaluate_section (stateless ρ) (serialise_section root) s
        ≡ evaluate_node (stateless ρ) (strip_ids (to_node root)) s
  unfolding evaluate_section serialise_section strip_ids
  section-eq-node root s = elim (Bool-cases (uniform_and root)) [
    | inl e ↦ rw e (
        rw
          (
            wire_list-strip_children,
            is_and-and_op root.op (
                and_middle (all (λ c. not (is_group c)) root.children) (is_and root.op)
                  (connectors_and root.connectors) e),
          )
          refl)
    | inr e ↦ rw e refl
  ]

  -- Whatever the connectors of the tree, the backend reads the submitted section as the tree
  -- without them, if each rule holds or not whatever was seen before.
  pub evaluate_section-serialise_section :
      {S : Type 0} (root : Group) (s : S)
      → evaluate_section (stateless ρ) (serialise_section root) s
        ≡ (meaning (on_rules ρ) (forget (to_node root)), s)
  evaluate_section-serialise_section root s =
      section-eq-node root s
      ∙ node-says ρ (strip_ids (to_node root)) s
      ∙ ap (λ v. (v, s)) (says-strip_ids (to_node root))

-- No connector in the tree differs from its group's op.
abbrev mutual
  pub Uniform : Node → Type 0
  Uniform (leaf c) = Unit {0}
  Uniform (group id op ns cs) = AllSame op (existing cs) × UniformAll ns

  pub UniformAll : Nodes → Type 0
  UniformAll nil = Unit {0}
  UniformAll (cons n ns) = Uniform n × UniformAll ns

joins-AllSame :
    (op : GroupOp) (cs : List GroupOp) (acc : Bool) (vs : List Bool)
    → AllSame op cs
    → joins op cs acc vs ≡ joins op [] acc vs
unfolding joins
joins-AllSame op [] acc vs h = refl
joins-AllSame op (c ∷ cs) acc [] h = refl
joins-AllSame op (c ∷ cs) acc (v ∷ vs) (e, h) =
    rw e (joins-AllSame op cs (apply_join op acc v) vs h)

chain-AllSame :
    (op : GroupOp) (cs : List GroupOp) (vs : List Bool)
    → AllSame op cs
    → chain op cs vs ≡ chain op [] vs
unfolding chain
chain-AllSame op cs [] h = refl
chain-AllSame op cs (v ∷ vs) h = joins-AllSame op cs v vs h

module _ (ρ : Condition → Bool) where
  mutual
    unfolding meaning forget

    meaning-forget : (n : Node) → Uniform n → meaning ρ (forget n) ≡ meaning ρ n
    meaning-forget (leaf c) u = refl
    meaning-forget (group id op ns cs) (same, u) =
        ap (chain op []) (values-forget ns u)
        ∙ sym (chain-AllSame op (existing cs) (values ρ ns) same)

    values-forget : (ns : Nodes) → UniformAll ns → values ρ (forget_children ns) ≡ values ρ ns
    values-forget nil u = refl
    values-forget (cons n ns) (u, us) = ap₂ ◌∷◌ (meaning-forget n u) (values-forget ns us)

-- If no connector differs from its group's op, the submitted section says to the backend what the
-- builder's tree says.
pub submitted-meaning :
    {S : Type 0} (ρ : Rule → Bool) (root : Group) (s : S)
    → Uniform (to_node root)
    → (evaluate_section (stateless ρ) (serialise_section root) s).0
      ≡ meaning (on_rules ρ) (to_node root)
submitted-meaning ρ root s u =
    ap (λ (r : Bool × _). r.0) (evaluate_section-serialise_section ρ root s)
    ∙ meaning-forget (on_rules ρ) (to_node root) u

-- A pair of conditions, joined by a connector that is not the group's op.
abbrev pub pair : String → GroupOp → GroupOp → Condition → Condition → Group
pair id op c x y = record {
  id = id;
  op = op;
  children = leaf x ∷ leaf y ∷ [];
  connectors = some (c ∷ []);
}

joins-ne : (op c : GroupOp) (a b : Bool) → c ≢ op → a ≢ b → apply_join op a b ≢ apply_join c a b
joins-ne and_op and_op a b ne d = absurd (ne refl)
joins-ne or_op or_op a b ne d = absurd (ne refl)
joins-ne and_op or_op a b ne d = ground arith
joins-ne or_op and_op a b ne d = ground arith

-- The connectors are lost on the way: where a pair of conditions is joined by a connector other
-- than its group's op, and one of the conditions holds and the other does not, the backend's
-- answer to the submitted section is not what the tree says.
pub submitted-ne-meaning :
    {S : Type 0} (ρ : Rule → Bool) (id : String) (op c : GroupOp) (x y : Condition) (s : S)
    → c ≢ op
    → on_rules ρ x ≢ on_rules ρ y
    → (evaluate_section (stateless ρ) (serialise_section (pair id op c x y)) s).0
      ≢ meaning (on_rules ρ) (to_node (pair id op c x y))
unfolding meaning forget chain joins
submitted-ne-meaning ρ id op c x y s ne differ =
    rw (evaluate_section-serialise_section ρ (pair id op c x y) s)
      (joins-ne op c (on_rules ρ x) (on_rules ρ y) ne differ)
