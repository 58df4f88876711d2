-- ===== src/Strategy/Wire/Reading.antt =====
-- The backend's reading of a wire node, where each rule holds or not whatever was seen before.
use polyquantlab.Common.{◌≡◌, refl, Bool, true, false, List, [], ◌∷◌}
use polyquantlab.Strategy.Tree.{GroupOp, and_op, or_op}
use polyquantlab.Strategy.Edit.{existing}
use polyquantlab.Strategy.Meaning.{apply_join, joins, chain}
use polyquantlab.Strategy.Wire.{
  Rule, WireNode, rule, wire_group, WireNodes, wire_nil, wire_cons, join_child, evaluate_node,
  evaluate_group, evaluate_rest,
}

-- The reading of a wire node where each rule holds or not, whatever was seen before.
unfoldable mutual
  pub says : (Rule → Bool) → WireNode → Bool
  says ρ (rule r) = ρ r
  says ρ (wire_group op ws cs) = chain op (existing cs) (says_all ρ ws)

  pub says_all : (Rule → Bool) → WireNodes → List Bool
  says_all ρ wire_nil = []
  says_all ρ (wire_cons w ws) = says ρ w ∷ says_all ρ ws

-- A leaf evaluator that neither reads nor writes the cross state.
abbrev pub stateless {ℓ} : {S : Type ℓ} → (Rule → Bool) → Rule → S → Bool × S
stateless ρ r s = (ρ r, s)

join_child-eq :
    {S : Type 0} (one : Rule → S → Bool × S) (c : GroupOp) (b : Bool) (child : S → Bool × S) (s : S)
    {v : Bool}
    → child s ≡ (v, s)
    → join_child one c b child s ≡ (apply_join c b v, s)
join_child-eq one and_op true child s h = h
join_child-eq one and_op false child s h = rw h
join_child-eq one or_op true child s h = refl
join_child-eq one or_op false child s h = h

module _ {S : Type 0} (ρ : Rule → Bool) where
  mutual
    unfolding evaluate_node says chain joins

    pub node-says : (w : WireNode) (s : S) → evaluate_node (stateless ρ) w s ≡ (says ρ w, s)
    node-says (rule r) s = refl
    node-says (wire_group op ws cs) s = group-says op (existing cs) ws s

    group-says :
        (op : GroupOp) (cs : List GroupOp) (ws : WireNodes) (s : S)
        → evaluate_group (stateless ρ) op cs ws s ≡ (chain op cs (says_all ρ ws), s)
    group-says op cs wire_nil s = refl
    group-says op cs (wire_cons w ws) s = rw (node-says w s) (rest-says op cs ws (says ρ w) s)

    rest-says :
        (op : GroupOp) (cs : List GroupOp) (ws : WireNodes) (b : Bool) (s : S)
        → evaluate_rest (stateless ρ) op cs ws (b, s) ≡ (joins op cs b (says_all ρ ws), s)
    rest-says op cs wire_nil b s = refl
    rest-says op [] (wire_cons w ws) b s =
        rw (join_child-eq (stateless ρ) op b (evaluate_node (stateless ρ) w) s (node-says w s))
          (rest-says op [] ws (apply_join op b (says ρ w)) s)
    rest-says op (c ∷ cs) (wire_cons w ws) b s =
        rw (join_child-eq (stateless ρ) c b (evaluate_node (stateless ρ) w) s (node-says w s))
          (rest-says op cs ws (apply_join c b (says ρ w)) s)
