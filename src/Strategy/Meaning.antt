-- ===== src/Strategy/Meaning.antt =====
-- What a condition tree says: the left-to-right reading of a group, each child joined to the
-- result so far by its connector, or by the group's op where it has none (the comment on
-- `connectors` in web/components/StrategyBuilder.tsx).
pub mod Chains
use polyquantlab.Common.{ℕ, zero, suc, ◌-◌, Bool, false, ◌&&◌, ◌||◌, List, [], ◌∷◌, length}
use polyquantlab.Strategy.Tree.{
  Condition, GroupOp, and_op, or_op, Node, leaf, group, Nodes, nil, cons, Group,
}
use polyquantlab.Strategy.Edit.{existing}

abbrev pub apply_join : GroupOp → Bool → Bool → Bool
apply_join and_op a b = a && b
apply_join or_op a b = a || b

-- The rest of a chain, from the result so far.
unfoldable pub joins : GroupOp → List GroupOp → Bool → List Bool → Bool
joins op cs acc [] = acc
joins op [] acc (v ∷ vs) = joins op [] (apply_join op acc v) vs
joins op (c ∷ cs) acc (v ∷ vs) = joins op cs (apply_join c acc v) vs

-- A group without children holds nowhere.
unfoldable pub chain : GroupOp → List GroupOp → List Bool → Bool
unfolding joins
chain op cs [] = false
chain op cs (v ∷ vs) = joins op cs v vs

unfoldable mutual
  pub meaning : (Condition → Bool) → Node → Bool
  meaning ρ (leaf c) = ρ c
  meaning ρ (group id op ns cs) = chain op (existing cs) (values ρ ns)

  pub values : (Condition → Bool) → Nodes → List Bool
  values ρ nil = []
  values ρ (cons n ns) = meaning ρ n ∷ values ρ ns

-- The connectors in force between `suc n` children.
unfoldable pub pad : GroupOp → List GroupOp → ℕ → List GroupOp
pad op cs zero = []
pad op [] (suc n) = op ∷ pad op [] n
pad op (c ∷ cs) (suc n) = c ∷ pad op cs n

-- The connectors in force in a group, one for each pair of neighbours (`connAt`).
unfoldable pub effective : Group → List GroupOp
unfolding pad
effective g = pad g.op (existing g.connectors) (length g.children - 1)
