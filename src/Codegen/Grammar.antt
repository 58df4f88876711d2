-- ===== src/Codegen/Grammar.antt =====
-- The part of Python's grammar that the generated expressions use, with the value of an expression:
-- a chain of `or` over chains of `and` over comparisons. A parenthesised chain is a comparison.
use polyquantlab.Common.{◌≡◌, refl, String, Bool, true, false, ◌&&◌, ◌||◌, List, [], ◌∷◌, concat}
use polyquantlab.Strategy.Tree.{GroupOp, and_op, or_op}
use polyquantlab.Strategy.Edit.{existing}
use polyquantlab.Strategy.Meaning.{joins, chain, apply_join}
use polyquantlab.Strategy.Wire.{Rule, WireNode, rule, wire_group, WireNodes, wire_nil, wire_cons}
use polyquantlab.Strategy.Wire.Reading.{says, says_all}
use polyquantlab.Codegen.Expressions.{leaf_expr, node_expr, children_expr, rest_expr, joined}
use Prim.Native.String.{◌++◌}
use text.Mathlib.TextLemmas.{append_assoc}

-- The grammar's `disjunction`, `conjunction` and `comparison`.
pub data Level : Type 0 where
  disjunction conjunction comparison : Level

-- `Parses ρ l s b`: the text `s` is an expression of level `l` with the value `b`, where the
-- expression of a rule `r` has the value `ρ r`.
pub data Parses (ρ : Rule → Bool) : Level → String → Bool → Type 0 where
  leaf_text : (r : Rule) → Parses ρ comparison (leaf_expr r) (ρ r)
  true_text : Parses ρ comparison "True" true
  false_text : Parses ρ comparison "False" false
  parens :
      {s : String} {b : Bool}
      → Parses ρ disjunction s b
      → Parses ρ comparison (concat ("(" ∷ s ∷ ")" ∷ [])) b
  as_conjunction : {s : String} {b : Bool} → Parses ρ comparison s b → Parses ρ conjunction s b
  as_disjunction : {s : String} {b : Bool} → Parses ρ conjunction s b → Parses ρ disjunction s b
  and_then :
      {s t : String} {a b : Bool}
      → Parses ρ conjunction s a
      → Parses ρ comparison t b
      → Parses ρ conjunction (concat (s ∷ " and " ∷ t ∷ [])) (a && b)
  or_else :
      {s t : String} {a b : Bool}
      → Parses ρ disjunction s a
      → Parses ρ conjunction t b
      → Parses ρ disjunction (concat (s ∷ " or " ∷ t ∷ [])) (a || b)

-- The word that joins two expressions.
abbrev word : GroupOp → String
word and_op = " and "
word or_op = " or "

-- `joined` puts the child in parentheses, the chain of the two, and the chain in parentheses.
joined-parens :
    (acc : String) (c : GroupOp) (child : String)
    → joined acc c child
      ≡ concat ("(" ∷ concat (acc ∷ word c ∷ concat ("(" ∷ child ∷ ")" ∷ []) ∷ []) ∷ ")" ∷ [])
joined-parens acc and_op child =
    rw
      (
        (append_assoc acc (" and " ++ ("(" ++ (child ++ ")"))) ")"),
        (append_assoc " and " ("(" ++ (child ++ ")")) ")"),
        (append_assoc "(" (child ++ ")") ")"),
        (append_assoc child ")" ")"),
        ← append_assoc " and " "(" (child ++ "))"),
        ← append_assoc "and" " (" (child ++ "))"),
        ← append_assoc " " "and (" (child ++ "))"),
      )
      refl
joined-parens acc or_op child =
    rw
      (
        (append_assoc acc (" or " ++ ("(" ++ (child ++ ")"))) ")"),
        (append_assoc " or " ("(" ++ (child ++ ")")) ")"),
        (append_assoc "(" (child ++ ")") ")"),
        (append_assoc child ")" ")"),
        ← append_assoc " or " "(" (child ++ "))"),
        ← append_assoc "or" " (" (child ++ "))"),
        ← append_assoc " " "or (" (child ++ "))"),
      )
      refl

module _ (ρ : Rule → Bool) where
  pub whole : {s : String} {b : Bool} → Parses ρ comparison s b → Parses ρ disjunction s b
  whole p = as_disjunction (as_conjunction p)

  joined-Parses :
      {acc child : String} {a b : Bool} (c : GroupOp)
      → Parses ρ comparison acc a
      → Parses ρ disjunction child b
      → Parses ρ comparison (joined acc c child) (apply_join c a b)
  joined-Parses {acc} {child} and_op p q =
      rw (joined-parens acc and_op child)
        (parens (as_disjunction (and_then (as_conjunction p) (parens q))))
  joined-Parses {acc} {child} or_op p q =
      rw (joined-parens acc or_op child) (parens (or_else (whole p) (as_conjunction (parens q))))

  mutual
    unfolding node_expr says chain joins

    pub node_expr-Parses : (w : WireNode) → Parses ρ disjunction (node_expr w) (says ρ w)
    node_expr-Parses (rule r) = whole (leaf_text r)
    node_expr-Parses (wire_group op ws cs) = children_expr-Parses op (existing cs) ws

    children_expr-Parses :
        (op : GroupOp) (cs : List GroupOp) (ws : WireNodes)
        → Parses ρ disjunction (children_expr op cs ws) (chain op cs (says_all ρ ws))
    children_expr-Parses op cs wire_nil = whole false_text
    children_expr-Parses op cs (wire_cons w wire_nil) = node_expr-Parses w
    children_expr-Parses op [] (wire_cons w (wire_cons v ws)) = whole (
        rest_expr-Parses op [] ws
          (joined-Parses op (parens (node_expr-Parses w)) (node_expr-Parses v)))
    children_expr-Parses op (c ∷ cs) (wire_cons w (wire_cons v ws)) = whole (
        rest_expr-Parses op cs ws
          (joined-Parses c (parens (node_expr-Parses w)) (node_expr-Parses v)))

    rest_expr-Parses :
        (op : GroupOp) (cs : List GroupOp) (ws : WireNodes) {acc : String} {a : Bool}
        → Parses ρ comparison acc a
        → Parses ρ comparison (rest_expr op cs ws acc) (joins op cs a (says_all ρ ws))
    rest_expr-Parses op cs wire_nil p = p
    rest_expr-Parses op [] (wire_cons w ws) p =
        rest_expr-Parses op [] ws (joined-Parses op p (node_expr-Parses w))
    rest_expr-Parses op (c ∷ cs) (wire_cons w ws) p =
        rest_expr-Parses op cs ws (joined-Parses c p (node_expr-Parses w))
