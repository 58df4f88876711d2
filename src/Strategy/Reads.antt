-- ===== src/Strategy/Reads.antt =====
-- The plain English of a section: `formatVal`, `humanCondition`, `leafSubject`, `leafPredicate`,
-- `humanChildren`, `humanNode` and `humanSection` of web/components/StrategyBuilder.tsx.
use polyquantlab.Common.{
  suc, ◌-◌, ◌≡◌, refl, ap, arith, String, str_eq, Bool, true, false, List, [], ◌∷◌, Option, none,
  some, concat, join, length, if◌then◌else◌,
}
use polyquantlab.Strategy.Params.{
  TokenSide, yes_side, no_side, UnitKind, probability, seconds, usd, percent, stddev, Number,
  show_number, param_specs, op_labels,
}
use polyquantlab.Strategy.Tree.{
  Condition, GroupOp, and_op, or_op, Node, leaf, group, Nodes, nil, cons, Group, from_list,
}
use polyquantlab.Strategy.Edit.{existing}
use polyquantlab.Strategy.Meaning.{pad, effective}
use polyquantlab.Strategy.Wire.{first_join, later_joins}

-- `formatVal`
abbrev pub format_val : Number → UnitKind → String
format_val value usd = concat ("$" ∷ show_number value ∷ [])
format_val value percent = concat (show_number value ∷ "%" ∷ [])
format_val value seconds = concat (show_number value ∷ "s" ∷ [])
format_val value stddev = concat (show_number value ∷ "σ" ∷ [])
format_val value probability = show_number value

-- `c.side?.toUpperCase() ?? ""`
abbrev side_text : Option TokenSide → String
side_text none = ""
side_text (some yes_side) = "YES"
side_text (some no_side) = "NO"

abbrev window_text : Option Number → String
window_text none = "undefined"
window_text (some n) = show_number n

abbrev side_prefix : Condition → String
side_prefix c = if (param_specs c.type).has_side then concat (side_text c.side ∷ " " ∷ []) else ""

abbrev window_suffix : Condition → String
window_suffix c =
    if (param_specs c.type).needs_window
    then concat (" (" ∷ window_text c.window_sec ∷ "s window)" ∷ [])
    else ""

abbrev value_text : Condition → String
value_text c = format_val c.value (param_specs c.type).unit

-- `humanCondition`
unfoldable pub human_condition : Condition → String
human_condition c = concat (
    side_prefix c
    ∷ (param_specs c.type).label
    ∷ " "
    ∷ op_labels c.op
    ∷ " "
    ∷ value_text c
    ∷ window_suffix c
    ∷ [])

-- `leafSubject`
unfoldable pub leaf_subject : Condition → String
leaf_subject c = concat (side_prefix c ∷ (param_specs c.type).label ∷ window_suffix c ∷ [])

-- `leafPredicate`
unfoldable pub leaf_predicate : Condition → String
leaf_predicate c = concat (op_labels c.op ∷ " " ∷ value_text c ∷ [])

abbrev said_if : Bool → Condition → String
said_if true c = leaf_predicate c
said_if false c = human_condition c

-- A condition after one with the subject `prev` leaves out a subject that is the same.
abbrev pub said : Option String → Condition → String
said none c = human_condition c
said (some prev) c = said_if (str_eq (leaf_subject c) prev) c

abbrev pub op_word : GroupOp → String
op_word and_op = "AND"
op_word or_op = "OR"

-- The parts of a group: the first text, then each text with the connector before it.
unfoldable pub later_parts : GroupOp → List GroupOp → List String → List String
later_parts op cs [] = []
later_parts op cs (t ∷ ts) =
    concat (op_word (first_join op cs) ∷ " " ∷ t ∷ []) ∷ later_parts op (later_joins cs) ts

unfoldable pub parts : GroupOp → List GroupOp → List String → List String
parts op cs [] = []
parts op cs (t ∷ ts) = t ∷ later_parts op cs ts

abbrev pub no_rules : String
no_rules = "(no rules)"

-- A group from the texts of its children: no text, the only one, or all of them in parentheses.
abbrev pub in_group : GroupOp → List GroupOp → List String → String
in_group op cs [] = no_rules
in_group op cs (t ∷ []) = t
in_group op cs (t ∷ u ∷ ts) = concat ("(" ∷ join " " (parts op cs (t ∷ u ∷ ts)) ∷ ")" ∷ [])

unfoldable mutual
  -- `humanNode`; an only child is rendered by itself, which is its text after nothing.
  pub human_node : Node → String
  human_node (leaf c) = human_condition c
  human_node (group id op ns cs) = in_group op (existing cs) (texts none ns)

  -- The text of each child; the subject of the child before it, if that is a condition.
  pub texts : Option String → Nodes → List String
  texts prev nil = []
  texts prev (cons (leaf c) ns) = said prev c ∷ texts (some (leaf_subject c)) ns
  texts prev (cons (group id op ms cs) ns) =
      in_group op (existing cs) (texts none ms) ∷ texts none ns

-- `humanChildren`
abbrev pub joined_parts : GroupOp → List GroupOp → List String → String
joined_parts op cs [] = no_rules
joined_parts op cs (t ∷ []) = t
joined_parts op cs (t ∷ u ∷ ts) = join " " (parts op cs (t ∷ u ∷ ts))

unfoldable pub human_children : Group → String
human_children g = joined_parts g.op (existing g.connectors) (texts none (from_list g.children))

-- `humanSection`
unfoldable pub human_section : Group → Option String
human_section root = elim root.children [ [] ↦ none | n ∷ ns ↦ some (human_children root) ]

-- The texts with a word before each.
abbrev pub with_words : List GroupOp → List String → List String
with_words [] ts = ts
with_words (c ∷ cs) [] = []
with_words (c ∷ cs) (t ∷ ts) = concat (op_word c ∷ " " ∷ t ∷ []) ∷ with_words cs ts

later_parts-pad :
    (op : GroupOp) (cs : List GroupOp) (ts : List String)
    → later_parts op cs ts ≡ with_words (pad op cs (length ts)) ts
unfolding later_parts pad
later_parts-pad op cs [] = refl
later_parts-pad op [] (t ∷ ts) = rw (later_parts-pad op [] ts) refl
later_parts-pad op (c ∷ cs) (t ∷ ts) = rw (later_parts-pad op cs ts) refl

length-texts :
    (prev : Option String) (ns : List Node) → length (texts prev (from_list ns)) ≡ length ns
unfolding texts
length-texts prev [] = refl
length-texts prev (leaf c ∷ ns) = ap suc (length-texts (some (leaf_subject c)) ns)
length-texts prev (group id op ms cs ∷ ns) = ap suc (length-texts none ns)

human_children_lem :
    (op : GroupOp) (cs : List GroupOp) (t u : String) (ts : List String)
    → joined_parts op cs (t ∷ u ∷ ts)
      ≡ join " " (t ∷ with_words (pad op cs (length (u ∷ ts))) (u ∷ ts))
unfolding parts
human_children_lem op cs t u ts = ap (λ ws. join " " (t ∷ ws)) (later_parts-pad op cs (u ∷ ts))

-- In the plain English of a group with two children or more, the words between the children are the
-- connectors in force there: one for each pair of neighbours, in their order, each before the text of
-- the later child.
pub human_children-effective :
    (g : Group) (t u : String) (ts : List String)
    → texts none (from_list g.children) ≡ t ∷ u ∷ ts
    → human_children g ≡ join " " (t ∷ with_words (effective g) (u ∷ ts))
unfolding human_children effective
human_children-effective g t u ts e =
    let n : length g.children - 1 ≡ length (u ∷ ts) =
      omega (arith, length-texts none g.children, ap length e) in
    rw (e, n) (human_children_lem g.op (existing g.connectors) t u ts)
