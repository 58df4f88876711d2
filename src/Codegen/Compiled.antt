-- ===== src/Codegen/Compiled.antt =====
-- The script that the builder offers for its state: `CodeSection` of
-- web/components/StrategyBuilder.tsx, which compiles the state without its ids.
use polyquantlab.Common.{◌≡◌, refl, String, Bool, true, false, List, [], ◌∷◌, ◌++◌, join, Option}
use polyquantlab.Strategy.Tree.{Condition, GroupOp, Node, group, Group, to_node, from_list}
use polyquantlab.Strategy.Meaning.{meaning}
use polyquantlab.Strategy.Wire.{Rule, strip_group_ids, strip_group_children}
use polyquantlab.Strategy.Wire.Submitted.{on_rules, says-strip_group_ids}
use polyquantlab.Strategy.Builder.{BuilderState}
use polyquantlab.Codegen.Spec.{CodegenGroup, CodegenSpec}
use polyquantlab.Codegen.Expressions.{section_expr}
use polyquantlab.Codegen.Grammar.{
  Parses, disjunction, true_text, false_text, whole, node_expr-Parses,
}
use polyquantlab.Codegen.Script.{check_lines, before_checks, after_checks, generate_python}

-- `stripGroupIds` at a section
unfoldable pub strip_root : Group → CodegenGroup
strip_root g = record {
  op = g.op;
  children = strip_group_children (from_list g.children);
  connectors = g.connectors;
}

-- `sanitised`
unfoldable pub sanitised : BuilderState → CodegenSpec
unfolding strip_root
sanitised state = record {
  ticker = state.ticker;
  event_type = state.event_type;
  market_limit = state.market_limit;
  size_usd = state.size_usd;
  max_trades_per_market = state.max_trades_per_market;
  fill_mode = state.fill_mode;
  max_fill_price = state.max_fill_price;
  trade_logic = state.trade_logic;
  entry = strip_root state.entry;
  take_profit = strip_root state.take_profit;
  stop_loss = strip_root state.stop_loss;
}

-- What a section says; one without conditions says `empty`.
abbrev pub section_meaning : (Condition → Bool) → Bool → Group → Bool
section_meaning ρ empty g = elim g.children [ [] ↦ empty | n ∷ ns ↦ meaning ρ (to_node g) ]

-- The words that stand for an empty section.
data Word (ρ : Rule → Bool) : String → Bool → Type 0 where
  holds : Word ρ "True" true
  fails : Word ρ "False" false

Word-Parses : (ρ : Rule → Bool) {s : String} {b : Bool} → Word ρ s b → Parses ρ disjunction s b
Word-Parses ρ holds = whole ρ true_text
Word-Parses ρ fails = whole ρ false_text

children-Parses :
    (ρ : Rule → Bool) (id : String) (op : GroupOp) (cs : Option (List GroupOp)) (ns : List Node)
    {s : String} {b : Bool}
    → Word ρ s b
    → let g : Group = record { id = id; op = op; children = ns; connectors = cs } in
      Parses ρ disjunction (section_expr (strip_root g) s) (section_meaning (on_rules ρ) b g)
unfolding section_expr strip_root strip_group_ids
children-Parses ρ id op cs [] w = Word-Parses ρ w
children-Parses ρ id op cs (n ∷ ns) w =
    rw (← says-strip_group_ids ρ (group id op (from_list (n ∷ ns)) cs))
      (node_expr-Parses ρ (strip_group_ids (group id op (from_list (n ∷ ns)) cs)))

section_expr-Parses :
    (ρ : Rule → Bool) (g : Group) {s : String} {b : Bool}
    → Word ρ s b
    → Parses ρ disjunction (section_expr (strip_root g) s) (section_meaning (on_rules ρ) b g)
section_expr-Parses ρ g w = children-Parses ρ g.id g.op g.connectors g.children w

-- In the script for a state, the three check functions return expressions that Python reads, by the
-- precedence of its `and` and `or` and by the parentheses, as what the sections of the builder say,
-- where each rule's expression has the value that the rule has. An empty entry reads as true, an empty
-- take-profit or stop-loss as false.
pub generate_python-Parses :
    (ρ : Rule → Bool) (now : String) (b : BuilderState)
    → (e : String) × (tp : String) × (sl : String) × (generate_python now (sanitised b)
        ≡ join "\n" (
            before_checks now (sanitised b)
            ++ (check_lines e tp sl ++ (after_checks (sanitised b) ++ ("" ∷ [])))))
      × Parses ρ disjunction e (section_meaning (on_rules ρ) true b.entry)
      × Parses ρ disjunction tp (section_meaning (on_rules ρ) false b.take_profit)
      × Parses ρ disjunction sl (section_meaning (on_rules ρ) false b.stop_loss)
unfolding generate_python sanitised
generate_python-Parses ρ now b = (
  _,
  _,
  _,
  refl,
  section_expr-Parses ρ b.entry holds,
  section_expr-Parses ρ b.take_profit fails,
  section_expr-Parses ρ b.stop_loss fails,
)
