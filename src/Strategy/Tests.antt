-- ===== src/Strategy/Tests.antt =====
-- Runs of the strategy builder at concrete inputs, and instances of its theorems.
use polyquantlab.Common.{
  ℕ, String, Bool, true, false, ◌≡◌, refl, ◌≢◌, inl, List, [], ◌∷◌, none, some, arith,
}
use polyquantlab.Strategy.Params.{token_price, spread, yes_side, le, decimal}
use polyquantlab.Strategy.Tree.{Condition, and_op, or_op, leaf, Group, to_node, mutate_at}
use polyquantlab.Strategy.Tree.Paths.{node_at, Diverge, mutate_at-node_at}
use polyquantlab.Strategy.Edit.{append_child, on_group, remove_child, toggle_at, Patch, patch_leaf}
use polyquantlab.Strategy.Edit.Effects.{effective-remove_child, effective-toggle_at}
use polyquantlab.Strategy.Edit.Leaves.{HasFields, patch_leaf-HasFields}
use polyquantlab.Strategy.Meaning.{meaning, effective, apply_join}
use polyquantlab.Strategy.Meaning.Chains.{meaning-append_child}
use polyquantlab.Strategy.Wire.{Rule, serialise_section, evaluate_section}
use polyquantlab.Strategy.Wire.Reading.{stateless}
use polyquantlab.Strategy.Wire.Submitted.{
  on_rules, forget, evaluate_section-serialise_section, submitted-meaning, submitted-ne-meaning,
  pair,
}
use polyquantlab.Strategy.Builder.{
  default_state, Session, add_condition, add_subgroup, remove, toggle, patch, entry_key,
}
use polyquantlab.Strategy.Builder.Templates.{mean_reversion_tp_sl}
use polyquantlab.Strategy.Builder.Events.{Event, use_template, save, load, edit, reset, run}
use polyquantlab.Strategy.Builder.Soundness.{IsValid, default_state-SoundState}
use polyquantlab.Strategy.Builder.Invariant.{run-IsValid}

abbrev cheap : Condition
cheap = record {
  id = "a";
  type = token_price;
  side = some yes_side;
  op = le;
  value = decimal 3 1;
  window_sec = none;
}

abbrev tight : Condition
tight = record {
  id = "b";
  type = spread;
  side = some yes_side;
  op = le;
  value = decimal 3 2;
  window_sec = none;
}

abbrev mixed : Group
mixed = record {
  id = "root";
  op = and_op;
  children = leaf cheap ∷ leaf tight ∷ leaf cheap ∷ [];
  connectors = some (or_op ∷ and_op ∷ []);
}

-- Only the rule about the token price holds.
abbrev cheap_now : Rule → Bool
cheap_now r = elim r.type [ token_price ↦ true | _ ↦ false ]

append_mixed : effective (append_child mixed (leaf tight)) ≡ or_op ∷ and_op ∷ and_op ∷ []
unfolding effective append_child
append_mixed = refl

toggle_mixed : effective (toggle_at 1 mixed) ≡ or_op ∷ or_op ∷ []
unfolding effective toggle_at
toggle_mixed = refl

abbrev draw : ℕ → String
draw n = "id"

abbrev start : Session
start = record { state = default_state draw; saved = []; stored = none; stored_saved = none }

start-IsValid : IsValid start
start-IsValid = record { state = default_state-SoundState draw; saved = tt; few = omega arith }

abbrev to_spread : Patch
to_spread = record { type = some spread; side = none; op = none; value = none; window_sec = none }

abbrev steps : List (Event draw (default_state draw))
steps =
    edit entry_key (add_condition "c" []) true
    ∷ edit entry_key (toggle [] 0) true
    ∷ edit entry_key (add_subgroup "d" []) false
    ∷ edit entry_key (patch to_spread (1 ∷ [])) true
    ∷ save "s" "now" true (some (65 ∷ []))
    ∷ use_template mean_reversion_tp_sl true
    ∷ load 0 true
    ∷ reset true
    ∷ edit entry_key (add_condition "e" []) true
    ∷ edit entry_key (remove (0 ∷ [])) true
    ∷ []

run-IsValid_example : IsValid (run draw (default_state draw) steps start)
run-IsValid_example =
    run-IsValid draw (default_state draw) steps start (default_state-SoundState draw) start-IsValid

abbrev nested : Group
nested = record {
  id = "top";
  op = and_op;
  children = leaf cheap ∷ to_node mixed ∷ [];
  connectors = none;
}

abbrev widen : Group → Group
widen g = append_child g (leaf cheap)

mutate_at-node_at_example :
    (root' : Group) × (mutate_at nested (1 ∷ []) (on_group widen) ≡ some root')
    × (node_at (1 ∷ []) (to_node root') ≡ some (to_node (widen mixed)))
    × ((q : List ℕ) → Diverge (1 ∷ []) q → node_at q (to_node root') ≡ node_at q (to_node nested))
unfolding node_at
mutate_at-node_at_example =
    mutate_at-node_at nested (1 ∷ []) (on_group widen) {n = to_node mixed} refl refl (inl refl)

meaning-append_child_example :
    meaning (on_rules cheap_now) (to_node (append_child mixed (leaf tight)))
    ≡ apply_join and_op (meaning (on_rules cheap_now) (to_node mixed)) (on_rules cheap_now tight)
unfolding effective meaning
meaning-append_child_example =
    meaning-append_child (on_rules cheap_now) mixed (leaf tight) (inl refl) (omega arith)

effective-remove_child_example : effective (remove_child 1 mixed) ≡ and_op ∷ []
unfolding effective
effective-remove_child_example = effective-remove_child 1 mixed (inl refl) (omega arith)

effective-toggle_at_example : effective (toggle_at 0 mixed) ≡ and_op ∷ and_op ∷ []
unfolding effective
effective-toggle_at_example = effective-toggle_at 0 mixed (inl refl)

patch_leaf-HasFields_example : HasFields (patch_leaf to_spread cheap)
patch_leaf-HasFields_example =
    patch_leaf-HasFields to_spread cheap (inl refl, inl refl) (refl, refl)

abbrev both : Group
both = record {
  id = "root";
  op = and_op;
  children = leaf cheap ∷ leaf tight ∷ [];
  connectors = some (and_op ∷ []);
}

evaluate_section-serialise_section_example :
    evaluate_section {S = ℕ} (stateless cheap_now) (serialise_section mixed) 7
    ≡ (meaning (on_rules cheap_now) (forget (to_node mixed)), 7)
evaluate_section-serialise_section_example =
    evaluate_section-serialise_section cheap_now {S = ℕ} mixed 7

submitted-meaning_example :
    (evaluate_section {S = ℕ} (stateless cheap_now) (serialise_section both) 0).0
    ≡ meaning (on_rules cheap_now) (to_node both)
submitted-meaning_example = submitted-meaning {S = ℕ} cheap_now both 0 ((refl, tt), (tt, (tt, tt)))

submitted-ne-meaning_example :
    (evaluate_section {S = ℕ}
      (stateless cheap_now)
      (serialise_section (pair "r" and_op or_op cheap tight))
      0).0
    ≢ meaning (on_rules cheap_now) (to_node (pair "r" and_op or_op cheap tight))
submitted-ne-meaning_example =
    submitted-ne-meaning {S = ℕ} cheap_now "r" and_op or_op cheap tight 0 (λ e. cc) (λ e. cc)
