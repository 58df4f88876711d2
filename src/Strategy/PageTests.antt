-- ===== src/Strategy/PageTests.antt =====
-- Runs of the builder's page at concrete inputs, and instances of the theorems about it: submitting,
-- the hand-off and the plain English.
use polyquantlab.Common.{ℕ, String, ◌≡◌, refl, [], ◌∷◌, none, some, join}
use polyquantlab.Strategy.Params.{token_price, yes_side, ge, decimal, Number}
use polyquantlab.Strategy.Tree.{Condition, and_op, or_op, leaf, Group}
use polyquantlab.Strategy.Builder.{
  BuilderState, default_state, flat_array, as_group, other, StoredState,
}
use polyquantlab.Strategy.Submit.{Post, Got, got, submit, submit_as_paper, submit_seen, paper_seen}
use polyquantlab.Strategy.Submit.Settled.{Settled, job_ids, paper_ids, submit-Settled}
use polyquantlab.Strategy.Prefill.{Kept, merged, merged-Kept}
use polyquantlab.Strategy.Reads.{
  human_condition, leaf_subject, leaf_predicate, later_parts, parts, human_node, human_children,
  with_words, human_children-effective,
}
use polyquantlab.Strategy.Meaning.{effective}

abbrev draw : ℕ → String
draw n = "id"

abbrev start : BuilderState
start = default_state draw

abbrev rule_of : Number → Condition
rule_of value = record {
  id = "a";
  type = token_price;
  side = some yes_side;
  op = ge;
  value = value;
  window_sec = none;
}

abbrev mixed : Group
mixed = record {
  id = "root";
  op = and_op;
  children = leaf (rule_of (decimal 4 1)) ∷ leaf (rule_of (decimal 5 1)) ∷ [];
  connectors = some (or_op ∷ []);
}

-- The second condition leaves out the subject.
mixed_reads : human_children mixed ≡ "YES Token price ≥ 0.4 OR ≥ 0.5"
unfolding human_children human_node human_condition leaf_subject leaf_predicate parts later_parts
mixed_reads = refl

human_children-effective_example :
    human_children mixed
    ≡ join " " ("YES Token price ≥ 0.4" ∷ with_words (effective mixed) ("≥ 0.5" ∷ []))
unfolding human_node human_condition leaf_subject leaf_predicate
human_children-effective_example =
    human_children-effective mixed "YES Token price ≥ 0.4" "≥ 0.5" [] refl

-- An empty `job_id` gives way to `id`.
abbrev accepts : Post → Got
accepts p = got 202 (record {
  job_id = some "";
  id = some "j1";
  paper_strategy_id = some "s1";
  error = none;
  detail = none;
})

pages :
    ((submit "null" accepts start).seen.page ≡ some "/dashboard/backtest/j1")
    × ((submit_as_paper "null" accepts start).seen.page ≡ some "/dashboard/paper/s1")
unfolding submit submit_as_paper submit_seen paper_seen
pages = (refl, refl)

submit-Settled_example :
    ((p : Post) × ((submit "null" accepts start).posts ≡ p ∷ [])
      × Settled "/dashboard/backtest/" job_ids (accepts p) (submit "null" accepts start).seen)
    × ((p q : Post) × ((submit_as_paper "null" accepts start).posts ≡ p ∷ q ∷ [])
        × Settled "/dashboard/paper/" paper_ids
            (accepts q)
            (submit_as_paper "null" accepts start).seen)
submit-Settled_example = submit-Settled "null" accepts start

abbrev handed : StoredState
handed = record {
  overlay = λ b. b;
  entry = flat_array (leaf (rule_of (decimal 4 1)) ∷ []);
  take_profit = as_group mixed;
  stop_loss = other;
}

merged-Kept_example :
    Kept draw (merged draw start handed).entry (flat_array (leaf (rule_of (decimal 4 1)) ∷ []))
    × Kept draw (merged draw start handed).take_profit (as_group mixed)
    × Kept draw (merged draw start handed).stop_loss other
merged-Kept_example = merged-Kept draw start handed
