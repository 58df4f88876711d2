-- ===== src/Strategy/Prefill.antt =====
-- The hand-off from the other pages: `rehydrateNode`, `wrap` and the prefill effect of
-- web/components/StrategyBuilder.tsx. Random ids are drawn from a stream, in the order of the calls.
use polyquantlab.Common.{ℕ, suc, ◌≡◌, refl, ap, ap₂, ◌∙◌, String, Bool, List, Option, none, some}
use polyquantlab.Strategy.Tree.{
  Node, leaf, group, Nodes, nil, cons, Group, to_node, to_list, from_list,
}
use polyquantlab.Strategy.Tree.Children.{from_list-to_list}
use polyquantlab.Strategy.Wire.{wire_group, wire_cons, strip_group_ids, strip_group_children}
use polyquantlab.Strategy.Builder.{
  BuilderState, StoredSection, flat_array, as_group, other, ensure_group, StoredState, Session,
  persist, SavedStrategy, hydrate,
}

module _ (draw : ℕ → String) where
  -- `rehydrateNode`, from the number of ids drawn before; a group draws its own id first.
  unfoldable mutual
    pub rehydrate_node : ℕ → Node → Node × ℕ
    rehydrate_node k (leaf c) = (leaf (record c { id = draw k }), suc k)
    rehydrate_node k (group id op ns cs) =
        let r = rehydrate_children (suc k) ns in (group (draw k) op r.0 cs, r.1)

    pub rehydrate_children : ℕ → Nodes → Nodes × ℕ
    rehydrate_children k nil = (nil, k)
    rehydrate_children k (cons n ns) =
        let r = rehydrate_node k n in let rs = rehydrate_children r.1 ns in (cons r.0 rs.0, rs.1)

  -- A root: what `rehydrateNode` gives for a group is a group.
  abbrev pub rehydrate_root : ℕ → Group → Group × ℕ
  rehydrate_root k g =
      let r = rehydrate_children (suc k) (from_list g.children) in
      (record { id = draw k; op = g.op; children = to_list r.0; connectors = g.connectors }, r.1)

  -- `wrap`
  unfoldable pub wrap : ℕ → StoredSection → Group × ℕ
  wrap k s = rehydrate_root (suc k) (ensure_group (draw k) s)

  -- `merged`
  unfoldable pub merged : BuilderState → StoredState → BuilderState
  merged defaults rest =
      let entry = wrap 0 rest.entry in
      let take_profit = wrap entry.1 rest.take_profit in
      let stop_loss = wrap take_profit.1 rest.stop_loss in
      record (rest.overlay defaults) {
        entry = entry.0;
        take_profit = take_profit.0;
        stop_loss = stop_loss.0;
      }

  -- The effect: a hand-off that parses is merged and stored, otherwise the stored state is loaded; the
  -- saved strategies are read in the end.
  unfoldable pub prefill :
      Bool
      → BuilderState
      → Option StoredState
      → Option StoredState
      → List SavedStrategy
      → Session
      → Session
  prefill writes defaults (some rest) stored saved s =
      record (persist writes (merged defaults rest) s) { saved = saved }
  prefill writes defaults none (some stored) saved s = record s {
    state = hydrate draw defaults stored;
    saved = saved;
  }
  prefill writes defaults none none saved s = record s { saved = saved }

  mutual
    unfolding rehydrate_node strip_group_ids

    strip-rehydrate_node :
        (k : ℕ) (n : Node) → strip_group_ids (rehydrate_node k n).0 ≡ strip_group_ids n
    strip-rehydrate_node k (leaf c) = refl
    strip-rehydrate_node k (group id op ns cs) =
        ap (λ ws. wire_group op ws cs) (strip-rehydrate_children (suc k) ns)

    strip-rehydrate_children :
        (k : ℕ) (ns : Nodes)
        → strip_group_children (rehydrate_children k ns).0 ≡ strip_group_children ns
    strip-rehydrate_children k nil = refl
    strip-rehydrate_children k (cons n ns) =
        ap₂ wire_cons (strip-rehydrate_node k n)
          (strip-rehydrate_children (rehydrate_node k n).1 ns)

  strip-wrap :
      (k : ℕ) (s : StoredSection)
      → strip_group_ids (to_node (wrap k s).0) ≡ strip_group_ids (to_node (ensure_group (draw k) s))
  unfolding wrap strip_group_ids
  strip-wrap k s =
      let g = ensure_group (draw k) s in
      ap (λ ws. wire_group g.op ws g.connectors)
        (ap strip_group_children (from_list-to_list _)
          ∙ strip-rehydrate_children (suc (suc k)) (from_list g.children))

  strip-ensure_group :
      (id id' : String) (s : StoredSection)
      → strip_group_ids (to_node (ensure_group id s))
        ≡ strip_group_ids (to_node (ensure_group id' s))
  unfolding ensure_group strip_group_ids
  strip-ensure_group id id' (flat_array ns) = refl
  strip-ensure_group id id' (as_group g) = refl
  strip-ensure_group id id' other = refl

  -- A section after the hand-off, without ids, is the section that was handed off, without ids.
  abbrev pub Kept : Group → StoredSection → Type 0
  Kept g s = strip_group_ids (to_node g) ≡ strip_group_ids (to_node (ensure_group "" s))

  wrap-Kept : (k : ℕ) (s : StoredSection) → Kept (wrap k s).0 s
  wrap-Kept k s = strip-wrap k s ∙ strip-ensure_group (draw k) "" s

  -- The hand-off changes the ids of the three sections and nothing else: ops, connectors, the order of
  -- the children and all fields of the conditions stay, at every depth.
  pub merged-Kept :
      (defaults : BuilderState) (rest : StoredState)
      → Kept (merged defaults rest).entry rest.entry
        × Kept (merged defaults rest).take_profit rest.take_profit
        × Kept (merged defaults rest).stop_loss rest.stop_loss
  unfolding merged
  merged-Kept defaults rest = (wrap-Kept 0 _, wrap-Kept _ _, wrap-Kept _ _)
