-- ===== src/Strategy/Builder/Soundness.antt =====
-- What a sound state is, and that each handler keeps it.
use polyquantlab.Common.{
  ℕ, String, Bool, ◌≤◌, ◌≡◌, refl, List, [], ◌∷◌, Option, none, some, length, take, All,
  length-take_le, All-take,
}
use polyquantlab.Strategy.Params.{includes}
use polyquantlab.Strategy.Tree.{Group, to_node, new_condition}
use polyquantlab.Strategy.Edit.Sound.{
  IsSound, AreSound-from_list, SoundRoot, add_cond-SoundRoot, add_group-SoundRoot,
  remove_node-SoundRoot, toggle_connector-SoundRoot, patch_cond-SoundRoot,
}
use polyquantlab.Strategy.Builder.{
  BuilderState, default_state, StoredSection, flat_array, as_group, other, ensure_group,
  StoredState, hydrate, SavedStrategy, Session, apply_template, as_stored, save_current, load_saved,
  SectionKey, entry_key, take_profit_key, stop_loss_key, section, with_section, store_root, Edit,
  add_condition, add_subgroup, remove, toggle, patch, edit_root,
}
use polyquantlab.Strategy.Builder.Templates.{
  TemplateKey, buy_and_hold_up, buy_and_hold_down, mean_reversion_tp_sl, with_op, build,
}

pub record SoundState (b : BuilderState) : Type 0 where
  pub entry : IsSound (to_node b.entry)
  pub take_profit : IsSound (to_node b.take_profit)
  pub stop_loss : IsSound (to_node b.stop_loss)

abbrev pub SoundSection : StoredSection → Type 0
SoundSection (flat_array ns) = All IsSound ns
SoundSection (as_group g) = IsSound (to_node g)
SoundSection other = Unit {0}

pub record SoundStored (t : StoredState) : Type 0 where
  pub entry : SoundSection t.entry
  pub take_profit : SoundSection t.take_profit
  pub stop_loss : SoundSection t.stop_loss

-- The three sections are sound trees, so is each saved strategy, and at most twenty are saved.
pub record IsValid (s : Session) : Type 0 where
  pub state : SoundState s.state
  pub saved : All (λ (r : SavedStrategy). SoundStored r.state) s.saved
  pub few : length s.saved ≤ 20

ensure_group-IsSound :
    (id : String) (t : StoredSection) → SoundSection t → IsSound (to_node (ensure_group id t))
unfolding ensure_group
ensure_group-IsSound id (flat_array ns) h = (tt, AreSound-from_list ns h)
ensure_group-IsSound id (as_group g) h = h
ensure_group-IsSound id other h = (tt, tt)

pub hydrate-SoundState :
    (draw : ℕ → String) (d : BuilderState) (t : StoredState)
    → SoundStored t
    → SoundState (hydrate draw d t)
unfolding hydrate
hydrate-SoundState draw d t h = record {
  entry = ensure_group-IsSound _ t.entry h.entry;
  take_profit = ensure_group-IsSound _ t.take_profit h.take_profit;
  stop_loss = ensure_group-IsSound _ t.stop_loss h.stop_loss;
}

pub edit_root-SoundRoot :
    (e : Edit) (root : Group) → IsSound (to_node root) → SoundRoot (edit_root e root)
unfolding edit_root
edit_root-SoundRoot (add_condition id path) root h = add_cond-SoundRoot root h id path
edit_root-SoundRoot (add_subgroup id path) root h = add_group-SoundRoot root h id path
edit_root-SoundRoot (remove path) root h = remove_node-SoundRoot root h path
edit_root-SoundRoot (toggle path i) root h = toggle_connector-SoundRoot root h path i
edit_root-SoundRoot (patch p path) root h = patch_cond-SoundRoot root h p path

pub apply_template-SoundState :
    (draw : ℕ → String) (d : BuilderState) (writes : Bool) (t : TemplateKey) (s : Session)
    → SoundState d
    → SoundState (apply_template draw writes d (build draw t) s).state
unfolding apply_template build includes with_op new_condition
apply_template-SoundState draw d writes buy_and_hold_up s h = record {
  entry = (tt, tt);
  take_profit = (tt, tt);
  stop_loss = (tt, tt);
}
apply_template-SoundState draw d writes buy_and_hold_down s h = record {
  entry = (tt, tt);
  take_profit = (tt, tt);
  stop_loss = (tt, tt);
}
apply_template-SoundState draw d writes mean_reversion_tp_sl s h = record {
  entry = (tt, (refl, tt));
  take_profit = (tt, (refl, tt));
  stop_loss = (tt, (refl, tt));
}
apply_template-SoundState draw d writes _ s h = record {
  entry = (tt, (refl, tt));
  take_profit = (tt, tt);
  stop_loss = (tt, tt);
}

with_section-SoundState :
    (k : SectionKey) (g : Group) (b : BuilderState)
    → SoundState b
    → IsSound (to_node g)
    → SoundState (with_section k g b)
with_section-SoundState entry_key g b h k = record {
  entry = k;
  take_profit = h.take_profit;
  stop_loss = h.stop_loss;
}
with_section-SoundState take_profit_key g b h k = record {
  entry = h.entry;
  take_profit = k;
  stop_loss = h.stop_loss;
}
with_section-SoundState stop_loss_key g b h k = record {
  entry = h.entry;
  take_profit = h.take_profit;
  stop_loss = k;
}

pub section-IsSound :
    (k : SectionKey) (b : BuilderState) → SoundState b → IsSound (to_node (section k b))
section-IsSound entry_key b h = h.entry
section-IsSound take_profit_key b h = h.take_profit
section-IsSound stop_loss_key b h = h.stop_loss

pub store_root-IsValid :
    (writes : Bool) (k : SectionKey) (s : Session) (o : Option Group)
    → IsValid s
    → SoundRoot o
    → IsValid (store_root writes k s o)
store_root-IsValid writes k s none v h = v
store_root-IsValid writes k s (some g) v h = record {
  state = with_section-SoundState k g s.state v.state h;
  saved = v.saved;
  few = v.few;
}

as_stored-SoundStored : (b : BuilderState) → SoundState b → SoundStored (as_stored b)
as_stored-SoundStored b h = record {
  entry = h.entry;
  take_profit = h.take_profit;
  stop_loss = h.stop_loss;
}

pub save_current-IsValid :
    (id now : String) (writes : Bool) (name : Option (List ℕ)) (s : Session)
    → IsValid s
    → IsValid (save_current id now writes name s)
unfolding save_current
save_current-IsValid id now writes none s v = v
save_current-IsValid id now writes (some []) s v = v
save_current-IsValid id now writes (some (c ∷ name)) s v =
    let r : SavedStrategy = record {
      id = id;
      name = take 60 (c ∷ name);
      saved_at = now;
      state = as_stored s.state;
    } in
    record {
      state = v.state;
      saved =
          All-take (λ (q : SavedStrategy). SoundStored q.state) 20 (r ∷ s.saved)
            (as_stored-SoundStored s.state v.state, v.saved);
      few = length-take_le 20 (r ∷ s.saved);
    }

pub load_nth-IsValid :
    (draw : ℕ → String) (writes : Bool) (d : BuilderState) (s : Session) (o : Option SavedStrategy)
    → IsValid s
    → ((r : SavedStrategy) → o ≡ some r → SoundStored r.state)
    → IsValid (elim o [ none ↦ s | some r ↦ load_saved draw writes d r s ])
unfolding load_saved
load_nth-IsValid draw writes d s none v h = v
load_nth-IsValid draw writes d s (some r) v h = record {
  state = hydrate-SoundState draw d r.state (h r refl);
  saved = v.saved;
  few = v.few;
}

pub default_state-SoundState : (draw : ℕ → String) → SoundState (default_state draw)
unfolding new_condition includes
default_state-SoundState draw = record {
  entry = (tt, (refl, tt));
  take_profit = (tt, tt);
  stop_loss = (tt, tt);
}
