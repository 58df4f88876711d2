-- ===== src/Strategy/Builder/Invariant.antt =====
-- The invariant of the builder's session, over each event and over a run of them.
use polyquantlab.Common.{
  ℕ, String, not, str_eq, List, [], ◌∷◌, arith, get_elem?, All-keep_if, length-keep_if,
  All-get_elem?,
}
use polyquantlab.Strategy.Builder.{
  BuilderState, SavedStrategy, Session, apply_template, delete_saved, section, edit_section,
  update_field, reset_all,
}
use polyquantlab.Strategy.Builder.Events.{
  Event, use_template, save, load, delete, edit, set_field, reset, handle, run,
}
use polyquantlab.Strategy.Builder.Soundness.{
  SoundState, SoundStored, IsValid, edit_root-SoundRoot, apply_template-SoundState, section-IsSound,
  store_root-IsValid, save_current-IsValid, load_nth-IsValid,
}

handle-IsValid :
    (draw : ℕ → String) (d : BuilderState) (e : Event draw d) (s : Session)
    → SoundState d
    → IsValid s
    → IsValid (handle draw d e s)
unfolding handle
handle-IsValid draw d (use_template t writes) s h v = record {
  state = apply_template-SoundState draw d writes t s h;
  saved = unfold apply_template in v.saved;
  few = unfold apply_template in v.few;
}
handle-IsValid draw d (save id now writes name) s h v = save_current-IsValid id now writes name s v
handle-IsValid draw d (load i writes) s h v =
    load_nth-IsValid draw writes d s (get_elem? s.saved i) v
      (λ r e. All-get_elem? (λ (q : SavedStrategy). SoundStored q.state) s.saved i v.saved e)
handle-IsValid draw d (delete id writes) s h v =
    unfold delete_saved in
    record {
      state = v.state;
      saved =
          All-keep_if (λ (r : SavedStrategy). SoundStored r.state) (λ r. not (str_eq r.id id))
            s.saved v.saved;
      few =
          omega
            (arith, v.few, length-keep_if (λ (r : SavedStrategy). not (str_eq r.id id)) s.saved);
    }
handle-IsValid draw d (edit k e writes) s h v =
    unfold edit_section in
    store_root-IsValid writes k s _ v
      (edit_root-SoundRoot e (section k s.state) (section-IsSound k s.state v.state))
handle-IsValid draw d (set_field f writes) s h v =
    unfold update_field in
    record {
      state = record {
        entry = v.state.entry;
        take_profit = v.state.take_profit;
        stop_loss = v.state.stop_loss;
      };
      saved = v.saved;
      few = v.few;
    }
handle-IsValid draw d (reset writes) s h v =
    unfold reset_all in record { state = h; saved = v.saved; few = v.few }

-- Whatever templates, saves, loads, deletions, edits, fields and resets the user chooses, in any
-- order, and whichever writes the storage takes: if the default state is sound, a valid session stays
-- valid, so that every section is a tree with valid operators and aligned
-- connectors, and at most twenty strategies are saved.
pub run-IsValid :
    (draw : ℕ → String) (d : BuilderState) (es : List (Event draw d)) (s : Session)
    → SoundState d
    → IsValid s
    → IsValid (run draw d es s)
unfolding run
run-IsValid draw d [] s h v = v
run-IsValid draw d (e ∷ es) s h v =
    run-IsValid draw d es (handle draw d e s) h (handle-IsValid draw d e s h v)
