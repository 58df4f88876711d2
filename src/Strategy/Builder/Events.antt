-- ===== src/Strategy/Builder/Events.antt =====
-- What happens to the builder, as a sequence of events.
use polyquantlab.Common.{ℕ, String, Bool, List, [], ◌∷◌, Option, none, some, get_elem?}
use polyquantlab.Strategy.Builder.{
  BuilderState, Session, apply_template, save_current, load_saved, delete_saved, SectionKey, Edit,
  edit_section, update_field, reset_all,
}
use polyquantlab.Strategy.Builder.Templates.{TemplateKey, build}

module _ (draw : ℕ → String) (defaults : BuilderState) where
  -- What happens to the component; `writes` says whether the storage takes the write.
  pub data Event : Type 0 where
    use_template : TemplateKey → Bool → Event
    save : String → String → Bool → Option (List ℕ) → Event
    load : ℕ → Bool → Event
    delete : String → Bool → Event
    edit : SectionKey → Edit → Bool → Event
    set_field : (BuilderState → BuilderState) → Bool → Event
    reset : Bool → Event

  -- The handler of an event; the list offers the saved strategies by position.
  unfoldable pub handle : Event → Session → Session
  handle (use_template t writes) s = apply_template draw writes defaults (build draw t) s
  handle (save id now writes name) s = save_current id now writes name s
  handle (load i writes) s = elim (get_elem? s.saved i) [
    | none ↦ s
    | some r ↦ load_saved draw writes defaults r s
  ]
  handle (delete id writes) s = delete_saved writes id s
  handle (edit k e writes) s = edit_section writes k e s
  handle (set_field f writes) s = update_field writes f s
  handle (reset writes) s = reset_all writes defaults s

  unfoldable pub run : List Event → Session → Session
  run [] s = s
  run (e ∷ es) s = run es (handle e s)
