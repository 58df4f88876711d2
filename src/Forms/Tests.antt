-- ===== src/Forms/Tests.antt =====
-- The forms on concrete inputs.
use polyquantlab.Common.{◌≡◌, refl, String, false, [], ◌∷◌, Option, none, some, pos, ◌≤◌}
use polyquantlab.Strategy.Params.{decimal}
use polyquantlab.Forms.{mean_reversion, object, Sent, replied, Shown, opened, job_shown}
use polyquantlab.Forms.Sending.{
  Page, edits, submits, settles, Reachable, start, step, IsSound, submit, settle, with_form,
}
use polyquantlab.Forms.Sweep.{SweepForm, switch_strategy, initial_form, sweep_post, sweep_guard}
use polyquantlab.Forms.Sweep.Edits.{
  switch, set_x, choose_param, set_steps, edit_sweep, round, edit_axis,
}
use polyquantlab.Forms.Sweep.Sound.{IsFit, IsWithin, sweep-IsSound}
use polyquantlab.Forms.Single.{set_limit as form_limit, defaults, edit_form, form_guard, form_post}
use polyquantlab.Forms.Single.Sound.{IsAllowed, form-IsSound}
use polyquantlab.Forms.Paper.{
  initial_paper, edit_paper, paper_guard, paper_post, paper_shown, set_name,
}
use polyquantlab.Forms.Paper.{IsComplete, paper-IsSound}
use polyquantlab.Forms.Replies.{Fits, job_shown-Fits}

abbrev id_text : String → String
id_text s = s

abbrev two_axes_alike : SweepForm
two_axes_alike = edit_sweep 100 (set_x (choose_param "size_usd")) (initial_form 100)

-- Choosing for x the parameter of y leaves both axes with it, and the form sends them.
axes_alike :
    (two_axes_alike.x_axis.param ≡ "size_usd")
    × (two_axes_alike.y_axis.param ≡ "size_usd")
    × (sweep_guard 100 100 two_axes_alike ≡ none)
unfolding edit_sweep edit_axis sweep_guard
axes_alike = (refl, refl, refl)

-- 2.5 steps are 3, and 11 by 10 cells are too many for 100.
rounded : round (decimal 25 1) ≡ pos 3
rounded = refl

too_many :
    sweep_guard 100 100
      (edit_sweep 100 (set_x (set_steps (some (decimal 11 0)))) (initial_form 100))
    ≡ some "Your tier caps sweep at 100 cells."
unfolding edit_sweep edit_axis sweep_guard
too_many = refl

abbrev a_reply : Sent
a_reply = replied 202 (
    object (record {
      job_id = some "j1";
      id = none;
      paper_strategy_id = some "p1";
      error = none;
      detail = none;
    }))

-- A page after an edit, `submit` and the reply.
abbrev after_reply :
    {F E P : Type 0} (edit : E → F → F) (guard : F → Option String) (body : F → P)
    (end : Sent → Shown)
    → E
    → F
    → Page F P
after_reply edit guard body end e f = settle edit guard body end a_reply (
    submit edit guard body end (
      with_form edit guard body end (edit e f)
        (record { form = f; submitting = false; posts = []; shown = []; settled = 0 })))

reached :
    {F E P : Type 0} (edit : E → F → F) (guard : F → Option String) (body : F → P)
    (end : Sent → Shown) (e : E) (f : F)
    → guard (edit e f) ≡ none
    → Reachable edit guard body end f (after_reply edit guard body end e f)
unfolding submit
reached edit guard body end e f g =
    step (step (step start (edits e _)) (submits _)) (settles a_reply _ (rw g refl))

sweep-IsSound_example : IsSound (IsFit 100) (IsWithin 100 100) (
    after_reply
      (edit_sweep 100)
      (sweep_guard 100 100)
      sweep_post
      (job_shown id_text "/dashboard/backtest/sweep/")
      (switch mean_reversion)
      (initial_form 100))
unfolding edit_sweep switch_strategy sweep_guard
sweep-IsSound_example = sweep-IsSound 100 100 id_text (
    reached (edit_sweep 100) (sweep_guard 100 100) sweep_post _ (switch mean_reversion)
      (initial_form 100) refl)

single_reply-IsSound :
    IsSound
      (λ f. f.market_limit ≤ 5)
      (IsAllowed some "" 5)
      (after_reply
        (edit_form 5)
        (form_guard some "" 5)
        (form_post some "")
        (job_shown id_text "/dashboard/backtest/")
        (form_limit (some (pos 900)))
        (defaults 5))
unfolding edit_form form_guard
single_reply-IsSound = form-IsSound some "" id_text 5 (
    reached (edit_form 5) (form_guard some "" 5) (form_post some "") _ (form_limit (some (pos 900)))
      (defaults 5) refl)

after_reply-IsSound :
    IsSound
      (λ f. Unit {0})
      IsComplete
      (after_reply edit_paper paper_guard
        (paper_post id_text)
        (paper_shown id_text "")
        (set_name "contrarian")
        initial_paper)
after_reply-IsSound = paper-IsSound id_text id_text "" (
    reached edit_paper paper_guard (paper_post id_text) _ (set_name "contrarian") initial_paper
      refl)

job_shown-Fits_example :
    Fits id_text "/dashboard/backtest/" a_reply (job_shown id_text "/dashboard/backtest/" a_reply)
job_shown-Fits_example = job_shown-Fits id_text "/dashboard/backtest/" a_reply

-- A reply to the form of a paper strategy that has no id opens a page of that name.
no_id_page :
    paper_shown id_text "" (
      replied 201 (
        object (record {
          job_id = none;
          id = none;
          paper_strategy_id = none;
          error = none;
          detail = none;
        })))
    ≡ opened ("Strategy created — paper trading now" ∷ []) "/dashboard/paper/undefined"
unfolding paper_shown
no_id_page = refl
