-- ===== src/Forms/Single/Sound.antt =====
-- What the form of a backtest sends.
use polyquantlab.Common.{
  ℕ, ◌≤◌, ◌≡◌, refl, arith, String, str_eq, Bool, true, false, Option, none, some, pos,
}
use polyquantlab.Strategy.Submit.{or_text, first_if}
use polyquantlab.Forms.{job_shown}
use polyquantlab.Forms.Sending.{Page, Reachable, IsSound, reachable-IsSound}
use polyquantlab.Forms.Single.{
  FormState, defaults, FormEdit, set_ticker, set_limit, set_since, set_until, preset, set_type,
  set_pin, edit_form, BacktestPost, iso_if, form_guard, form_post,
}

edit_form-limit :
    (m : ℕ) (e : FormEdit) (f : FormState) → f.market_limit ≤ m → (edit_form m e f).market_limit ≤ m
unfolding edit_form
edit_form-limit m (set_ticker t) f h = h
edit_form-limit m (set_limit (some (pos n))) f h = omega arith
edit_form-limit m (set_limit _) f h = omega arith
edit_form-limit m (set_since d) f h = h
edit_form-limit m (set_until d) f h = h
edit_form-limit m (preset a b) f h = h
edit_form-limit m (set_type t) f h = h
edit_form-limit m (set_pin e) f h = h

module _ (to_iso : String → Option String) (range_error : String) where
  -- A request within the plan's limit, with a date only in the form that `to_iso` gives.
  pub data IsIso : Option String → Type 0 where
    no_date : IsIso none
    iso_date : {d s : String} → to_iso d ≡ some s → IsIso (some s)

  pub record IsAllowed (max_market_limit : ℕ) (p : BacktestPost) : Type 0 where
    pub limit : p.market_limit ≤ max_market_limit
    pub since : IsIso p.since
    pub until : IsIso p.until

  IsIso-first : {d : String} (s : String) (b : Bool) → to_iso d ≡ some s → IsIso (first_if b s none)
  IsIso-first s true e = no_date
  IsIso-first s false e = iso_date e

  IsIso-or_text : (d : String) (o : Option String) → to_iso d ≡ o → IsIso (or_text o none)
  IsIso-or_text d none e = no_date
  IsIso-or_text d (some s) e = IsIso-first s (str_eq s "") e

  IsIso-iso_if : (b : Bool) (d : String) → IsIso (or_text (iso_if to_iso range_error b d) none)
  IsIso-iso_if true d = no_date
  IsIso-iso_if false d = IsIso-or_text d (to_iso d) refl

  form_post-IsAllowed :
      (m : ℕ) (f : FormState)
      → f.market_limit ≤ m
      → form_guard to_iso range_error m f ≡ none
      → IsAllowed m (form_post to_iso range_error f)
  form_post-IsAllowed m f h g = record {
    limit = h;
    since = IsIso-iso_if (str_eq f.since "") f.since;
    until = IsIso-iso_if (str_eq f.until "") f.until;
  }

-- However the form of a backtest is edited and submitted, and whatever the replies are: every
-- request asks for at most the plan's markets, its dates are ones that `toISOString` gave, and no
-- request is sent while another is under way.
pub form-IsSound :
    (to_iso : String → Option String) (range_error : String) (encode : String → String) (m : ℕ)
    → {s : Page FormState BacktestPost}
    → Reachable
        (edit_form m)
        (form_guard to_iso range_error m)
        (form_post to_iso range_error)
        (job_shown encode "/dashboard/backtest/")
        (defaults m)
        s
    → IsSound (λ f. f.market_limit ≤ m) (IsAllowed to_iso range_error m) s
form-IsSound to_iso range_error encode m r =
    reachable-IsSound (edit_form m) _ _ _ (λ f. f.market_limit ≤ m) (IsAllowed to_iso range_error m)
      (edit_form-limit m) (form_post-IsAllowed to_iso range_error m) (omega arith) r
