-- ===== src/Forms/Paper.antt =====
-- The form of a paper strategy: web/components/NewPaperStrategyForm.tsx. `trim` and `encode` are
-- the functions of JavaScript, and `type_error` is the message of reading a field of `null`.
use polyquantlab.Common.{
  ℕ, ◌==◌, ◌||◌, ◌≡◌, refl, String, str_eq, Bool, true, false, Option, none, some, concat, [], ◌∷◌,
  if◌then◌else◌,
}
use polyquantlab.Strategy.Params.{Number, decimal, Ticker, btc, EventType, h1}
use polyquantlab.Strategy.Submit.{or_text, else_text, is_ok, first_if}
use polyquantlab.Forms.{
  StrategyType, threshold_entry, above, buy_no, Spec, Pins, spec_of, threshold_spec, reversion_spec,
  time_spec, mean_reversion, time_before_resolution, Json, unreadable, null_json, object, Sent,
  crashed, replied, Shown, opened, two_toasts, refused, thrown,
}
use polyquantlab.Forms.Inputs.{PinEdit, set_size_usd, edit_pin}
use polyquantlab.Forms.Sending.{Page, Reachable, IsSound, reachable-IsSound}

-- The form; `none` for the ticker and the window is the choice "Any".
pub record PaperForm : Type 0 where
  pub name : String
  pub ticker : Option Ticker
  pub event_type : Option EventType
  pub strategy_type : StrategyType
  pub pins : Pins

abbrev pub initial_paper : PaperForm
initial_paper = record {
  name = "";
  ticker = some btc;
  event_type = some h1;
  strategy_type = threshold_entry;
  pins = record {
    direction = above;
    side = buy_no;
    size_usd = decimal 10 0;
    threshold = decimal 5 1;
    lookback = decimal 30 0;
    z_threshold = decimal 2 0;
    minutes_before = decimal 60 0;
    minutes_window = decimal 5 0;
  };
}

-- `buildSpec`
abbrev pub build_spec : PaperForm → Spec
build_spec f = spec_of f.strategy_type f.pins

pub data PaperEdit : Type 0 where
  set_name : String → PaperEdit
  set_ticker : Option Ticker → PaperEdit
  set_event_type : Option EventType → PaperEdit
  set_type : StrategyType → PaperEdit
  set_pin : PinEdit → PaperEdit
  set_size : Option Number → PaperEdit

-- `parseFloat(…) || 10`
abbrev or_10 : Option Number → Number
or_10 none = decimal 10 0
or_10 (some n) = if n.digits == 0 then decimal 10 0 else n

unfoldable pub edit_paper : PaperEdit → PaperForm → PaperForm
edit_paper (set_name s) f = record {
  name = s;
  ticker = f.ticker;
  event_type = f.event_type;
  strategy_type = f.strategy_type;
  pins = f.pins;
}
edit_paper (set_ticker t) f = record {
  name = f.name;
  ticker = t;
  event_type = f.event_type;
  strategy_type = f.strategy_type;
  pins = f.pins;
}
edit_paper (set_event_type t) f = record {
  name = f.name;
  ticker = f.ticker;
  event_type = t;
  strategy_type = f.strategy_type;
  pins = f.pins;
}
edit_paper (set_type t) f = record {
  name = f.name;
  ticker = f.ticker;
  event_type = f.event_type;
  strategy_type = t;
  pins = f.pins;
}
edit_paper (set_pin e) f = record {
  name = f.name;
  ticker = f.ticker;
  event_type = f.event_type;
  strategy_type = f.strategy_type;
  pins = edit_pin e f.pins;
}
edit_paper (set_size n) f = record {
  name = f.name;
  ticker = f.ticker;
  event_type = f.event_type;
  strategy_type = f.strategy_type;
  pins = edit_pin (set_size_usd (some (or_10 n))) f.pins;
}

pub record PaperPost : Type 0 where
  pub name : Option String
  pub strategy_spec : Spec
  pub ticker : Option Ticker
  pub event_type : Option EventType
  pub size_usd : Number

-- The body of the request.
abbrev pub paper_post : (trim : String → String) → PaperForm → PaperPost
paper_post trim f = record {
  name = or_text (some (trim f.name)) none;
  strategy_spec = build_spec f;
  ticker = f.ticker;
  event_type = f.event_type;
  size_usd = f.pins.size_usd;
}

-- `submit` has no guard but `submitting`.
abbrev pub paper_guard : PaperForm → Option String
paper_guard f = none

module _ (encode : String → String) (type_error : String) where
  abbrev created : String
  created = "Strategy created — paper trading now"

  -- The text of `undefined`, when the reply has no id.
  abbrev pub id_text : Option String → String
  id_text none = "undefined"
  id_text (some id) = id

  abbrev pub paper_body : Json → Shown
  paper_body (unreadable m) = thrown m "Create failed"
  paper_body null_json =
      two_toasts created (else_text (or_text (some type_error) none) "Create failed")
  paper_body (object f) =
      opened (created ∷ [])
        (concat ("/dashboard/paper/" ∷ encode (id_text f.paper_strategy_id) ∷ []))

  abbrev pub paper_reply : Bool → ℕ → Json → Shown
  paper_reply true status b = paper_body b
  paper_reply false status b = refused b "Create failed" status

  unfoldable pub paper_shown : Sent → Shown
  paper_shown (crashed m) = thrown m "Create failed"
  paper_shown (replied status b) = paper_reply (is_ok status || status == 201) status b

-- The size of the request is that of its strategy.
abbrev pub size_of : Spec → Number
size_of (threshold_spec a b c n) = n
size_of (reversion_spec a b n) = n
size_of (time_spec a b c n) = n

-- A name that is sent is not empty.
pub data IsName : Option String → Type 0 where
  no_name : IsName none
  name : {s : String} → str_eq s "" ≡ false → IsName (some s)

pub record IsComplete (p : PaperPost) : Type 0 where
  pub name : IsName p.name
  pub size : size_of p.strategy_spec ≡ p.size_usd

first_if-IsName : (b : Bool) (s : String) → str_eq s "" ≡ b → IsName (first_if b s none)
first_if-IsName true s e = no_name
first_if-IsName false s e = name e

size_of-spec_of : (t : StrategyType) (p : Pins) → size_of (spec_of t p) ≡ p.size_usd
size_of-spec_of threshold_entry p = refl
size_of-spec_of mean_reversion p = refl
size_of-spec_of time_before_resolution p = refl

-- However the form of a paper strategy is edited and submitted, and whatever the replies are: the
-- size that a request names is the one in its strategy, a name that it sends is not empty, and no
-- request is sent while another is under way.
pub paper-IsSound :
    (trim encode : String → String) (type_error : String)
    → {s : Page PaperForm PaperPost}
    → Reachable edit_paper paper_guard
        (paper_post trim)
        (paper_shown encode type_error)
        initial_paper
        s
    → IsSound (λ f. Unit) IsComplete s
paper-IsSound trim encode type_error r =
    reachable-IsSound edit_paper paper_guard (paper_post trim) _ (λ f. Unit {0}) IsComplete
      (λ e f h. tt)
      (λ f h g. record {
        name = first_if-IsName _ (trim f.name) refl;
        size = size_of-spec_of f.strategy_type f.pins;
      })
      tt r
