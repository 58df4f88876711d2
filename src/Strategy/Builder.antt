-- ===== src/Strategy/Builder.antt =====
-- The state of the builder and its handlers: `BuilderState`, `DEFAULT_STATE`, `TEMPLATES`,
-- `ensureGroup`, `loadStored` and the functions from `applyTemplate` to `patchCond` in
-- web/components/StrategyBuilder.tsx. The browser's storage holds a state and the saved list; a
-- write that it refuses changes nothing there. Names are lists of UTF-16 code units.
pub mod Templates
pub mod Events
pub mod Soundness
pub mod Invariant
use polyquantlab.Common.{
  ℕ, String, Bool, true, false, not, List, [], ◌∷◌, Option, none, some, take, keep_if, str_eq,
  if◌then◌else◌,
}
use mathlib.Core.Option
use polyquantlab.Strategy.Params.{
  Ticker, btc, EventType, m5, TradeLogic, always_up, FillMode, walk_book, Number, decimal,
  token_price, yes_side,
}
use polyquantlab.Strategy.Tree.{GroupOp, and_op, Node, Group, mk_group, new_condition, leaves}
use polyquantlab.Strategy.Edit.{
  add_cond, add_group, remove_node, toggle_connector, Patch, patch_cond,
}

pub data OrderType : Type 0 where
  market limit : OrderType

pub record BuilderState : Type 0 where
  pub ticker : Ticker
  pub event_type : EventType
  pub market_limit : Number
  pub size_usd : Number
  pub max_trades_per_market : Number
  pub fill_mode : FillMode
  pub max_fill_price : Number
  pub since : String
  pub until : String
  pub dispute_pct : Number
  pub na_pct : Number
  pub dispute_payoff_pct : Number
  pub order_type : OrderType
  pub limit_offset_cents : Number
  pub limit_timeout_s : Number
  pub queue_aware : Bool
  pub trade_logic : TradeLogic
  pub entry : Group
  pub take_profit : Group
  pub stop_loss : Group

-- `DEFAULT_STATE`, from the ids drawn when the module is loaded.
abbrev pub default_state : (ℕ → String) → BuilderState
default_state draw = record {
  ticker = btc;
  event_type = m5;
  market_limit = decimal 50 0;
  size_usd = decimal 10 0;
  max_trades_per_market = decimal 1 0;
  fill_mode = walk_book;
  max_fill_price = decimal 95 2;
  since = "";
  until = "";
  dispute_pct = decimal 0 0;
  na_pct = decimal 0 0;
  dispute_payoff_pct = decimal 5 1;
  order_type = market;
  limit_offset_cents = record { minus = true; digits = 2; places = 0 };
  limit_timeout_s = decimal 60 0;
  queue_aware = false;
  trade_logic = always_up;
  entry = mk_group (draw 1) (new_condition (draw 0) token_price yes_side ∷ []);
  take_profit = mk_group (draw 2) [];
  stop_loss = mk_group (draw 3) [];
}

-- What a stored section may be: a legacy flat array, a group, or anything else.
pub data StoredSection : Type 0 where
  flat_array : List Node → StoredSection
  as_group : Group → StoredSection
  other : StoredSection

-- `ensureGroup`, the random id of a new root being an argument.
unfoldable pub ensure_group : String → StoredSection → Group
ensure_group id (flat_array ns) = record { id = id; op = and_op; children = ns; connectors = none }
ensure_group id (as_group g) = g
ensure_group id other = record { id = id; op = and_op; children = []; connectors = none }

-- A parsed state: the fields outside the sections overlay those of a state.
pub record StoredState : Type 0 where
  pub overlay : BuilderState → BuilderState
  pub entry : StoredSection
  pub take_profit : StoredSection
  pub stop_loss : StoredSection

-- `{ ...DEFAULT_STATE, ...parsed, entry: ensureGroup(parsed.entry, "entry"), … }`
unfoldable pub hydrate : (ℕ → String) → BuilderState → StoredState → BuilderState
hydrate draw defaults parsed = record (parsed.overlay defaults) {
  entry = ensure_group (draw 0) parsed.entry;
  take_profit = ensure_group (draw 1) parsed.take_profit;
  stop_loss = ensure_group (draw 2) parsed.stop_loss;
}

pub record SavedStrategy : Type 0 where
  pub id : String
  pub name : List ℕ
  pub saved_at : String
  pub state : StoredState

-- What the component and the browser's storage hold.
pub record Session : Type 0 where
  pub state : BuilderState
  pub saved : List SavedStrategy
  pub stored : Option BuilderState
  pub stored_saved : Option (List SavedStrategy)

-- `persist`; `writes` says whether the storage takes the write.
abbrev pub persist : Bool → BuilderState → Session → Session
persist writes next s = record s { state = next; stored = if writes then some next else s.stored }

-- `writeSaved` and `setSaved`
abbrev pub keep_saved : Bool → List SavedStrategy → Session → Session
keep_saved writes next s = record s {
  saved = next;
  stored_saved = if writes then some next else s.stored_saved;
}

-- A template's `build()`: the sections it leaves out are `none`.
pub record TemplatePatch : Type 0 where
  pub trade_logic : Option TradeLogic
  pub entry : Option Group
  pub take_profit : Option Group
  pub stop_loss : Option Group

-- `applyTemplate`
unfoldable pub apply_template :
    (ℕ → String) → Bool → BuilderState → TemplatePatch → Session → Session
apply_template draw writes defaults patch s =
    persist writes
      (record defaults {
        trade_logic = Option.get_or patch.trade_logic defaults.trade_logic;
        entry = Option.get_or patch.entry (mk_group (draw 0) []);
        take_profit = Option.get_or patch.take_profit (mk_group (draw 1) []);
        stop_loss = Option.get_or patch.stop_loss (mk_group (draw 2) []);
      })
      s

-- The state as it reads back from its JSON text.
abbrev pub as_stored : BuilderState → StoredState
as_stored b = record {
  overlay = λ d. record b { entry = d.entry; take_profit = d.take_profit; stop_loss = d.stop_loss };
  entry = as_group b.entry;
  take_profit = as_group b.take_profit;
  stop_loss = as_group b.stop_loss;
}

-- `saveCurrent`, with what the prompt gave (`none` if it was dismissed): the newest twenty stay.
unfoldable pub save_current : String → String → Bool → Option (List ℕ) → Session → Session
save_current id now writes none s = s
save_current id now writes (some []) s = s
save_current id now writes (some (c ∷ name)) s =
    keep_saved writes
      (take 20 (
        record { id = id; name = take 60 (c ∷ name); saved_at = now; state = as_stored s.state }
        ∷ s.saved))
      s

-- `loadSavedStrategy`
unfoldable pub load_saved : (ℕ → String) → Bool → BuilderState → SavedStrategy → Session → Session
load_saved draw writes defaults r s = persist writes (hydrate draw defaults r.state) s

-- `deleteSaved`
unfoldable pub delete_saved : Bool → String → Session → Session
delete_saved writes id s = keep_saved writes (keep_if (λ r. not (str_eq r.id id)) s.saved) s

pub data SectionKey : Type 0 where
  entry_key take_profit_key stop_loss_key : SectionKey

-- `state[section]`
abbrev pub section : SectionKey → BuilderState → Group
section entry_key b = b.entry
section take_profit_key b = b.take_profit
section stop_loss_key b = b.stop_loss

-- `{ ...state, [section]: nextRoot }`
abbrev pub with_section : SectionKey → Group → BuilderState → BuilderState
with_section entry_key g b = record b { entry = g }
with_section take_profit_key g b = record b { take_profit = g }
with_section stop_loss_key g b = record b { stop_loss = g }

-- The end of `mutateSection`: an exception leaves all as it was.
abbrev pub store_root : Bool → SectionKey → Session → Option Group → Session
store_root writes k s none = s
store_root writes k s (some g) = persist writes (with_section k g s.state) s

-- What the user does to the conditions of one section.
pub data Edit : Type 0 where
  add_condition : String → List ℕ → Edit
  add_subgroup : String → List ℕ → Edit
  remove : List ℕ → Edit
  toggle : List ℕ → ℕ → Edit
  patch : Patch → List ℕ → Edit

unfoldable pub edit_root : Edit → Group → Option Group
edit_root (add_condition id path) root = add_cond id root path
edit_root (add_subgroup id path) root = add_group id root path
edit_root (remove path) root = remove_node root path
edit_root (toggle path i) root = toggle_connector root path i
edit_root (patch p path) root = patch_cond p root path

unfoldable pub edit_section : Bool → SectionKey → Edit → Session → Session
edit_section writes k e s = store_root writes k s (edit_root e (section k s.state))

-- `update` on a field that is no section: `f` sets the field.
unfoldable pub update_field : Bool → (BuilderState → BuilderState) → Session → Session
update_field writes f s =
    persist writes
      (record (f s.state) {
        entry = s.state.entry;
        take_profit = s.state.take_profit;
        stop_loss = s.state.stop_loss;
      })
      s

-- The button Reset.
unfoldable pub reset_all : Bool → BuilderState → Session → Session
reset_all writes defaults s = persist writes defaults s
