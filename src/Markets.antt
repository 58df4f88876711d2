-- ===== src/Markets.antt =====
-- The table of markets: the filters, the search and the loading effect of
-- web/components/MarketsTable.tsx. `to_lower`, `trim` and `includes` are functions of JavaScript.
pub mod Fresh
mod Tests
use polyquantlab.Common.{
  ℕ, String, str_eq, ◌≡◌, Bool, true, false, not, ◌&&◌, List, [], ◌∷◌, Option, none, some, concat,
  keep_if,
}
use polyquantlab.Strategy.Submit.{is_ok}

pub record ResolvedMarket : Type 0 where
  pub market_id : String
  pub question : Option String
  pub slug : Option String

-- A filter that is not "ALL" names a ticker, or a window.
pub record Filter : Type 0 where
  pub ticker : Option String
  pub event_type : Option String

abbrev pub all_markets : Filter
all_markets = record { ticker = none; event_type = none }

-- The state of the table. `markets === initial` is kept as a flag, and with the rows the filter that
-- they were loaded with. `request` is the load that is under way and not cancelled, and `failed`
-- tells that the last load of the chosen filter failed: the code keeps them in a closure and in the
-- console.
pub record Table : Type 0 where
  pub filter : Filter
  pub markets : List ResolvedMarket
  pub are_initial : Bool
  pub loaded_with : Filter
  pub loading : Bool
  pub request : Option Filter
  pub failed : Bool
  pub search : String

abbrev pub initial_table : List ResolvedMarket → Table
initial_table rows = record {
  filter = all_markets;
  markets = rows;
  are_initial = true;
  loaded_with = all_markets;
  loading = false;
  request = none;
  failed = false;
  search = "";
}

-- The query of a load, after the limit.
abbrev pub param_of : String → Option String → List (String × String)
param_of key none = []
param_of key (some v) = (key, v) ∷ []

abbrev pub query_rest : Option String → Option String → List (String × String)
query_rest none e = param_of "event_type" e
query_rest (some t) e = ("ticker", t) ∷ param_of "event_type" e

abbrev pub query_of : Filter → List (String × String)
query_of f = ("limit", "500") ∷ ("with_underlying", "true") ∷ query_rest f.ticker f.event_type

-- The effect that a changed filter runs, after the cleanup of the one before: `load`, unless all
-- markets are chosen and the rows are the first ones.
abbrev pub skips : Option String → Option String → Bool → Bool
skips none none are_initial = are_initial
skips _ _ are_initial = false

abbrev pub load_unless : Bool → Filter → Table → Table
load_unless true f t = record {
  filter = f;
  markets = t.markets;
  are_initial = t.are_initial;
  loaded_with = t.loaded_with;
  loading = t.loading;
  request = none;
  failed = false;
  search = t.search;
}
load_unless false f t = record {
  filter = f;
  markets = t.markets;
  are_initial = t.are_initial;
  loaded_with = t.loaded_with;
  loading = true;
  request = some f;
  failed = false;
  search = t.search;
}

abbrev pub same_text : Option String → Option String → Bool
same_text none none = true
same_text (some a) (some b) = str_eq a b
same_text _ _ = false

abbrev pub choose_if : Bool → Filter → Table → Table
choose_if true f t = t
choose_if false f t = load_unless (skips f.ticker f.event_type t.are_initial) f t

-- A filter that is chosen; an effect does not run again where nothing changed.
unfoldable pub choose : Filter → Table → Table
choose f t =
    choose_if (same_text f.ticker t.filter.ticker && same_text f.event_type t.filter.event_type) f t

-- What a load comes to: an exception of `fetch` or of reading the JSON, or a status with the rows.
pub data Loaded : Type 0 where
  crashed : Loaded
  replied : (status : ℕ) → Option (List ResolvedMarket) → Loaded

-- `body.markets ?? []`
abbrev pub or_no_rows : Option (List ResolvedMarket) → List ResolvedMarket
or_no_rows none = []
or_no_rows (some rows) = rows

-- A load that failed: the rows stay, and `finally` ends the loading.
abbrev pub fail_load : Table → Table
fail_load t = record {
  filter = t.filter;
  markets = t.markets;
  are_initial = t.are_initial;
  loaded_with = t.loaded_with;
  loading = false;
  request = none;
  failed = true;
  search = t.search;
}

abbrev pub show_rows : Filter → List ResolvedMarket → Table → Table
show_rows f rows t = record {
  filter = t.filter;
  markets = rows;
  are_initial = false;
  loaded_with = f;
  loading = false;
  request = none;
  failed = false;
  search = t.search;
}

abbrev pub load_ok : Bool → Filter → Option (List ResolvedMarket) → Table → Table
load_ok false f rows t = fail_load t
load_ok true f rows t = show_rows f (or_no_rows rows) t

-- The rest of `load`, when its request for `f` is settled. A load that was cancelled changes
-- nothing, neither the rows nor the flag.
abbrev pub settle : (cancelled : Bool) → Filter → Loaded → Table → Table
settle true f r t = t
settle false f crashed t = fail_load t
settle false f (replied status rows) t = load_ok (is_ok status) f rows t

abbrev pub with_search : String → Table → Table
with_search s t = record {
  filter = t.filter;
  markets = t.markets;
  are_initial = t.are_initial;
  loaded_with = t.loaded_with;
  loading = t.loading;
  request = t.request;
  failed = t.failed;
  search = s;
}

module _ (to_lower trim : String → String) (includes : String → String → Bool) where
  abbrev pub or_empty : Option String → String
  or_empty none = ""
  or_empty (some s) = s

  abbrev pub hay_of : ResolvedMarket → String
  hay_of m =
      to_lower (concat (or_empty m.question ∷ " " ∷ or_empty m.slug ∷ " " ∷ m.market_id ∷ []))

  abbrev pub visible_if : Bool → String → List ResolvedMarket → List ResolvedMarket
  visible_if true q rows = rows
  visible_if false q rows = keep_if (λ m. includes (hay_of m) q) rows

  -- `visible`
  unfoldable pub visible : Table → List ResolvedMarket
  visible t = visible_if (str_eq (to_lower (trim t.search)) "") (to_lower (trim t.search)) t.markets

-- A step: the user chooses another filter or types, or a load is settled. Loads that were cancelled
-- may be settled at any time, for whichever filter they were.
pub data Step : Table → Table → Type 0 where
  chooses : (f : Filter) (t : Table) → Step t (choose f t)
  types : (s : String) (t : Table) → Step t (with_search s t)
  settles : {f : Filter} {t : Table} (r : Loaded) → t.request ≡ some f → Step t (settle false f r t)
  settles_late : (f : Filter) (r : Loaded) (t : Table) → Step t (settle true f r t)

pub data Reachable (rows : List ResolvedMarket) : Table → Type 0 where
  start : Reachable rows (initial_table rows)
  step : {s t : Table} → Reachable rows s → Step s t → Reachable rows t
