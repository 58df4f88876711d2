-- ===== src/Markets/Fresh.antt =====
-- The rows of the table, its filter and the loads that are settled.
use polyquantlab.Common.{◌≡◌, refl, String, Bool, true, false, List, Option, none, some, ◌∙◌, sym}
use mathlib.Core.Option
use polyquantlab.Strategy.Submit.{is_ok}
use polyquantlab.Markets.{
  ResolvedMarket, Filter, all_markets, Table, skips, load_unless, choose_if, choose, Loaded,
  crashed, replied, fail_load, load_ok, settle, with_search, Step, chooses, types, settles,
  settles_late, Reachable, start, step,
}

-- What the rows are: those of the chosen filter, while nothing is loaded; or older ones, while the
-- filter is loaded or after its load failed.
pub data IsFresh (t : Table) : Type 0 where
  of_filter : t.loaded_with ≡ t.filter → t.request ≡ none → IsFresh t
  under_way : t.request ≡ some t.filter → t.loading ≡ true → IsFresh t
  load_failed : t.failed ≡ true → t.loading ≡ false → t.request ≡ none → IsFresh t

-- The first rows are of all markets.
data IsFirst (t : Table) : Type 0 where
  first_rows : t.are_initial ≡ true → t.loaded_with ≡ all_markets → IsFirst t
  later_rows : t.are_initial ≡ false → IsFirst t

record Kept (t : Table) : Type 0 where
  fresh : IsFresh t
  first : IsFirst t

skips-all :
    (a b : Option String) (c : Bool)
    → skips a b c ≡ true
    → (record { ticker = a; event_type = b } ≡ all_markets) × (c ≡ true)
skips-all none none c e = (refl, e)
skips-all none (some b) c e = cc
skips-all (some a) none c e = cc
skips-all (some a) (some b) c e = cc

first-loaded_with : (t : Table) → IsFirst t → t.are_initial ≡ true → t.loaded_with ≡ all_markets
first-loaded_with t (first_rows i l) e = l
first-loaded_with t (later_rows i) e = cc

load_unless-IsFresh :
    (b : Bool) (f : Filter) (t : Table)
    → skips f.ticker f.event_type t.are_initial ≡ b
    → IsFirst t
    → IsFresh (load_unless b f t)
load_unless-IsFresh true f t e k =
    let s = skips-all f.ticker f.event_type t.are_initial e in
    of_filter (first-loaded_with t k s.1 ∙ sym s.0) refl
load_unless-IsFresh false f t e k = under_way refl refl

load_unless-IsFirst : (b : Bool) (f : Filter) (t : Table) → IsFirst t → IsFirst (load_unless b f t)
load_unless-IsFirst true f t (first_rows i l) = first_rows i l
load_unless-IsFirst true f t (later_rows i) = later_rows i
load_unless-IsFirst false f t (first_rows i l) = first_rows i l
load_unless-IsFirst false f t (later_rows i) = later_rows i

choose_if-Kept : (b : Bool) (f : Filter) (t : Table) → Kept t → Kept (choose_if b f t)
choose_if-Kept true f t k = k
choose_if-Kept false f t k = record {
  fresh = load_unless-IsFresh _ f t refl k.first;
  first = load_unless-IsFirst _ f t k.first;
}

with_search-Kept : (s : String) (t : Table) → Kept t → Kept (with_search s t)
with_search-Kept s t k = record { fresh = searched k.fresh; first = searched_first k.first }
  where
    searched : IsFresh t → IsFresh (with_search s t)
    searched (of_filter a b) = of_filter a b
    searched (under_way a b) = under_way a b
    searched (load_failed a b c) = load_failed a b c

    searched_first : IsFirst t → IsFirst (with_search s t)
    searched_first (first_rows a b) = first_rows a b
    searched_first (later_rows a) = later_rows a

-- The load that is under way is of the chosen filter.
request-filter : (t : Table) (f : Filter) → IsFresh t → t.request ≡ some f → f ≡ t.filter
request-filter t f (of_filter a b) e = cc
request-filter t f (under_way a b) e = Option.some-injective _ _ (sym e ∙ a)
request-filter t f (load_failed a b c) e = cc

fail_load-Kept : (t : Table) → Kept t → Kept (fail_load t)
fail_load-Kept t k = record { fresh = load_failed refl refl refl; first = failed_first k.first }
  where
    failed_first : IsFirst t → IsFirst (fail_load t)
    failed_first (first_rows a b) = first_rows a b
    failed_first (later_rows a) = later_rows a

load_ok-Kept :
    (b : Bool) (f : Filter) (rows : Option (List ResolvedMarket)) (t : Table)
    → f ≡ t.filter
    → Kept t
    → Kept (load_ok b f rows t)
load_ok-Kept false f rows t e k = fail_load-Kept t k
load_ok-Kept true f rows t e k = record { fresh = of_filter e refl; first = later_rows refl }

settle-Kept :
    (f : Filter) (r : Loaded) (t : Table) → f ≡ t.filter → Kept t → Kept (settle false f r t)
settle-Kept f crashed t e k = fail_load-Kept t k
settle-Kept f (replied status rows) t e k = load_ok-Kept (is_ok status) f rows t e k

Step-Kept : {s t : Table} → Kept s → Step s t → Kept t
unfolding choose
Step-Kept k (chooses f t) = choose_if-Kept _ f t k
Step-Kept k (types s t) = with_search-Kept s t k
Step-Kept k (settles {f} {t} r e) = settle-Kept f r t (request-filter t f k.fresh e) k
Step-Kept k (settles_late f r t) = k

Reachable-Kept : {rows : List ResolvedMarket} {t : Table} → Reachable rows t → Kept t
Reachable-Kept start = record { fresh = of_filter refl refl; first = first_rows refl refl }
Reachable-Kept (step r s) = Step-Kept (Reachable-Kept r) s

-- Whatever filters are chosen, and in whatever order the loads are settled: when no load is under
-- way, the rows that the table has are those of the chosen filter, unless its load failed; and a
-- load that is under way and not cancelled is of the chosen filter, with the table marked as
-- loading. So a late reply never shows the rows of another filter.
pub reachable-IsFresh : {rows : List ResolvedMarket} {t : Table} → Reachable rows t → IsFresh t
reachable-IsFresh r = (Reachable-Kept r).fresh
