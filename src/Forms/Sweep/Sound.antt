-- ===== src/Forms/Sweep/Sound.antt =====
-- What the form of a sweep sends, and the limits of the plan.
use polyquantlab.Common.{
  ℕ, ◌≤◌, ◌≡◌, refl, arith, String, str_eq, Bool, true, false, List, [], ◌∷◌, Option, none, some,
  keep_if, cons_if, find, ℤ, pos, negsuc, ◌*ℤ◌, ltbℤ, ◌≤ℤ◌, if◌then◌else◌, ◌⊎◌, inl, inr,
}
use polyquantlab.Forms.{
  StrategyType, threshold_entry, mean_reversion, time_before_resolution, Spec, threshold_spec,
  reversion_spec, time_spec, spec_of, Pins, job_shown,
}
use polyquantlab.Forms.Sending.{Page, Reachable, IsSound, reachable-IsSound}
use polyquantlab.Forms.Sweep.{
  ParamSpec, sweepable_params, AxisState, SweepForm, initial_form, switch_strategy, y_steps,
  total_cells, SweepPost, sweep_post, over_cells, sweep_guard,
}
use polyquantlab.Forms.Sweep.Edits.{
  AxisEdit, choose_param, set_from, set_to, set_steps, with_param, edit_axis, SweepEdit, set_ticker,
  set_limit, switch, set_pin, set_enable_y, set_x, set_y, edit_sweep,
}

-- One of the parameters has this key.
abbrev pub HasKey : String → List ParamSpec → Type 0
HasKey k [] = ⊥
HasKey k (p ∷ ps) = (p.key ≡ k) ⊎ HasKey k ps

abbrev FoundIn : List ParamSpec → Option ParamSpec → Type 0
FoundIn ps none = Unit
FoundIn ps (some p) = HasKey p.key ps

FoundIn-there :
    (p : ParamSpec) (ps : List ParamSpec) (o : Option ParamSpec) → FoundIn ps o → FoundIn (p ∷ ps) o
FoundIn-there p ps none h = tt
FoundIn-there p ps (some q) h = inr h

find_if-FoundIn :
    (b : Bool) (p : ParamSpec) (ps : List ParamSpec) (o : Option ParamSpec)
    → FoundIn ps o
    → FoundIn (p ∷ ps) (elim b [ true ↦ some p | false ↦ o ])
find_if-FoundIn true p ps o h = inl refl
find_if-FoundIn false p ps o h = FoundIn-there p ps o h

find-FoundIn : (q : ParamSpec → Bool) (ps : List ParamSpec) → FoundIn ps (find q ps)
find-FoundIn q [] = tt
find-FoundIn q (p ∷ ps) = find_if-FoundIn (q p) p ps (find q ps) (find-FoundIn q ps)

HasKey-cons_if :
    (b : Bool) (k : String) (p : ParamSpec) (ps qs : List ParamSpec)
    → (HasKey k qs → HasKey k ps)
    → HasKey k (cons_if b p qs)
    → HasKey k (p ∷ ps)
HasKey-cons_if true k p ps qs f (inl e) = inl e
HasKey-cons_if true k p ps qs f (inr h) = inr (f h)
HasKey-cons_if false k p ps qs f h = inr (f h)

HasKey-keep_if :
    (q : ParamSpec → Bool) (k : String) (ps : List ParamSpec)
    → HasKey k (keep_if q ps)
    → HasKey k ps
HasKey-keep_if q k [] h = h
HasKey-keep_if q k (p ∷ ps) h = HasKey-cons_if (q p) k p ps (keep_if q ps) (HasKey-keep_if q k ps) h

-- An edit of an axis leaves its parameter or takes one of the parameters offered.
with_param-HasKey :
    (ps qs : List ParamSpec) (o : Option ParamSpec) (a : AxisState)
    → FoundIn qs o
    → ((k : String) → HasKey k qs → HasKey k ps)
    → HasKey a.param ps
    → HasKey (with_param o a).param ps
with_param-HasKey ps qs none a f g h = h
with_param-HasKey ps qs (some p) a f g h = g p.key f

edit_axis-HasKey :
    (ps qs : List ParamSpec) (e : AxisEdit) (a : AxisState)
    → ((k : String) → HasKey k qs → HasKey k ps)
    → HasKey a.param ps
    → HasKey (edit_axis qs e a).param ps
unfolding edit_axis
edit_axis-HasKey ps qs (choose_param v) a g h =
    with_param-HasKey ps qs _ a (find-FoundIn (λ p. str_eq p.key v) qs) g h
edit_axis-HasKey ps qs (set_from none) a g h = h
edit_axis-HasKey ps qs (set_from (some n)) a g h = h
edit_axis-HasKey ps qs (set_to none) a g h = h
edit_axis-HasKey ps qs (set_to (some n)) a g h = h
edit_axis-HasKey ps qs (set_steps none) a g h = h
edit_axis-HasKey ps qs (set_steps (some n)) a g h = h

-- The form keeps to the limit on markets, and its axes are parameters of the strategy.
pub record IsFit (max_market_limit : ℕ) (f : SweepForm) : Type 0 where
  pub limit : f.market_limit ≤ max_market_limit
  pub x : HasKey f.x_axis.param (sweepable_params f.strategy_type)
  pub y : HasKey f.y_axis.param (sweepable_params f.strategy_type)

switch_strategy-IsFit :
    (m : ℕ) (t : StrategyType) (f : SweepForm) → IsFit m f → IsFit m (switch_strategy t f)
unfolding switch_strategy
switch_strategy-IsFit m threshold_entry f k = record {
  limit = k.limit;
  x = inl refl;
  y = inr (inl refl);
}
switch_strategy-IsFit m mean_reversion f k = record {
  limit = k.limit;
  x = inl refl;
  y = inr (inl refl);
}
switch_strategy-IsFit m time_before_resolution f k = record {
  limit = k.limit;
  x = inl refl;
  y = inr (inl refl);
}

edit_sweep-IsFit : (m : ℕ) (e : SweepEdit) (f : SweepForm) → IsFit m f → IsFit m (edit_sweep m e f)
unfolding edit_sweep
edit_sweep-IsFit m (set_ticker t) f k = record { limit = k.limit; x = k.x; y = k.y }
edit_sweep-IsFit m (set_limit n) f k = record { limit = omega arith; x = k.x; y = k.y }
edit_sweep-IsFit m (switch t) f k = switch_strategy-IsFit m t f k
edit_sweep-IsFit m (set_pin e) f k = record { limit = k.limit; x = k.x; y = k.y }
edit_sweep-IsFit m (set_enable_y b) f k = record { limit = k.limit; x = k.x; y = k.y }
edit_sweep-IsFit m (set_x e) f k = record {
  limit = k.limit;
  x = edit_axis-HasKey (sweepable_params f.strategy_type) _ e f.x_axis (λ s h. h) k.x;
  y = k.y;
}
edit_sweep-IsFit m (set_y e) f k = record {
  limit = k.limit;
  x = k.x;
  y =
      edit_axis-HasKey (sweepable_params f.strategy_type) _ e f.y_axis
        (λ s. HasKey-keep_if _ s (sweepable_params f.strategy_type)) k.y;
}

-- The strategy that a spec is for.
abbrev pub type_of : Spec → StrategyType
type_of (threshold_spec a b c d) = threshold_entry
type_of (reversion_spec a b c) = mean_reversion
type_of (time_spec a b c d) = time_before_resolution

-- The number of cells that a request asks for.
abbrev pub cells : AxisState → Option AxisState → ℤ
cells x none = x.steps *ℤ pos 1
cells x (some y) = x.steps *ℤ y.steps

abbrev pub HasOwnParam : StrategyType → Option AxisState → Type 0
HasOwnParam t none = Unit
HasOwnParam t (some a) = HasKey a.param (sweepable_params t)

-- A request within the limits of a plan, whose axes are parameters of its strategy.
pub record IsWithin (max_market_limit max_sweep_cells : ℕ) (p : SweepPost) : Type 0 where
  pub limit : p.market_limit ≤ max_market_limit
  pub cells : cells p.x_axis p.y_axis ≤ℤ pos max_sweep_cells
  pub x : HasOwnParam (type_of p.strategy) (some p.x_axis)
  pub y : HasOwnParam (type_of p.strategy) p.y_axis

type_of-spec_of : (t : StrategyType) (p : Pins) → type_of (spec_of t p) ≡ t
type_of-spec_of threshold_entry p = refl
type_of-spec_of mean_reversion p = refl
type_of-spec_of time_before_resolution p = refl

≤ℤ_of : (n : ℕ) (z : ℤ) → ltbℤ (pos n) z ≡ false → z ≤ℤ pos n
≤ℤ_of n (pos m) h = ground arith
≤ℤ_of n (negsuc m) h = tt

over_cells-none : (b : Bool) (n : ℕ) (o : Option String) → over_cells b n o ≡ none → b ≡ false
over_cells-none true n o h = cc
over_cells-none false n o h = refl

cells-total_cells :
    (b : Bool) (x y : AxisState) → cells x (if b then some y else none) ≡ x.steps *ℤ y_steps b y
cells-total_cells true x y = refl
cells-total_cells false x y = refl

HasOwnParam-if :
    (b : Bool) (t : StrategyType) (y : AxisState)
    → HasKey y.param (sweepable_params t)
    → HasOwnParam t (if b then some y else none)
HasOwnParam-if true t y h = h
HasOwnParam-if false t y h = tt

sweep_post-IsWithin :
    (m n : ℕ) (f : SweepForm) → IsFit m f → sweep_guard m n f ≡ none → IsWithin m n (sweep_post f)
unfolding sweep_guard
sweep_post-IsWithin m n f k g = record {
  limit = k.limit;
  cells =
      rw (cells-total_cells f.enable_y f.x_axis f.y_axis)
        (≤ℤ_of n (total_cells f) (over_cells-none _ n _ g));
  x = rw (type_of-spec_of f.strategy_type f.pins) k.x;
  y =
      rw (type_of-spec_of f.strategy_type f.pins)
        (HasOwnParam-if f.enable_y f.strategy_type f.y_axis k.y);
}

initial_form-IsFit : (m : ℕ) → IsFit m (initial_form m)
initial_form-IsFit m = record { limit = omega arith; x = inl refl; y = inr (inl refl) }

-- However the form of a sweep is edited and submitted, and whatever the replies are: every request
-- that it sends asks for at most the plan's markets and cells, and sweeps parameters of the
-- strategy it names; and no request is sent while another is under way.
pub sweep-IsSound :
    (max_market_limit max_sweep_cells : ℕ) (encode : String → String)
    → {s : Page SweepForm SweepPost}
    → Reachable
        (edit_sweep max_market_limit)
        (sweep_guard max_market_limit max_sweep_cells)
        sweep_post
        (job_shown encode "/dashboard/backtest/sweep/")
        (initial_form max_market_limit)
        s
    → IsSound (IsFit max_market_limit) (IsWithin max_market_limit max_sweep_cells) s
sweep-IsSound m n encode r =
    reachable-IsSound (edit_sweep m) (sweep_guard m n) sweep_post _ (IsFit m) (IsWithin m n)
      (edit_sweep-IsFit m) (sweep_post-IsWithin m n) (initial_form-IsFit m) r
