-- ===== src/Scrubber.antt =====
-- The time scrubber of web/components/MarketDetail.tsx: jumping to the snapshot nearest to a time.
-- Times are milliseconds since the epoch; `parse` is `Date.parse`, and `show` prints a time.
pub mod Nearest
pub mod Book
mod Tests
use polyquantlab.Common.{
  ℕ, zero, suc, ◌+◌, ◌-◌, ltb, ◌||◌, String, str_eq, Bool, true, false, List, [], ◌∷◌, Option, none,
  some, concat, last_or, get_or, length, get_elem?,
}

-- `Math.abs(a - b)`
abbrev pub distance : ℕ → ℕ → ℕ
distance a b = (a - b) + (b - a)

-- `d < bestDist`; `none` is Infinity.
abbrev pub is_less : ℕ → Option ℕ → Bool
is_less d none = true
is_less d (some b) = ltb d b

abbrev pub pick : {A : Type 0} → Bool → A → A → A
pick true a b = a
pick false a b = b

-- The loop of `jumpToTs`, from the index `i` on.
unfoldable pub nearest_loop : (target i best_index : ℕ) → (best_distance : Option ℕ) → List ℕ → ℕ
nearest_loop target i best_index best_distance [] = best_index
nearest_loop target i best_index best_distance (p ∷ ps) =
    nearest_loop target (suc i) (pick (is_less (distance p target) best_distance) i best_index)
      (pick (is_less (distance p target) best_distance) (some (distance p target)) best_distance) ps

-- `jumpToTs`: the index that is passed on, if there are snapshots.
abbrev pub jump_to_ts : List ℕ → (target : ℕ) → Option ℕ
jump_to_ts [] target = none
jump_to_ts (p ∷ ps) target = some (nearest_loop target 0 0 none (p ∷ ps))

-- What the manual input comes to: an error under it, or a jump.
pub data Applied : Type 0 where
  input_error : String → Applied
  jumped : Option ℕ → Applied

module _ (parse : String → Option ℕ) (show : ℕ → String) where
  abbrev pub outside_if : Bool → List ℕ → ℕ → Applied
  outside_if true ps t = input_error (
      concat (
        "Outside this market's data window ("
        ∷ show (get_or ps 0 0)
        ∷ "Z to "
        ∷ show (last_or ps 0)
        ∷ "Z)"
        ∷ []))
  outside_if false ps t = jumped (jump_to_ts ps t)

  abbrev pub apply_time : Option ℕ → List ℕ → Applied
  apply_time none ps = input_error "Not a valid ISO timestamp (e.g. 2026-05-24T13:42:00Z)"
  apply_time (some t) ps =
      outside_if (ltb (t + 60000) (get_or ps 0 0) || ltb (last_or ps 0 + 60000) t) ps t

  abbrev pub apply_if : Bool → String → List ℕ → Applied
  apply_if true trimmed ps = input_error "Empty"
  apply_if false trimmed ps = apply_time (parse trimmed) ps

  -- `applyManualInput`, of the text less the white space around it; the component shows it only
  -- where there are snapshots.
  unfoldable pub apply_manual_input : String → List ℕ → Applied
  apply_manual_input trimmed ps = apply_if (str_eq trimmed "") trimmed ps

-- `jumpDelta`, backwards or forwards from the time shown, or else from the latest. A jump back stops
-- at time 0, to which the snapshot nearest to any earlier time is nearest as well.
abbrev pub base_of : Option ℕ → List ℕ → ℕ
base_of none ps = last_or ps 0
base_of (some t) ps = t

abbrev pub jump_forward : Option ℕ → (delta : ℕ) → List ℕ → Option ℕ
jump_forward current delta ps = jump_to_ts ps (base_of current ps + delta)

abbrev pub jump_back : Option ℕ → (delta : ℕ) → List ℕ → Option ℕ
jump_back current delta ps = jump_to_ts ps (base_of current ps - delta)
