-- ===== src/Grid/Peak.antt =====
-- The peak of the grid and the scores of its cells.
use mathlib.Core.Option
use polyquantlab.Common.{
  ℕ, zero, suc, ◌+◌, ◌≤◌, ◌≡◌, refl, arith, Bool, true, false, List, [], ◌∷◌, Option, none, some,
  get_elem?,
}
use polyquantlab.Paper.{Amount, more}
use polyquantlab.Grid.{
  SweepCell, score, better_if, better, better_cell, peak_row, peak_rows, peak, in_row, cell_at,
}

-- A score is at most the best one.
abbrev pub Covers : Option Amount → Amount → Type 0
Covers none s = ⊥
Covers (some b) s = s.gain + b.loss ≤ b.gain + s.loss

abbrev pub ValueCovered : Bool → Option Amount → Option Amount → Type 0
ValueCovered up best none = Unit
ValueCovered up best (some v) = Covers best (score up v)

better_if-Covers :
    (c : Bool) (s b : Amount)
    → more s b ≡ c
    → Covers (better_if c s b) s × Covers (better_if c s b) b
better_if-Covers true s b e = ((omega arith), (ground arith))
better_if-Covers false s b e = ((ground arith), (omega arith))

better-Covers : (best : Option Amount) (s : Amount) → Covers (better best s) s
better-Covers none s = omega arith
better-Covers (some b) s = (better_if-Covers (more s b) s b refl).0

Covers_le :
    (a b s t : Amount)
    → a.gain + b.loss ≤ b.gain + a.loss
    → s.gain + a.loss ≤ a.gain + s.loss
    → s.gain + b.loss ≤ b.gain + s.loss
Covers_le a b s t h k = omega arith

better_if-keeps :
    (c : Bool) (s b t : Amount) → more s b ≡ c → Covers (some b) t → Covers (better_if c s b) t
better_if-keeps true s b t e h = let k = (better_if-Covers true s b e).1 in omega arith
better_if-keeps false s b t e h = h

better-keeps : (best : Option Amount) (s t : Amount) → Covers best t → Covers (better best s) t
better-keeps none s t h = elim h [ ]
better-keeps (some b) s t h = better_if-keeps (more s b) s b t refl h

better_cell-keeps :
    (up : Bool) (best v : Option Amount) (t : Amount)
    → Covers best t
    → Covers (better_cell up best v) t
better_cell-keeps up best none t h = h
better_cell-keeps up best (some v) t h = better-keeps best (score up v) t h

better_cell-ValueCovered :
    (up : Bool) (best v : Option Amount) → ValueCovered up (better_cell up best v) v
better_cell-ValueCovered up best none = tt
better_cell-ValueCovered up best (some v) = better-Covers best (score up v)

peak_row-keeps :
    (up : Bool) (best : Option Amount) (cs : List SweepCell) (t : Amount)
    → Covers best t
    → Covers (peak_row up best cs) t
peak_row-keeps up best [] t h = h
peak_row-keeps up best (c ∷ cs) t h =
    peak_row-keeps up (better_cell up best c.value) cs t (better_cell-keeps up best c.value t h)

peak_rows-keeps :
    (up : Bool) (best : Option Amount) (rs : List (List SweepCell)) (t : Amount)
    → Covers best t
    → Covers (peak_rows up best rs) t
peak_rows-keeps up best [] t h = h
peak_rows-keeps up best (r ∷ rs) t h =
    peak_rows-keeps up (peak_row up best r) rs t (peak_row-keeps up best r t h)

ValueCovered-if :
    (up : Bool) (a b v : Option Amount)
    → ((t : Amount) → Covers a t → Covers b t)
    → ValueCovered up a v
    → ValueCovered up b v
ValueCovered-if up a b none f h = tt
ValueCovered-if up a b (some v) f h = f (score up v) h

row-covered :
    (up : Bool) (best : Option Amount) (cs : List SweepCell) (x : ℕ) {c : SweepCell}
    → get_elem? cs x ≡ some c
    → ValueCovered up (peak_row up best cs) c.value
row-covered up best [] x e = cc
row-covered up best (d ∷ cs) zero {c} e = rw (← Option.some-injective _ _ e) (
    ValueCovered-if up (better_cell up best d.value) _ d.value
      (peak_row-keeps up (better_cell up best d.value) cs)
      (better_cell-ValueCovered up best d.value))
row-covered up best (d ∷ cs) (suc x) e = row-covered up (better_cell up best d.value) cs x e

rows-covered :
    (up : Bool) (best : Option Amount) (rs : List (List SweepCell)) (y x : ℕ) {c : SweepCell}
    → in_row (get_elem? rs y) x ≡ some c
    → ValueCovered up (peak_rows up best rs) c.value
rows-covered up best [] y x e = cc
rows-covered up best (r ∷ rs) zero x {c} e =
    ValueCovered-if up (peak_row up best r) _ c.value (peak_rows-keeps up (peak_row up best r) rs)
      (row-covered up best r x e)
rows-covered up best (r ∷ rs) (suc y) x e = rows-covered up (peak_row up best r) rs y x e

-- The value of a cell of the grid is at most the peak.
pub cell_at-ValueCovered :
    (up : Bool) (cells : List (List SweepCell)) (y x : ℕ) {c : SweepCell}
    → cell_at cells y x ≡ some c
    → ValueCovered up (peak up cells) c.value
unfolding peak
cell_at-ValueCovered up cells y x e = rows-covered up none cells y x e
