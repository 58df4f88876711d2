-- ===== src/Grid/Plateau.antt =====
-- Where a plateau can be.
use polyquantlab.Common.{
  ℕ, suc, ◌+◌, ◌≤◌, ◌<◌, ◌≡◌, refl, arith, Bool, true, false, not, ◌&&◌, List, [], ◌∷◌, Option,
  none, some,
}
use polyquantlab.Paper.{Amount}
use polyquantlab.Grid.{
  Metric, higher_is_better, SweepCell, score, peak, cell_at, near, value_passes, cell_passes,
  passes, plateau_row, plateau_rows, plateau,
}
use polyquantlab.Grid.Peak.{ValueCovered, cell_at-ValueCovered}

not_near : (p s : Amount) → p.gain < p.loss → s.gain + p.loss ≤ p.gain + s.loss → near p s ≡ false
not_near p s h k = ground arith

and_false : (b c : Bool) → c ≡ false → b && c ≡ false
and_false true c e = e
and_false false c e = refl

value_passes-none :
    (up : Bool) (p : Amount) (v : Option Amount)
    → p.gain < p.loss
    → ValueCovered up (some p) v
    → value_passes up p v ≡ false
value_passes-none up p none h k = refl
value_passes-none up p (some v) h k = not_near p (score up v) h k

module _ (up : Bool) (p : Amount) (cells : List (List SweepCell)) (top : peak up cells ≡ some p)
    (below : p.gain < p.loss) where
  cell_passes-none :
      (y x : ℕ) (o : Option SweepCell) → cell_at cells y x ≡ o → cell_passes up p o ≡ false
  cell_passes-none y x none e = refl
  cell_passes-none y x (some c) e =
      and_false (not c.error) _
        (value_passes-none up p c.value below (rw (← top) (cell_at-ValueCovered up cells y x e)))

  passes-none : (y x : ℕ) → passes up p cells y x ≡ false
  passes-none y x = cell_passes-none y x (cell_at cells y x) refl

  plateau_row-none : (y x : ℕ) (cs : List SweepCell) → plateau_row up p cells y x cs ≡ []
  plateau_row-none y x [] = refl
  plateau_row-none y x (c ∷ cs) = rw (passes-none y x, plateau_row-none y (suc x) cs) refl

  plateau_rows-none : (y : ℕ) (rs : List (List SweepCell)) → plateau_rows up p cells y rs ≡ []
  plateau_rows-none y [] = refl
  plateau_rows-none y (r ∷ rs) = rw (plateau_row-none y 0 r, plateau_rows-none (suc y) rs) refl

-- A grid whose best score is below zero has no plateau: not even the peak is within the 10% of
-- itself that the code computes. So no grid of losses has one, and none of drawdowns over zero.
pub plateau-below_zero :
    (m : Metric) (cells : List (List SweepCell)) (p : Amount)
    → peak (higher_is_better m) cells ≡ some p
    → p.gain < p.loss
    → plateau m cells ≡ []
unfolding plateau
plateau-below_zero m cells p e h = rw e (plateau_rows-none (higher_is_better m) p cells e h 0 cells)
