-- ===== src/Paper/Largest.antt =====
-- The drawdown as a loss over consecutive trades, and the trades read from the other end: the page
-- gets them newest first.
use polyquantlab.Common.{ℕ, ◌+◌, ◌≤◌, ◌≡◌, refl, ap, arith, List, [], ◌∷◌, ◌++◌, ◌∙◌}
use mathlib.Core.List.{reverse, reverse-cons, reverse-append, reverse-reverse, append_assoc}
use polyquantlab.Paper.{Amount, nothing, max_drawdown}
use polyquantlab.Paper.Drawdown.{
  total, gap_loop, IsOver, drawdown_loop-IsOver, gap_loop-HasRun, gap_loop_covers, ends_run, HasRun,
  has_run, gain-append, loss-append,
}

max_drawdown-IsOver : (ns : List Amount) → IsOver (max_drawdown ns) (gap_loop 0 0 ns) nothing
unfolding max_drawdown
max_drawdown-IsOver ns = drawdown_loop-IsOver nothing nothing nothing 0 0 ns refl refl

gap_loop_reached : (ns : List Amount) → HasRun ns (gap_loop 0 0 ns)
gap_loop_reached ns =
    gap_loop-HasRun [] ns 0 0 (ends_run [] [] refl refl) (has_run [] [] [] refl refl)

-- A run of consecutive trades whose loss is this amount.
pub data IsLossOfRun (ns : List Amount) (d : Amount) : Type 0 where
  loss_of_run :
      (xs ys zs : List Amount)
      → ns ≡ xs ++ (ys ++ zs)
      → (total ys).loss + d.loss ≡ (total ys).gain + d.gain
      → IsLossOfRun ns d

HasRun-IsLossOfRun :
    (ns : List Amount) (d : Amount) (k : ℕ) → IsOver d k nothing → HasRun ns k → IsLossOfRun ns d
HasRun-IsLossOfRun ns d k h (has_run xs ys zs e l) = loss_of_run xs ys zs e (omega arith)

-- The maximum drawdown that the page computes is the largest loss over any run of consecutive
-- trades: no run `ys` of the trades loses more, and some run loses just as much.
pub max_drawdown-largest :
    (xs ys zs : List Amount)
    → ((total ys).loss + (max_drawdown (xs ++ (ys ++ zs))).loss
        ≤ (total ys).gain + (max_drawdown (xs ++ (ys ++ zs))).gain)
      × IsLossOfRun (xs ++ (ys ++ zs)) (max_drawdown (xs ++ (ys ++ zs)))
max_drawdown-largest xs ys zs =
    let k = max_drawdown-IsOver (xs ++ (ys ++ zs)) in
    let c = gap_loop_covers xs ys zs in
    ((omega arith), HasRun-IsLossOfRun _ _ _ k (gap_loop_reached (xs ++ (ys ++ zs))))

gain-reverse : (ns : List Amount) → (total (reverse ns)).gain ≡ (total ns).gain
gain-reverse [] = refl
gain-reverse (n ∷ ns) =
    let a = gain-append (reverse ns) (n ∷ []) in
    let b = gain-reverse ns in rw (reverse-cons n ns) (omega arith)

loss-reverse : (ns : List Amount) → (total (reverse ns)).loss ≡ (total ns).loss
loss-reverse [] = refl
loss-reverse (n ∷ ns) =
    let a = loss-append (reverse ns) (n ∷ []) in
    let b = loss-reverse ns in rw (reverse-cons n ns) (omega arith)

reverse-runs :
    (xs ys zs : List Amount) → reverse (xs ++ (ys ++ zs)) ≡ reverse zs ++ (reverse ys ++ reverse xs)
reverse-runs xs ys zs =
    reverse-append xs (ys ++ zs)
    ∙ ap (λ t. t ++ reverse xs) (reverse-append ys zs)
    ∙ append_assoc (reverse zs) (reverse ys) (reverse xs)

-- A run of some trades is one of the trades reversed, with the same loss.
HasRun-reverse_le : (ns : List Amount) (k : ℕ) → HasRun ns k → k ≤ gap_loop 0 0 (reverse ns)
HasRun-reverse_le ns k (has_run xs ys zs e l) =
    let c = gap_loop_covers (reverse zs) (reverse ys) (reverse xs) in
    let g = gain-reverse ys in
    let h = loss-reverse ys in rw (e, reverse-runs xs ys zs) (omega arith)

gap_loop-reverse_le : (ns : List Amount) → gap_loop 0 0 ns ≤ gap_loop 0 0 (reverse ns)
gap_loop-reverse_le ns = HasRun-reverse_le ns _ (gap_loop_reached ns)

gap_loop-reverse : (ns : List Amount) → gap_loop 0 0 (reverse ns) ≡ gap_loop 0 0 ns
gap_loop-reverse ns =
    let a = gap_loop-reverse_le ns in
    let b : gap_loop 0 0 (reverse ns) ≤ gap_loop 0 0 ns =
      rw (← ap (λ t. gap_loop 0 0 t) (reverse-reverse ns)) (gap_loop-reverse_le (reverse ns)) in
    omega arith

-- The maximum drawdown of trades read newest first is that of the trades in chronological order: the
-- two amounts are worth the same.
pub max_drawdown-reverse :
    (ns : List Amount)
    → (max_drawdown (reverse ns)).gain + (max_drawdown ns).loss
      ≡ (max_drawdown ns).gain + (max_drawdown (reverse ns)).loss
max_drawdown-reverse ns =
    let a = max_drawdown-IsOver ns in
    let b = max_drawdown-IsOver (reverse ns) in let e = gap_loop-reverse ns in omega arith
