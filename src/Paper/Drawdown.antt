-- ===== src/Paper/Drawdown.antt =====
-- The loop of the drawdown and the runs of consecutive trades.
use polyquantlab.Common.{
  ℕ, ◌+◌, ◌-◌, ◌≤◌, max, ◌≡◌, refl, sym, ap, arith, Bool, true, false, List, [], ◌∷◌, ◌++◌, ◌∙◌,
  ◌⊎◌, inl, inr, if◌then◌else◌,
}
use mathlib.Core.List.{append_assoc, append-nil}
use polyquantlab.Paper.{Amount, nothing, add, sub, more, larger, drawdown_loop}

-- What a run of trades comes to.
abbrev pub total : List Amount → Amount
total [] = nothing
total (n ∷ ns) = add n (total ns)

-- The loop again, with the gap between the peak and the sum.
abbrev pub gap_loop : (gap drawdown : ℕ) → List Amount → ℕ
gap_loop g d [] = d
gap_loop g d (n ∷ ns) = gap_loop (g + n.loss - n.gain) (max (g + n.loss - n.gain) d) ns

-- The larger of two amounts is either.
data IsLarger (a b : Amount) : Amount → Type 0 where
  first : b.gain + a.loss ≤ a.gain + b.loss → IsLarger a b a
  second : a.gain + b.loss ≤ b.gain + a.loss → IsLarger a b b

larger_if-IsLarger : (c : Bool) (a b : Amount) → more a b ≡ c → IsLarger a b (if c then a else b)
larger_if-IsLarger true a b e = first (ground arith)
larger_if-IsLarger false a b e = second (ground arith)

larger-IsLarger : (a b : Amount) → IsLarger a b (larger a b)
larger-IsLarger a b = larger_if-IsLarger (more a b) a b refl

-- `a` is worth `n` more than `b`.
abbrev pub IsOver : Amount → ℕ → Amount → Type 0
IsOver a n b = a.gain + b.loss ≡ b.gain + a.loss + n

peak-IsOver :
    (sum peak n m : Amount) (g : ℕ)
    → IsOver peak g sum
    → IsLarger (add sum n) peak m
    → IsOver m (g + n.loss - n.gain) (add sum n)
peak-IsOver sum peak n m g h (first k) = omega arith
peak-IsOver sum peak n m g h (second k) = omega arith

drawdown-IsOver :
    (m s d e : Amount) (g k : ℕ)
    → IsOver m g s
    → IsOver d k nothing
    → IsLarger (sub m s) d e
    → IsOver e (max g k) nothing
drawdown-IsOver m s d e g k h i (first l) = omega arith
drawdown-IsOver m s d e g k h i (second l) = omega arith

pub drawdown_loop-IsOver :
    (sum peak drawdown : Amount) (g d : ℕ) (ns : List Amount)
    → IsOver peak g sum
    → IsOver drawdown d nothing
    → IsOver (drawdown_loop sum peak drawdown ns) (gap_loop g d ns) nothing
unfolding drawdown_loop
drawdown_loop-IsOver sum peak drawdown g d [] h k = k
drawdown_loop-IsOver sum peak drawdown g d (n ∷ ns) h k =
    let p = peak-IsOver sum peak n _ g h (larger-IsLarger (add sum n) peak) in
    drawdown_loop-IsOver (add sum n) (larger (add sum n) peak) _ _ _ ns p (
      drawdown-IsOver (larger (add sum n) peak) (add sum n) drawdown _ (g + n.loss - n.gain) d p k
        (larger-IsLarger (sub (larger (add sum n) peak) (add sum n)) drawdown))

-- A run at the end of the trades with this loss, and a run anywhere.
pub data EndsRun (pre : List Amount) (g : ℕ) : Type 0 where
  ends_run :
      (xs ys : List Amount) → pre ≡ xs ++ ys → (total ys).loss ≡ (total ys).gain + g → EndsRun pre g

pub data HasRun (ns : List Amount) (d : ℕ) : Type 0 where
  has_run :
      (xs ys zs : List Amount)
      → ns ≡ xs ++ (ys ++ zs)
      → (total ys).loss ≡ (total ys).gain + d
      → HasRun ns d

pub gain-append :
    (xs ys : List Amount) → (total (xs ++ ys)).gain ≡ (total xs).gain + (total ys).gain
gain-append [] ys = omega arith
gain-append (x ∷ xs) ys = let h = gain-append xs ys in omega arith

pub loss-append :
    (xs ys : List Amount) → (total (xs ++ ys)).loss ≡ (total xs).loss + (total ys).loss
loss-append [] ys = omega arith
loss-append (x ∷ xs) ys = let h = loss-append xs ys in omega arith

EndsRun-snoc_if :
    (pre : List Amount) (n : Amount) (g : ℕ)
    → (n.gain ≤ g + n.loss) ⊎ (g + n.loss ≤ n.gain)
    → EndsRun pre g
    → EndsRun (pre ++ n ∷ []) (g + n.loss - n.gain)
EndsRun-snoc_if pre n g (inl k) (ends_run xs ys e h) =
    ends_run xs (ys ++ n ∷ []) (ap (λ t. t ++ n ∷ []) e ∙ append_assoc xs ys (n ∷ []))
      (let a = gain-append ys (n ∷ []) in let b = loss-append ys (n ∷ []) in omega arith)
EndsRun-snoc_if pre n g (inr k) (ends_run xs ys e h) =
    ends_run (pre ++ n ∷ []) [] (sym (append-nil (pre ++ n ∷ []))) (omega arith)

EndsRun-snoc :
    (pre : List Amount) (n : Amount) (g : ℕ)
    → EndsRun pre g
    → EndsRun (pre ++ n ∷ []) (g + n.loss - n.gain)
EndsRun-snoc pre n g r = EndsRun-snoc_if pre n g (ground arith) r

HasRun-snoc : (pre : List Amount) (n : Amount) (d : ℕ) → HasRun pre d → HasRun (pre ++ n ∷ []) d
HasRun-snoc pre n d (has_run xs ys zs e h) =
    has_run xs ys (zs ++ n ∷ [])
      (ap (λ t. t ++ n ∷ []) e
        ∙ append_assoc xs (ys ++ zs) (n ∷ [])
        ∙ ap (λ t. xs ++ t) (append_assoc ys zs (n ∷ [])))
      h

EndsRun-HasRun : (pre : List Amount) (g : ℕ) → EndsRun pre g → HasRun pre g
EndsRun-HasRun pre g (ends_run xs ys e h) =
    has_run xs ys [] (e ∙ ap (λ t. xs ++ t) (sym (append-nil ys))) h

max_cases : (a b : ℕ) → (max a b ≡ a) ⊎ (max a b ≡ b)
max_cases a b = ground arith

HasRun-max : (pre : List Amount) (a b : ℕ) → HasRun pre a → HasRun pre b → HasRun pre (max a b)
HasRun-max pre a b r s = elim (max_cases a b) [ inl e ↦ rw e r | inr e ↦ rw e s ]

pub gap_loop-HasRun :
    (pre ns : List Amount) (g d : ℕ)
    → EndsRun pre g
    → HasRun pre d
    → HasRun (pre ++ ns) (gap_loop g d ns)
gap_loop-HasRun pre [] g d r h = rw (append-nil pre) h
gap_loop-HasRun pre (n ∷ ns) g d r h = rw (← append_assoc pre (n ∷ []) ns) (
    gap_loop-HasRun (pre ++ n ∷ []) ns _ _ (EndsRun-snoc pre n g r)
      (HasRun-max _ _ _ (EndsRun-HasRun _ _ (EndsRun-snoc pre n g r)) (HasRun-snoc pre n d h)))

-- The gap after some trades, and that the drawdown so far only grows.
abbrev gap_after : ℕ → List Amount → ℕ
gap_after g [] = g
gap_after g (n ∷ ns) = gap_after (g + n.loss - n.gain) ns

gap_loop-append :
    (g d : ℕ) (xs ys : List Amount)
    → gap_loop g d (xs ++ ys) ≡ gap_loop (gap_after g xs) (gap_loop g d xs) ys
gap_loop-append g d [] ys = refl
gap_loop-append g d (x ∷ xs) ys =
    gap_loop-append (g + x.loss - x.gain) (max (g + x.loss - x.gain) d) xs ys

gap_loop_grows : (g d : ℕ) (ns : List Amount) → d ≤ gap_loop g d ns
gap_loop_grows g d [] = omega arith
gap_loop_grows g d (n ∷ ns) =
    let h = gap_loop_grows (g + n.loss - n.gain) (max (g + n.loss - n.gain) d) ns in omega arith

gap_after_le : (g d : ℕ) (ns : List Amount) → g ≤ d → gap_after g ns ≤ gap_loop g d ns
gap_after_le g d [] h = h
gap_after_le g d (n ∷ ns) h =
    gap_after_le (g + n.loss - n.gain) (max (g + n.loss - n.gain) d) ns (omega arith)

total-gap_after :
    (g : ℕ) (ns : List Amount) → g + (total ns).loss ≤ gap_after g ns + (total ns).gain
total-gap_after g [] = omega arith
total-gap_after g (n ∷ ns) = let h = total-gap_after (g + n.loss - n.gain) ns in omega arith

pub gap_loop_covers :
    (xs ys zs : List Amount) → (total ys).loss ≤ (total ys).gain + gap_loop 0 0 (xs ++ (ys ++ zs))
gap_loop_covers xs ys zs =
    let a = gap_loop-append 0 0 xs (ys ++ zs) in
    let b = gap_loop-append (gap_after 0 xs) (gap_loop 0 0 xs) ys zs in
    let c =
      gap_loop_grows (gap_after (gap_after 0 xs) ys)
        (gap_loop (gap_after 0 xs) (gap_loop 0 0 xs) ys) zs in
    let d =
      gap_after_le (gap_after 0 xs) (gap_loop 0 0 xs) ys (gap_after_le 0 0 xs (omega arith)) in
    let e = total-gap_after (gap_after 0 xs) ys in omega arith
