-- ===== src/Paper/Gross.antt =====
-- The gross wins and losses of the closed trades.
use polyquantlab.Common.{
  ◌+◌, ◌≤◌, ◌<◌, ◌≡◌, refl, arith, Bool, true, false, List, [], ◌∷◌, keep_if, cons_if, length, All,
  if◌then◌else◌,
}
use polyquantlab.Paper.{Amount, nothing, add, opposite, more, sum_from, gross_wins, gross_losses}
use polyquantlab.Paper.Drawdown.{total}

pub more-true : (a : Amount) → more a nothing ≡ true → a.loss < a.gain
more-true a e = ground arith

pub more-false : (a : Amount) → more a nothing ≡ false → a.gain ≤ a.loss
more-false a e = ground arith

pub sum_from-total :
    (a : Amount) (ns : List Amount)
    → ((sum_from a ns).gain ≡ a.gain + (total ns).gain)
      × ((sum_from a ns).loss ≡ a.loss + (total ns).loss)
sum_from-total a [] = ((omega arith), (omega arith))
sum_from-total a (n ∷ ns) =
    let h = sum_from-total (add a n) ns in
    let g = h.0 in let l = h.1 in ((omega arith), (omega arith))

abbrev pub won : List Amount → List Amount
won ns = keep_if (λ n. more n nothing) ns

abbrev pub lost : List Amount → List Amount
lost ns = keep_if (λ n. more nothing n) ns

-- A trade goes to one of the lists, or is worth nothing.
total-won-lost_if :
    (b c : Bool) (n t : Amount) (ps qs : List Amount)
    → more n nothing ≡ b
    → more nothing n ≡ c
    → ((total ps).gain + (total qs).gain) + t.loss ≡ ((total ps).loss + (total qs).loss) + t.gain
    → ((total (cons_if b n ps)).gain + (total (cons_if c n qs)).gain) + (n.loss + t.loss)
      ≡ ((total (cons_if b n ps)).loss + (total (cons_if c n qs)).loss) + (n.gain + t.gain)
total-won-lost_if true true n t ps qs e f h = absurd (ground arith)
total-won-lost_if true false n t ps qs e f h = omega arith
total-won-lost_if false true n t ps qs e f h = omega arith
total-won-lost_if false false n t ps qs e f h =
    let z : n.gain ≡ n.loss = ground arith in omega arith

total-won-lost :
    (ns : List Amount)
    → ((total (won ns)).gain + (total (lost ns)).gain) + (total ns).loss
      ≡ ((total (won ns)).loss + (total (lost ns)).loss) + (total ns).gain
total-won-lost [] = refl
total-won-lost (n ∷ ns) =
    total-won-lost_if (more n nothing) (more nothing n) n (total ns) (won ns) (lost ns) refl refl
      (total-won-lost ns)

-- Trades that lost are worth at least one less than nothing each.
total-lost_if :
    (c : Bool) (n : Amount) (qs : List Amount)
    → more nothing n ≡ c
    → length qs + (total qs).gain ≤ (total qs).loss
    → length (cons_if c n qs) + (total (cons_if c n qs)).gain ≤ (total (cons_if c n qs)).loss
total-lost_if true n qs e h = let k : n.gain < n.loss = ground arith in omega arith
total-lost_if false n qs e h = h

pub total-lost :
    (ns : List Amount) → length (lost ns) + (total (lost ns)).gain ≤ (total (lost ns)).loss
total-lost [] = omega arith
total-lost (n ∷ ns) = total-lost_if (more nothing n) n (lost ns) refl (total-lost ns)

total-won_if :
    (c : Bool) (n : Amount) (qs : List Amount)
    → more n nothing ≡ c
    → length qs + (total qs).loss ≤ (total qs).gain
    → length (cons_if c n qs) + (total (cons_if c n qs)).loss ≤ (total (cons_if c n qs)).gain
total-won_if true n qs e h = let k : n.loss < n.gain = ground arith in omega arith
total-won_if false n qs e h = h

pub total-won : (ns : List Amount) → length (won ns) + (total (won ns)).loss ≤ (total (won ns)).gain
total-won [] = omega arith
total-won (n ∷ ns) = total-won_if (more n nothing) n (won ns) refl (total-won ns)

absolute_if-worth :
    (b : Bool) (a : Amount)
    → more nothing a ≡ b
    → a.gain ≤ a.loss
    → (if b then opposite a else a).gain + a.gain ≡ (if b then opposite a else a).loss + a.loss
absolute_if-worth true a e h = omega arith
absolute_if-worth false a e h = ground arith

-- The total of what was lost, with the sign turned.
pub gross_losses-worth :
    (ns : List Amount)
    → (gross_losses ns).gain + (total (lost ns)).gain
      ≡ (gross_losses ns).loss + (total (lost ns)).loss
gross_losses-worth ns =
    let h = sum_from-total nothing (lost ns) in
    let g = h.0 in
    let l = h.1 in
    let k = total-lost ns in
    let w =
      absolute_if-worth (more nothing (sum_from nothing (lost ns))) (sum_from nothing (lost ns))
        refl (omega arith) in
    omega arith

pub gross_wins-gross_losses :
    (ns : List Amount)
    → (gross_wins ns).gain + (gross_losses ns).loss + (total ns).loss
      ≡ (gross_wins ns).loss + (gross_losses ns).gain + (total ns).gain
gross_wins-gross_losses ns =
    let h = sum_from-total nothing (won ns) in
    let g = h.0 in
    let l = h.1 in let a = gross_losses-worth ns in let b = total-won-lost ns in omega arith

lost-none_if :
    (c : Bool) (n : Amount) (ns qs : List Amount)
    → more nothing n ≡ c
    → (length qs ≡ 0 → All (λ m. m.loss ≤ m.gain) ns)
    → length (cons_if c n qs) ≡ 0
    → All (λ m. m.loss ≤ m.gain) (n ∷ ns)
lost-none_if true n ns qs e f h = absurd (omega arith)
lost-none_if false n ns qs e f h = ((ground arith), f h)

pub lost-none : (ns : List Amount) → length (lost ns) ≡ 0 → All (λ m. m.loss ≤ m.gain) ns
lost-none [] h = tt
lost-none (n ∷ ns) h = lost-none_if (more nothing n) n ns (lost ns) refl (lost-none ns) h

won-none_if :
    (c : Bool) (n : Amount) (ns qs : List Amount)
    → more n nothing ≡ c
    → (length qs ≡ 0 → All (λ m. m.gain ≤ m.loss) ns)
    → length (cons_if c n qs) ≡ 0
    → All (λ m. m.gain ≤ m.loss) (n ∷ ns)
won-none_if true n ns qs e f h = absurd (omega arith)
won-none_if false n ns qs e f h = ((ground arith), f h)

pub won-none : (ns : List Amount) → length (won ns) ≡ 0 → All (λ m. m.gain ≤ m.loss) ns
won-none [] h = tt
won-none (n ∷ ns) h = won-none_if (more n nothing) n ns (won ns) refl (won-none ns) h
