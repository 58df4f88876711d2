-- ===== src/Strategy/Edit/Effects.antt =====
-- What appending, removing and toggling do to the connectors in force in an aligned group.
use polyquantlab.Common.{
  ℕ, zero, suc, ◌-◌, ◌≤◌, ◌<◌, ◌≡◌, refl, sym, ap, ◌∙◌, inl, inr, false, List, [], ◌∷◌, ◌++◌,
  Option, none, some, length, get_or, last_or, set, erase_idx, replicate, arith, length-append,
  length-set, ltb, Bool-cases, ◌==◌, ==_iff,
}
use mathlib.Core.Option
use polyquantlab.Strategy.Tree.{GroupOp, and_op, or_op, Node, Group}
use polyquantlab.Strategy.Edit.{
  existing, append_child, remove_child, flip, base_connectors, toggle_at,
}
use polyquantlab.Strategy.Meaning.{pad, effective}
use polyquantlab.Strategy.Edit.Aligned.{
  Fits, Aligned, pad-nil, pad-length, pad-AllSame, effective-cases, append_child_more,
  last_or-replicate, replicate-concat, erase_idx-replicate, AllSame-concat, last_or-AllSame,
  AllSame-erase_idx, length-erase_idx_eq, length-remove,
}

effective_lem : (g : Group) → effective g ≡ pad g.op (existing g.connectors) (length g.children - 1)
unfolding effective
effective_lem g = refl

-- One connector more than the connectors in force.
pad-concat :
    (g : Group)
    → Aligned g
    → pad g.op
        (existing g.connectors ++ last_or (existing g.connectors) g.op ∷ [])
        (suc (length g.children - 1))
      ≡ effective g ++ last_or (effective g) g.op ∷ []
pad-concat g a =
    let cs : List GroupOp = existing g.connectors in
    let n : ℕ = length g.children - 1 in
    elim (effective-cases g a) [
      | inl (e, eff) ↦ rw eff (
          pad-length g.op (cs ++ last_or cs g.op ∷ [])
            (omega (arith, length-append cs (last_or cs g.op ∷ []))))
      | inr (le, same, eff) ↦
          rw (eff, last_or-replicate, replicate-concat)
            (pad-AllSame g.op (cs ++ last_or cs g.op ∷ []) (suc n)
              (AllSame-concat g.op cs same (last_or-AllSame g.op cs same)))
    ]

-- The new pair gets the connector of the last pair, or the op if it is the first; the connectors
-- in force between the old children are what they were.
pub effective-append_child :
    (g : Group) (child : Node)
    → Aligned g
    → 0 < length g.children
    → effective (append_child g child) ≡ effective g ++ last_or (effective g) g.op ∷ []
effective-append_child g child a h =
    let pairs : length (g.children ++ child ∷ []) - 1 ≡ suc (length g.children - 1) =
      omega (arith, length-append g.children (child ∷ [])) in
    rw (append_child_more g child h, effective_lem, pairs) (pad-concat g a)

existing-map :
    (cs : Option (List GroupOp)) (j : ℕ)
    → existing (Option.map (λ ds. erase_idx ds j) cs) ≡ erase_idx (existing cs) j
existing-map none j = refl
existing-map (some cs) j = refl

erase_idx-replicate_pred :
    (m i : ℕ) (op : GroupOp) → i ≤ m - 1 → erase_idx (replicate m op) i ≡ replicate (m - 1) op
erase_idx-replicate_pred zero i op h = refl
erase_idx-replicate_pred (suc m) i op h =
    let e : suc m - 1 ≡ m = omega arith in rw e (erase_idx-replicate m i op (omega arith))

-- Removing a child takes out the connector before it, or the first one if the child is the first.
pub effective-remove_child :
    (i : ℕ) (g : Group)
    → Aligned g
    → i < length g.children
    → effective (remove_child i g) ≡ erase_idx (effective g) (i - 1)
unfolding remove_child
effective-remove_child i g a lt =
    let n : ℕ = length g.children - 1 in
    let fewer : length (erase_idx g.children i) ≡ n = omega (arith, length-remove i g lt) in
    let within : i - 1 ≤ n - 1 = omega arith in
    rw (effective_lem, existing-map g.connectors (i - 1), fewer)
      (elim (effective-cases g a) [
        | inl (e, eff) ↦ rw eff (
            pad-length g.op (erase_idx (existing g.connectors) (i - 1))
              (length-erase_idx_eq (existing g.connectors) (i - 1) n e within))
        | inr (le, same, eff) ↦
            rw (eff, erase_idx-replicate_pred n (i - 1) g.op within)
              (pad-AllSame g.op (erase_idx (existing g.connectors) (i - 1)) (n - 1)
                (AllSame-erase_idx g.op (existing g.connectors) (i - 1) same))
      ])

-- The array that `toggleConnector` starts from holds the connectors in force.
base_connectors-effective : (g : Group) → Aligned g → base_connectors g ≡ effective g
unfolding base_connectors
base_connectors-effective g a = rw effective_lem (on_connectors g.connectors a)
  where
    n : ℕ
    n = length g.children - 1

    on_connectors :
        (cs : Option (List GroupOp))
        → Fits g.op cs (length g.children)
        → base_connectors (record g { connectors = cs }) ≡ pad g.op (existing cs) n
    on_connectors none f = sym (pad-nil g.op n)
    on_connectors (some cs) f = elim (Bool-cases (length cs == n)) [
      | inl e ↦ rw e (sym (pad-length g.op cs ((==_iff _ _).0 e)))
      | inr ne ↦ rw ne (sym (short ne f))
    ]
      where
        short :
            (length cs == n) ≡ false
            → Fits g.op (some cs) (length g.children)
            → pad g.op cs n ≡ replicate n g.op
        short ne (inl e) = absurd (ground arith)
        short ne (inr (_, same)) = pad-AllSame g.op cs n same

length-pad : (op : GroupOp) (cs : List GroupOp) (n : ℕ) → length (pad op cs n) ≡ n
unfolding pad
length-pad op cs zero = refl
length-pad op [] (suc n) = ap suc (length-pad op [] n)
length-pad op (c ∷ cs) (suc n) = ap suc (length-pad op cs n)

-- There is one connector in force for each pair of neighbours.
pub length-effective : (g : Group) → length (effective g) ≡ length g.children - 1
unfolding effective
length-effective g = length-pad g.op (existing g.connectors) (length g.children - 1)

set_past_end {ℓ} :
    {A : Type ℓ} (xs : List A) (i : ℕ) (v : A) → ltb i (length xs) ≡ false → set xs i v ≡ xs
set_past_end [] i v h = refl
set_past_end (x ∷ xs) zero v h = absurd (ground arith)
set_past_end (x ∷ xs) (suc i) v h = ap (x ∷◌) (set_past_end xs i v (ground arith))

pub toggle_at-Aligned : (i : ℕ) (g : Group) → Aligned g → Aligned (toggle_at i g)
unfolding toggle_at
toggle_at-Aligned i g a = elim (Bool-cases (ltb i (length (base_connectors g)))) [
  | inl e ↦ rw e (inl (rw (length-set, base_connectors-effective g a) (length-effective g)))
  | inr e ↦ rw e a
]

-- A toggle flips the one connector in force at the index, and changes nothing past the last pair.
pub effective-toggle_at :
    (i : ℕ) (g : Group)
    → Aligned g
    → effective (toggle_at i g) ≡ set (effective g) i (flip (get_or (effective g) i g.op))
unfolding toggle_at
effective-toggle_at i g a = elim (Bool-cases (ltb i (length (base_connectors g)))) [
  | inl e ↦ rw e (
      rw (effective_lem (record g { connectors = some _ }), base_connectors-effective g a)
        (pad-length g.op _ (length-set (effective g) i _ ∙ length-effective g)))
  | inr e ↦ rw e (sym (set_past_end (effective g) i _ (rw (base_connectors-effective g a) at e)))
]

flip-flip : (c : GroupOp) → flip (flip c) ≡ c
flip-flip and_op = refl
flip-flip or_op = refl

set-set-flip :
    (cs : List GroupOp) (i : ℕ) (d : GroupOp)
    → let once = set cs i (flip (get_or cs i d)) in set once i (flip (get_or once i d)) ≡ cs
set-set-flip [] i d = refl
set-set-flip (c ∷ cs) zero d = rw flip-flip
set-set-flip (c ∷ cs) (suc i) d = ap (c ∷◌) (set-set-flip cs i d)

toggle_at-op : (i : ℕ) (g : Group) → (toggle_at i g).op ≡ g.op
unfolding toggle_at
toggle_at-op i g = ground arith

-- Toggling the same connector twice gives back the connectors in force.
pub effective-toggle_at_twice :
    (i : ℕ) (g : Group) → Aligned g → effective (toggle_at i (toggle_at i g)) ≡ effective g
effective-toggle_at_twice i g a =
    effective-toggle_at i (toggle_at i g) (toggle_at-Aligned i g a)
    ∙ rw (effective-toggle_at i g a, toggle_at-op i g) (set-set-flip (effective g) i g.op)
