-- ===== src/Strategy/Edit/Aligned.antt =====
-- The invariant between a group's children and its connectors, and what the three operations on
-- them do to the connectors in force.
use polyquantlab.Common.{
  ℕ, zero, suc, ◌-◌, ◌≤◌, ◌<◌, ◌≡◌, refl, sym, ap, ◌⊎◌, inl, inr, List, [], ◌∷◌, ◌++◌, Option, none,
  some, length, last_or, erase_idx, replicate, All, arith, length-append, length-erase_idx, leb,
  true, false,
}
use mathlib.Core.Option
use native.Mathlib.Decide.{dec_lt}
use polyquantlab.Strategy.Tree.{GroupOp, Node, Group}
use polyquantlab.Strategy.Edit.{existing, append_child, remove_child}
use polyquantlab.Strategy.Meaning.{pad, effective}

zero_or_pos : (n : ℕ) → (n ≡ 0) ⊎ (0 < n)
zero_or_pos zero = inl refl
zero_or_pos (suc n) = inr (omega arith)

-- Every connector is the group's own op.
abbrev pub AllSame : GroupOp → List GroupOp → Type 0
AllSame op = All (λ c. c ≡ op)

-- With `n` children: no connectors, or one for each pair, or too few that all repeat the op.
abbrev pub Fits : GroupOp → Option (List GroupOp) → ℕ → Type 0
Fits op none n = Unit {0}
Fits op (some cs) n = (length cs ≡ n - 1) ⊎ ((length cs ≤ n - 1) × AllSame op cs)

abbrev pub Aligned : Group → Type 0
Aligned g = Fits g.op g.connectors (length g.children)

pub pad-nil : (op : GroupOp) (n : ℕ) → pad op [] n ≡ replicate n op
unfolding pad
pad-nil op zero = refl
pad-nil op (suc n) = ap (op ∷◌) (pad-nil op n)

pub pad-AllSame :
    (op : GroupOp) (cs : List GroupOp) (n : ℕ) → AllSame op cs → pad op cs n ≡ replicate n op
unfolding pad
pad-AllSame op cs zero h = refl
pad-AllSame op [] (suc n) h = ap (op ∷◌) (pad-nil op n)
pad-AllSame op (c ∷ cs) (suc n) (e, h) = rw (e, pad-AllSame op cs n h)

pub pad-length : (op : GroupOp) (cs : List GroupOp) {n : ℕ} → length cs ≡ n → pad op cs n ≡ cs
unfolding pad
pad-length op [] {n = zero} e = refl
pad-length op [] {n = suc n} e = absurd (omega arith)
pad-length op (c ∷ cs) {n = zero} e = absurd (omega arith)
pad-length op (c ∷ cs) {n = suc n} e = ap (c ∷◌) (pad-length op cs (omega arith))

-- In an aligned group the connectors in force are the group's own, or its op repeated.
pub effective-cases :
    (g : Group)
    → Aligned g
    → ((length (existing g.connectors) ≡ length g.children - 1)
        × (effective g ≡ existing g.connectors))
      ⊎ ((length (existing g.connectors) ≤ length g.children - 1)
          × AllSame g.op (existing g.connectors)
          × (effective g ≡ replicate (length g.children - 1) g.op))
unfolding effective
effective-cases g a = on_connectors g.connectors a
  where
    n : ℕ
    n = length g.children

    on_connectors :
        (cs : Option (List GroupOp))
        → Fits g.op cs n
        → ((length (existing cs) ≡ n - 1) × (pad g.op (existing cs) (n - 1) ≡ existing cs))
          ⊎ ((length (existing cs) ≤ n - 1)
              × AllSame g.op (existing cs)
              × (pad g.op (existing cs) (n - 1) ≡ replicate (n - 1) g.op))
    on_connectors none f = inr (omega arith, tt, pad-nil g.op _)
    on_connectors (some cs) (inl e) = inl (e, pad-length g.op cs e)
    on_connectors (some cs) (inr (le, same)) = inr (le, same, pad-AllSame g.op cs _ same)

pub last_or-AllSame : (op : GroupOp) (cs : List GroupOp) → AllSame op cs → last_or cs op ≡ op
last_or-AllSame op [] h = refl
last_or-AllSame op (c ∷ cs) (e, h) = rw e (last_or-AllSame op cs h)

pub AllSame-concat :
    (op : GroupOp) (cs : List GroupOp) {c : GroupOp}
    → AllSame op cs
    → c ≡ op
    → AllSame op (cs ++ c ∷ [])
AllSame-concat op [] h e = (e, tt)
AllSame-concat op (d ∷ cs) (k, h) e = (k, AllSame-concat op cs h e)

pub AllSame-erase_idx :
    (op : GroupOp) (cs : List GroupOp) (i : ℕ) → AllSame op cs → AllSame op (erase_idx cs i)
AllSame-erase_idx op [] i h = tt
AllSame-erase_idx op (c ∷ cs) zero h = h.1
AllSame-erase_idx op (c ∷ cs) (suc i) h = (h.0, AllSame-erase_idx op cs i h.1)

pub last_or-replicate : (n : ℕ) (op : GroupOp) → last_or (replicate n op) op ≡ op
last_or-replicate zero op = refl
last_or-replicate (suc n) op = last_or-replicate n op

pub replicate-concat : (n : ℕ) (op : GroupOp) → replicate n op ++ op ∷ [] ≡ replicate (suc n) op
replicate-concat zero op = refl
replicate-concat (suc n) op = ap (op ∷◌) (replicate-concat n op)

pub erase_idx-replicate :
    (n i : ℕ) (op : GroupOp) → i ≤ n → erase_idx (replicate (suc n) op) i ≡ replicate n op
erase_idx-replicate n zero op h = refl
erase_idx-replicate zero (suc i) op h = absurd (omega arith)
erase_idx-replicate (suc n) (suc i) op h = ap (op ∷◌) (erase_idx-replicate n i op (omega arith))

length-erase_idx_le :
    (cs : List GroupOp) (i k : ℕ) → length cs ≤ suc k → i ≤ k → length (erase_idx cs i) ≤ k
length-erase_idx_le [] i k h le = omega arith
length-erase_idx_le (c ∷ cs) zero k h le = omega arith
length-erase_idx_le (c ∷ cs) (suc i) zero h le = absurd (omega arith)
length-erase_idx_le (c ∷ cs) (suc i) (suc k) h le =
    omega (arith, length-erase_idx_le cs i k (omega arith) (omega arith))

pub length-erase_idx_eq :
    (cs : List GroupOp) (i n : ℕ) → length cs ≡ n → i ≤ n - 1 → length (erase_idx cs i) ≡ n - 1
length-erase_idx_eq [] i n e le = omega arith
length-erase_idx_eq (c ∷ cs) i n e le = omega (arith, length-erase_idx (c ∷ cs) i (omega arith))

length-erase_idx_pred :
    (cs : List GroupOp) (i n : ℕ) → length cs ≤ n → i ≤ n - 1 → length (erase_idx cs i) ≤ n - 1
length-erase_idx_pred [] i n h le = omega arith
length-erase_idx_pred (c ∷ cs) i zero h le = absurd (omega arith)
length-erase_idx_pred (c ∷ cs) i (suc n) h le =
    omega (arith, length-erase_idx_le (c ∷ cs) i n (omega arith) (omega arith))

erase_idx_past_end {ℓ} : {A : Type ℓ} (xs : List A) (i : ℕ) → length xs ≤ i → erase_idx xs i ≡ xs
erase_idx_past_end [] i h = refl
erase_idx_past_end (x ∷ xs) zero h = absurd (omega arith)
erase_idx_past_end (x ∷ xs) (suc i) h = ap (x ∷◌) (erase_idx_past_end xs i (omega arith))

-- The two branches of `appendChild`.
module _ (g : Group) (child : Node) where
  pub append_child_first :
      length g.children ≡ 0
      → append_child g child ≡ record g { children = g.children ++ child ∷ [] }
  unfolding append_child
  append_child_first e =
      let t : leb (length (g.children ++ child ∷ [])) 1 ≡ true =
        ground (arith, length-append g.children (child ∷ [])) in
      rw t

  pub append_child_more :
      0 < length g.children
      → append_child g child ≡ record g {
        children = g.children ++ child ∷ [];
        connectors = some (existing g.connectors ++ last_or (existing g.connectors) g.op ∷ []);
      }
  unfolding append_child
  append_child_more h =
      let t : leb (length (g.children ++ child ∷ [])) 1 ≡ false =
        ground (arith, length-append g.children (child ∷ [])) in
      rw t

  Fits-concat :
      Aligned g
      → 0 < length g.children
      → Fits g.op
          (some (existing g.connectors ++ last_or (existing g.connectors) g.op ∷ []))
          (length (g.children ++ child ∷ []))
  Fits-concat a h = elim (effective-cases g a) [
    | inl (e, _) ↦ inl (
        omega (
          arith,
          length-append g.children (child ∷ []),
          length-append (existing g.connectors) (last_or (existing g.connectors) g.op ∷ []),
        ))
    | inr (le, same, _) ↦ inr (
      omega (
        arith,
        length-append g.children (child ∷ []),
        length-append (existing g.connectors) (last_or (existing g.connectors) g.op ∷ []),
      ),
      AllSame-concat g.op (existing g.connectors) same (last_or-AllSame g.op _ same),
    )
  ]

  Fits-first : (cs : Option (List GroupOp)) → Fits g.op cs 0 → Fits g.op cs 1
  Fits-first none f = tt
  Fits-first (some cs) (inl e) = inl (omega arith)
  Fits-first (some cs) (inr (le, same)) = inr (omega arith, same)

  -- Appending a child keeps the group aligned.
  pub append_child-Aligned : Aligned g → Aligned (append_child g child)
  append_child-Aligned a = elim (zero_or_pos (length g.children)) [
    | inl e ↦ rw (append_child_first e, length-append, e) (Fits-first g.connectors (rw e at a))
    | inr h ↦ rw (append_child_more h) (Fits-concat a h)
  ]

module _ (i : ℕ) (g : Group) where
  Fits-erase :
      (cs : Option (List GroupOp)) (n : ℕ)
      → i < suc n
      → Fits g.op cs (suc n)
      → Fits g.op (Option.map (λ ds. erase_idx ds (i - 1)) cs) n
  Fits-erase none n lt f = tt
  Fits-erase (some cs) n lt (inl e) =
      inl (length-erase_idx_eq cs (i - 1) n (omega arith) (omega arith))
  Fits-erase (some cs) n lt (inr (le, same)) = inr (
    length-erase_idx_pred cs (i - 1) n (omega arith) (omega arith),
    AllSame-erase_idx g.op cs (i - 1) same,
  )

  pub length-remove :
      i < length g.children → length g.children ≡ suc (length (erase_idx g.children i))
  length-remove lt = sym (length-erase_idx g.children i lt)

  Fits-erase_past :
      (cs : Option (List GroupOp)) (n : ℕ)
      → n ≤ i
      → Fits g.op cs n
      → Fits g.op (Option.map (λ ds. erase_idx ds (i - 1)) cs) n
  Fits-erase_past none n le f = tt
  Fits-erase_past (some cs) n le (inl e) = rw (erase_idx_past_end cs (i - 1) (omega arith)) (inl e)
  Fits-erase_past (some cs) n le (inr f) = rw (erase_idx_past_end cs (i - 1) (omega arith)) (inr f)

  -- Removing a child keeps the group aligned; past the last child nothing is removed.
  pub remove_child-Aligned : Aligned g → Aligned (remove_child i g)
  unfolding remove_child
  remove_child-Aligned a = elim (dec_lt i (length g.children)) [
    | yes lt ↦
        Fits-erase g.connectors (length (erase_idx g.children i)) (omega (arith, length-remove lt))
          (rw (length-remove lt) at a)
    | no ge ↦
        rw (erase_idx_past_end g.children i (omega arith))
          (Fits-erase_past g.connectors (length g.children) (omega arith) a)
  ]
