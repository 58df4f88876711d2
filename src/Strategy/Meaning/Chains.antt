-- ===== src/Strategy/Meaning/Chains.antt =====
-- The reading of a group depends on its connectors in force alone, and grows by one join at a time.
use polyquantlab.Common.{
  suc, ◌-◌, ◌<◌, ◌≡◌, refl, sym, ap, ◌∙◌, Bool, List, [], ◌∷◌, ◌++◌, map, length, last_or, arith,
}
use mathlib.Core.List.{map-append}
use polyquantlab.Strategy.Tree.{Condition, GroupOp, Node, Group, to_node, from_list}
use polyquantlab.Strategy.Edit.{existing, append_child}
use polyquantlab.Strategy.Meaning.{apply_join, joins, chain, meaning, values, pad, effective}
use polyquantlab.Strategy.Edit.Aligned.{Aligned, append_child_more}
use polyquantlab.Strategy.Edit.Effects.{effective-append_child, length-effective}

pub values-from_list :
    (ρ : Condition → Bool) (ns : List Node) → values ρ (from_list ns) ≡ map (meaning ρ) ns
unfolding values
values-from_list ρ [] = refl
values-from_list ρ (n ∷ ns) = ap (meaning ρ n ∷◌) (values-from_list ρ ns)

length-map {ℓ κ} :
    {A : Type ℓ} {B : Type κ} (f : A → B) (xs : List A) → length (map f xs) ≡ length xs
length-map f [] = refl
length-map f (x ∷ xs) = ap suc (length-map f xs)

pub joins-pad :
    (op : GroupOp) (cs : List GroupOp) (acc : Bool) (vs : List Bool)
    → joins op (pad op cs (length vs)) acc vs ≡ joins op cs acc vs
unfolding joins pad
joins-pad op cs acc [] = refl
joins-pad op [] acc (v ∷ vs) = joins-pad op [] (apply_join op acc v) vs
joins-pad op (c ∷ cs) acc (v ∷ vs) = joins-pad op cs (apply_join c acc v) vs

-- One more connector and one more value.
joins-concat :
    (op : GroupOp) (cs : List GroupOp) (c : GroupOp) (acc : Bool) (vs : List Bool) (v : Bool)
    → length cs ≡ length vs
    → joins op (cs ++ c ∷ []) acc (vs ++ v ∷ []) ≡ apply_join c (joins op cs acc vs) v
unfolding joins
joins-concat op [] c acc [] v e = refl
joins-concat op [] c acc (w ∷ vs) v e = absurd (omega arith)
joins-concat op (d ∷ cs) c acc [] v e = absurd (omega arith)
joins-concat op (d ∷ cs) c acc (w ∷ vs) v e =
    joins-concat op cs c (apply_join d acc w) vs v (omega arith)

chain-pad :
    (op : GroupOp) (cs : List GroupOp) (vs : List Bool)
    → chain op (pad op cs (length vs - 1)) vs ≡ chain op cs vs
unfolding chain
chain-pad op cs [] = refl
chain-pad op cs (v ∷ vs) =
    let e : suc (length vs) - 1 ≡ length vs = omega arith in rw e (joins-pad op cs v vs)

-- The group's reading, from the connectors in force.
pub meaning-effective :
    (ρ : Condition → Bool) (g : Group)
    → meaning ρ (to_node g) ≡ chain g.op (effective g) (map (meaning ρ) g.children)
unfolding meaning effective
meaning-effective ρ g =
    ap (chain g.op (existing g.connectors)) (values-from_list ρ g.children)
    ∙ sym (
        rw (← length-map (meaning ρ) g.children)
          (chain-pad g.op (existing g.connectors) (map (meaning ρ) g.children)))

chain-concat :
    (op : GroupOp) (cs : List GroupOp) (c : GroupOp) (vs : List Bool) (v : Bool)
    → length cs ≡ length vs - 1
    → 0 < length vs
    → chain op (cs ++ c ∷ []) (vs ++ v ∷ []) ≡ apply_join c (chain op cs vs) v
unfolding chain
chain-concat op cs c [] v e h = absurd (omega arith)
chain-concat op cs c (w ∷ vs) v e h = joins-concat op cs c w vs v (omega arith)

-- A condition or group that is added to an aligned group with children is joined to all of them
-- by the last connector in force.
pub meaning-append_child :
    (ρ : Condition → Bool) (g : Group) (child : Node)
    → Aligned g
    → 0 < length g.children
    → meaning ρ (to_node (append_child g child))
      ≡ apply_join (last_or (effective g) g.op) (meaning ρ (to_node g)) (meaning ρ child)
meaning-append_child ρ g child a h =
    meaning-effective ρ (append_child g child)
    ∙ rw (effective-append_child g child a h, append_child_more g child h, map-append)
        (rw meaning-effective (
          chain-concat g.op (effective g) (last_or (effective g) g.op) (map (meaning ρ) g.children)
            (meaning ρ child) (length-effective g ∙ rw (length-map (meaning ρ) g.children))
            (rw (length-map (meaning ρ) g.children) h)))
