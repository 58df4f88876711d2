-- ===== src/Strategy/Tree/Children.antt =====
-- The two forms of a list of children.
use polyquantlab.Common.{◌≡◌, refl, ap, List, [], ◌∷◌}
use polyquantlab.Strategy.Tree.{Node, Nodes, nil, cons, to_list, from_list}

pub to_list-from_list : (ns : List Node) → to_list (from_list ns) ≡ ns
to_list-from_list [] = refl
to_list-from_list (n ∷ ns) = ap (n ∷◌) (to_list-from_list ns)

pub from_list-to_list : (ns : Nodes) → from_list (to_list ns) ≡ ns
from_list-to_list nil = refl
from_list-to_list (cons n ns) = ap (cons n) (from_list-to_list ns)
