-- ===== src/Strategy/Tree/Paths.antt =====
-- What `mutateAt` changes and what it leaves: the laws of an update at a path.
use polyquantlab.Common.{
  ℕ, zero, suc, ◌≡◌, refl, ◌≢◌, ◌⊎◌, inl, inr, List, [], ◌∷◌, Option, none, some, ap, get_elem?,
  set, true, String, Option-cases,
}
use mathlib.Core.Option
use native.Mathlib.Decide.{ℕ_discrete}
use polyquantlab.Strategy.Tree.{
  Node, leaf, group, Nodes, Group, to_node, to_list, from_list, Edited, changed, put_child, go,
  mutate_at, new_root, GroupOp, is_group,
}
use polyquantlab.Strategy.Tree.Children.{to_list-from_list, from_list-to_list}

-- The node at a path, if the path leads to one.
unfoldable pub node_at : List ℕ → Node → Option Node
node_at [] node = some node
node_at (i ∷ path) (leaf c) = none
node_at (i ∷ path) (group id op ns cs) = elim (get_elem? (to_list ns) i) [
  | none ↦ none
  | some child ↦ node_at path child
]

-- The tree with another node at a path, and nothing else changed.
unfoldable pub replace : List ℕ → Node → Node → Node
replace [] new node = new
replace (i ∷ path) new (leaf c) = leaf c
replace (i ∷ path) new (group id op ns cs) = elim (get_elem? (to_list ns) i) [
  | none ↦ group id op ns cs
  | some child ↦ group id op (from_list (set (to_list ns) i (replace path new child))) cs
]

-- The paths part before either ends.
abbrev pub Diverge : List ℕ → List ℕ → Type 0
Diverge [] q = ⊥
Diverge (i ∷ p) [] = ⊥
Diverge (i ∷ p) (j ∷ q) = (i ≢ j) ⊎ Diverge p q

module _ {ℓ} {A : Type ℓ} where
  pub get_elem?-set_self :
      (xs : List A) (i : ℕ) (v : A) {x : A}
      → get_elem? xs i ≡ some x
      → get_elem? (set xs i v) i ≡ some v
  get_elem?-set_self [] i v h = cc
  get_elem?-set_self (x ∷ xs) zero v h = refl
  get_elem?-set_self (x ∷ xs) (suc i) v h = get_elem?-set_self xs i v h

  pub get_elem?-set_ne :
      (xs : List A) {i j : ℕ} (v : A) → i ≢ j → get_elem? (set xs i v) j ≡ get_elem? xs j
  get_elem?-set_ne [] v h = refl
  get_elem?-set_ne (x ∷ xs) {i = zero} {j = zero} v h = absurd (h refl)
  get_elem?-set_ne (x ∷ xs) {i = zero} {j = suc j} v h = refl
  get_elem?-set_ne (x ∷ xs) {i = suc i} {j = zero} v h = refl
  get_elem?-set_ne (x ∷ xs) {i = suc i} {j = suc j} v h = get_elem?-set_ne xs v (λ e. h (ap suc e))

-- One step down a path that leads to a node.
pub node_at-cons :
    (i : ℕ) (path : List ℕ) (id : String) (op : GroupOp) (ns : Nodes) (cs : Option (List GroupOp))
    {n : Node}
    → node_at (i ∷ path) (group id op ns cs) ≡ some n
    → (child : Node) × (get_elem? (to_list ns) i ≡ some child) × (node_at path child ≡ some n)
unfolding node_at
node_at-cons i path id op ns cs h = elim (Option-cases (get_elem? (to_list ns) i)) [
  | inl e ↦ absurd (Option.none-ne-some _ (rw (e, node_at) at h))
  | inr (child, e) ↦ (child, e, rw (e, node_at) at h)
]

module _ (i : ℕ) (path : List ℕ) (id : String) (op : GroupOp) (ns : Nodes)
    (cs : Option (List GroupOp)) {child : Node}
    (found : get_elem? (to_list ns) i ≡ some child) where
  node_at-group : node_at (i ∷ path) (group id op ns cs) ≡ node_at path child
  unfolding node_at
  node_at-group = rw (found, node_at)

  replace-group :
      (new : Node)
      → replace (i ∷ path) new (group id op ns cs)
        ≡ group id op (from_list (set (to_list ns) i (replace path new child))) cs
  unfolding replace
  replace-group new = rw (found, replace)

  pub go-group :
      (fn : Node → Edited)
      → go (i ∷ path) fn (group id op ns cs)
        ≡ put_child
            (to_list ns)
            i
            (go path fn child)
            (λ ns'. changed (group id op (from_list ns') cs))
  unfolding go
  go-group fn = rw (found, go)

  -- The children of a group in which a path has been replaced.
  node_at-set :
      (q : List ℕ) (new : Node)
      → node_at (i ∷ q) (group id op (from_list (set (to_list ns) i new)) cs) ≡ node_at q new
  unfolding node_at
  node_at-set q new =
      rw (to_list-from_list, node_at) (rw (get_elem?-set_self (to_list ns) i new found, node_at))

pub go-replace :
    (path : List ℕ) (fn : Node → Edited) (node : Node) {n n' : Node}
    → node_at path node ≡ some n
    → fn n ≡ changed n'
    → go path fn node ≡ changed (replace path n' node)
unfolding go node_at replace
go-replace [] fn node h k = rw (Option.some-injective _ _ h) k
go-replace (i ∷ path) fn (leaf c) h k = cc
go-replace (i ∷ path) fn (group id op ns cs) {n' = n'} h k =
    let (child, e, rest) = node_at-cons i path id op ns cs h in
    cc (
      go-group i path id op ns cs e fn,
      replace-group i path id op ns cs e n',
      go-replace path fn child rest k,
    )

pub node_at-replace_self :
    (path : List ℕ) (new node : Node) {n : Node}
    → node_at path node ≡ some n
    → node_at path (replace path new node) ≡ some new
unfolding node_at replace
node_at-replace_self [] new node h = refl
node_at-replace_self (i ∷ path) new (leaf c) h = cc
node_at-replace_self (i ∷ path) new (group id op ns cs) h =
    let (child, e, rest) = node_at-cons i path id op ns cs h in
    rw (replace-group i path id op ns cs e new, node_at-set i path id op ns cs e)
      (node_at-replace_self path new child rest)

-- Whether two child indices are the same.
same_index : (i j : ℕ) → (i ≡ j) ⊎ (i ≢ j)
same_index i j = elim (ℕ_discrete i j) [ yes e ↦ inl e | no n ↦ inr n ]

node_at-set_ne :
    (i j : ℕ) (q : List ℕ) (id : String) (op : GroupOp) (ns : Nodes) (cs : Option (List GroupOp))
    (new : Node)
    → i ≢ j
    → node_at (j ∷ q) (group id op (from_list (set (to_list ns) i new)) cs)
      ≡ node_at (j ∷ q) (group id op ns cs)
unfolding node_at
node_at-set_ne i j q id op ns cs new ne =
    rw (to_list-from_list, node_at) (rw (get_elem?-set_ne (to_list ns) new ne, node_at))

-- A node that no step of the path passes is what it was.
pub node_at-replace-Diverge :
    (path q : List ℕ) (new node : Node)
    → Diverge path q
    → node_at q (replace path new node) ≡ node_at q node
unfolding node_at replace
node_at-replace-Diverge [] q new node d = absurd d
node_at-replace-Diverge (i ∷ path) [] new node d = absurd d
node_at-replace-Diverge (i ∷ path) (j ∷ q) new (leaf c) d = refl
node_at-replace-Diverge (i ∷ path) (j ∷ q) new (group id op ns cs) d =
    elim (Option-cases (get_elem? (to_list ns) i)) [
      | inl e ↦ rw (e, replace)
      | inr (child, e) ↦ rw (replace-group i path id op ns cs e new) (elim (same_index i j) [
        | inr ne ↦ node_at-set_ne i j q id op ns cs _ ne
        | inl eq ↦ rw (← eq) (
            rw (node_at-set i q id op ns cs e, node_at-group i q id op ns cs e)
              (node_at-replace-Diverge path q new child (rest eq d)))
      ])
    ]
  where
    rest : i ≡ j → (i ≢ j) ⊎ Diverge path q → Diverge path q
    rest eq (inl ne) = absurd (ne eq)
    rest eq (inr d') = d'

is_group-replace :
    (path : List ℕ) (new node : Node)
    → (is_group new ≡ true) ⊎ (path ≢ [])
    → is_group node ≡ true
    → is_group (replace path new node) ≡ true
unfolding replace
is_group-replace [] new node (inl h) k = h
is_group-replace [] new node (inr ne) k = absurd (ne refl)
is_group-replace (i ∷ path) new (leaf c) h k = k
is_group-replace (i ∷ path) new (group id op ns cs) h k =
    elim (Option-cases (get_elem? (to_list ns) i)) [
      | inl e ↦ rw (e, replace)
      | inr (child, e) ↦ rw (replace-group i path id op ns cs e new)
    ]

-- A changed root that is a group is the new root.
new_root-group :
    (root : Group) (m : Node)
    → is_group m ≡ true
    → (r : Group) × (new_root root (changed m) ≡ some r) × (to_node r ≡ m)
new_root-group root (leaf c) g = cc
new_root-group root (group id op ns cs) g = (
  record { id = id; op = op; children = to_list ns; connectors = cs },
  refl,
  rw from_list-to_list,
)

-- Where the path leads to a node and the callback changes that node into a group, or the path does
-- not end at the root, `mutateAt` gives a root in which the changed node stands at the path; every
-- node off the path is what it was.
pub mutate_at-node_at :
    (root : Group) (path : List ℕ) (fn : Node → Edited) {n n' : Node}
    → node_at path (to_node root) ≡ some n
    → fn n ≡ changed n'
    → (is_group n' ≡ true) ⊎ (path ≢ [])
    → (root' : Group) × (mutate_at root path fn ≡ some root')
      × (node_at path (to_node root') ≡ some n')
      × ((q : List ℕ) → Diverge path q → node_at q (to_node root') ≡ node_at q (to_node root))
unfolding mutate_at
mutate_at-node_at root path fn {n' = n'} h k grp =
    let (root', e, same) =
      new_root-group root (replace path n' (to_node root))
        (is_group-replace path n' (to_node root) grp refl) in
    (
      root',
      rw (go-replace path fn (to_node root) h k) e,
      rw same (node_at-replace_self path n' (to_node root) h),
      λ q d. rw same (node_at-replace-Diverge path q n' (to_node root) d),
    )
