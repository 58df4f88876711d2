-- ===== src/Strategy/Edit/Sound.antt =====
-- The invariant of a condition tree, and that a tree operation keeps it.
use polyquantlab.Common.{
  ℕ, ◌≡◌, List, [], ◌∷◌, ◌++◌, Option, none, some, length, get_elem?, All, length-set, All-concat,
  All-set, All-erase_idx, All-get_elem?, String, Option-cases, inl, inr, arith,
}
use polyquantlab.Strategy.Params.{token_price, yes_side}
use polyquantlab.Strategy.Tree.{
  GroupOp, and_op, Node, leaf, group, Nodes, nil, cons, Group, to_node, to_list, from_list, Edited,
  throws, removed, changed, put_child, go, new_root, mutate_at, new_condition, new_group,
}
use polyquantlab.Strategy.Tree.Children.{to_list-from_list, from_list-to_list}
use polyquantlab.Strategy.Tree.Paths.{go-group}
use polyquantlab.Strategy.Edit.{
  append_child, on_group, on_leaf, add_cond, add_group, remove_child, split_last, remove_node,
  toggle_at, toggle_connector, Patch, patch_leaf, patch_cond,
}
use polyquantlab.Strategy.Edit.Aligned.{Fits, Aligned, append_child-Aligned, remove_child-Aligned}
use polyquantlab.Strategy.Edit.Effects.{toggle_at-Aligned}
use polyquantlab.Strategy.Edit.Leaves.{HasValidOp, new_condition-HasValidOp, patch_leaf-HasValidOp}

-- Every condition has a valid operator, and every group is aligned.
abbrev mutual
  pub IsSound : Node → Type 0
  IsSound (leaf c) = HasValidOp c
  IsSound (group id op ns cs) = Fits op cs (length (to_list ns)) × AreSound ns

  pub AreSound : Nodes → Type 0
  AreSound nil = Unit {0}
  AreSound (cons n ns) = IsSound n × AreSound ns

pub AreSound-to_list : (ns : Nodes) → AreSound ns → All IsSound (to_list ns)
AreSound-to_list nil h = tt
AreSound-to_list (cons n ns) (h, hs) = (h, AreSound-to_list ns hs)

pub AreSound-from_list : (ns : List Node) → All IsSound ns → AreSound (from_list ns)
AreSound-from_list [] h = tt
AreSound-from_list (n ∷ ns) (h, hs) = (h, AreSound-from_list ns hs)

-- An edit that throws, or that gives a sound node; no callback of the builder gives `null`.
abbrev pub SoundEdit : Edited → Type 0
SoundEdit throws = Unit {0}
SoundEdit removed = ⊥
SoundEdit (changed n) = IsSound n

put_child-SoundEdit :
    (id : String) (op : GroupOp) (ns : Nodes) (cs : Option (List GroupOp)) (i : ℕ) (e : Edited)
    → IsSound (group id op ns cs)
    → SoundEdit e
    → SoundEdit (put_child (to_list ns) i e (λ ns'. changed (group id op (from_list ns') cs)))
put_child-SoundEdit id op ns cs i throws h k = tt
put_child-SoundEdit id op ns cs i removed h k = absurd k
put_child-SoundEdit id op ns cs i (changed n) (fits, hs) k = (
  rw (to_list-from_list, length-set) fits,
  AreSound-from_list _ (All-set IsSound (to_list ns) i (AreSound-to_list ns hs) k),
)

go-SoundEdit :
    (path : List ℕ) (fn : Node → Edited) (node : Node)
    → ((n : Node) → IsSound n → SoundEdit (fn n))
    → IsSound node
    → SoundEdit (go path fn node)
unfolding go
go-SoundEdit [] fn node keeps h = keeps node h
go-SoundEdit (i ∷ path) fn (leaf c) keeps h = h
go-SoundEdit (i ∷ path) fn (group id op ns cs) keeps h =
    elim (Option-cases (get_elem? (to_list ns) i)) [
      | inl e ↦ rw (e, go) tt
      | inr (child, e) ↦ rw (go-group i path id op ns cs e fn) (
          put_child-SoundEdit id op ns cs i (go path fn child) h (
            go-SoundEdit path fn child keeps
              (All-get_elem? IsSound (to_list ns) i (AreSound-to_list ns h.1) e)))
    ]

-- The sections that a result may be: none after an exception, else a sound tree.
abbrev pub SoundRoot : Option Group → Type 0
SoundRoot none = Unit {0}
SoundRoot (some g) = IsSound (to_node g)

new_root-SoundRoot :
    (root : Group) (e : Edited) → IsSound (to_node root) → SoundEdit e → SoundRoot (new_root root e)
new_root-SoundRoot root throws h k = tt
new_root-SoundRoot root removed h k = h
new_root-SoundRoot root (changed (leaf c)) h k = h
new_root-SoundRoot root (changed (group id op ns cs)) h k = rw from_list-to_list k

pub mutate_at-SoundRoot :
    (root : Group) (path : List ℕ) (fn : Node → Edited)
    → ((n : Node) → IsSound n → SoundEdit (fn n))
    → IsSound (to_node root)
    → SoundRoot (mutate_at root path fn)
unfolding mutate_at
mutate_at-SoundRoot root path fn keeps h =
    new_root-SoundRoot root _ h (go-SoundEdit path fn (to_node root) keeps h)

-- A change of groups that keeps them aligned and their children sound keeps a tree sound.
module _ (f : Group → Group) (aligned : (g : Group) → Aligned g → Aligned (f g))
    (children : (g : Group) → All IsSound g.children → All IsSound (f g).children) where
  pub on_group-SoundEdit : (n : Node) → IsSound n → SoundEdit (on_group f n)
  on_group-SoundEdit (leaf c) h = h
  on_group-SoundEdit (group id op ns cs) (fits, hs) =
      let g : Group = record { id = id; op = op; children = to_list ns; connectors = cs } in
      (
        rw to_list-from_list (aligned g fits),
        AreSound-from_list _ (children g (AreSound-to_list ns hs)),
      )

append_child-children :
    (g : Group) (child : Node) → (append_child g child).children ≡ g.children ++ child ∷ []
unfolding append_child
append_child-children g child = ground arith

append_child-SoundEdit :
    (child : Node)
    → IsSound child
    → (n : Node) → IsSound n
    → SoundEdit (on_group (λ g. append_child g child) n)
append_child-SoundEdit child k =
    on_group-SoundEdit (λ g. append_child g child) (λ g a. append_child-Aligned g child a)
      (λ g h. rw append_child-children (All-concat IsSound g.children h k))

toggle_at-children : (i : ℕ) (g : Group) → (toggle_at i g).children ≡ g.children
unfolding toggle_at
toggle_at-children i g = ground arith

module _ (root : Group) (sound : IsSound (to_node root)) where
  pub add_cond-SoundRoot : (id : String) (path : List ℕ) → SoundRoot (add_cond id root path)
  unfolding add_cond
  add_cond-SoundRoot id path =
      mutate_at-SoundRoot root path _
        (append_child-SoundEdit (leaf (new_condition id token_price yes_side))
          (new_condition-HasValidOp id token_price yes_side))
        sound

  pub add_group-SoundRoot : (id : String) (path : List ℕ) → SoundRoot (add_group id root path)
  unfolding add_group
  add_group-SoundRoot id path =
      mutate_at-SoundRoot root path _
        (append_child-SoundEdit (to_node (new_group id and_op)) (tt, tt)) sound

  pub remove_node-SoundRoot : (path : List ℕ) → SoundRoot (remove_node root path)
  unfolding remove_node
  remove_node-SoundRoot path = on_split (split_last path)
    where
      on_split :
          (o : Option (List ℕ × ℕ))
          → SoundRoot (elim o [
            | none ↦ some root
            | some (parent, i) ↦ mutate_at root parent (on_group (remove_child i))
          ])
      on_split none = sound
      on_split (some (parent, i)) =
          mutate_at-SoundRoot root parent _
            (on_group-SoundEdit (remove_child i) (remove_child-Aligned i)
              (λ g h. unfold remove_child in All-erase_idx IsSound g.children i h))
            sound

  pub toggle_connector-SoundRoot :
      (path : List ℕ) (i : ℕ) → SoundRoot (toggle_connector root path i)
  unfolding toggle_connector
  toggle_connector-SoundRoot path i =
      mutate_at-SoundRoot root path _
        (on_group-SoundEdit (toggle_at i) (toggle_at-Aligned i) (λ g h. rw toggle_at-children h))
        sound

  pub patch_cond-SoundRoot : (p : Patch) (path : List ℕ) → SoundRoot (patch_cond p root path)
  unfolding patch_cond
  patch_cond-SoundRoot p path = mutate_at-SoundRoot root path _ keeps sound
    where
      keeps : (n : Node) → IsSound n → SoundEdit (on_leaf (patch_leaf p) n)
      keeps (leaf c) h = patch_leaf-HasValidOp p c
      keeps (group id op ns cs) h = h
