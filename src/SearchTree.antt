-- ===== src/SearchTree.antt =====
-- src/containers/binary_search_tree.h: the balanced search tree that holds a process's files and the
-- kernel's processes. The keys are the C integers `int` and `pid_t`; a node with its children is a
-- value of `Tree`, so a parent pointer is the place where the node stands.
pub mod Order
pub mod Balance
pub mod Search
pub mod Lookup
pub mod Update
pub mod Remove
mod Tests
use cros_kernel.Base.{
  ℕ, zero, suc, ◌+◌, ◌-◌, max, Bool, true, false, not, ◌||◌, ltb, if◌then◌else◌, Option, none, some,
  List, [], ◌∷◌, ◌++◌, ℤ, ltb_ℤ, Run, ok, fault,
}

-- `class node`
pub data Tree (V : Type 0) : Type 0 where
  leaf : Tree V
  node : Tree V → ℤ → V → ℕ → Tree V → Tree V

-- `key != other`
abbrev pub differs : ℤ → ℤ → Bool
differs j k = ltb_ℤ j k || ltb_ℤ k j

module _ {V : Type 0} where
  -- the height that a node stores, 0 for the null pointer
  abbrev pub height : Tree V → ℕ
  height leaf = 0
  height (node l k v h r) = h

  -- `update_height`
  abbrev pub update_height : Tree V → Tree V
  update_height leaf = leaf
  update_height (node l k v h r) = node l k v (1 + max (height l) (height r)) r

  -- `balance() < 0` and `balance() > 0`
  abbrev pub leans_right : Tree V → Bool
  leans_right leaf = false
  leans_right (node l k v h r) = ltb (height l) (height r)

  abbrev pub leans_left : Tree V → Bool
  leans_left leaf = false
  leans_left (node l k v h r) = ltb (height r) (height l)

  -- `rotate_right` and `rotate_left`: `rebalance` calls each with the child that it lifts.
  unfoldable pub rotate_right : Tree V → Tree V
  rotate_right (node (node a j w g b) k v h r) =
      update_height (node a j w g (update_height (node b k v h r)))
  rotate_right t = t

  unfoldable pub rotate_left : Tree V → Tree V
  rotate_left (node l k v h (node b j w g c)) =
      update_height (node (update_height (node l k v h b)) j w g c)
  rotate_left t = t

  -- `rebalance` behind its `update_height`
  unfoldable pub rebalance_node : Tree V → ℤ → V → ℕ → Tree V → Tree V
  rebalance_node l k v h r =
      if ltb (height r + 1) (height l)
      then rotate_right (node (if leans_right l then rotate_left l else l) k v h r)
      else if ltb (height l + 1) (height r)
      then rotate_left (node l k v h (if leans_left r then rotate_right r else r))
      else node l k v h r

  unfoldable pub rebalance : Tree V → Tree V
  unfolding rebalance_node
  rebalance leaf = leaf
  rebalance (node l k v h r) = rebalance_node l k v (1 + max (height l) (height r)) r

  -- `add_rec`. A key that is there already goes to the right: `node_added` is still false on the
  -- way down.
  pub add_rec : Tree V → ℤ → V → Tree V
  add_rec leaf k v = node leaf k v 1 leaf
  add_rec (node l j w h r) k v =
      let to_left = rebalance (node (add_rec l k v) j w h r) in
      let to_right = rebalance (node l j w h (add_rec r k v)) in
      if ltb_ℤ k j then to_left else to_right

  -- the node that the walk below found, or the one that it stopped at
  abbrev pub or_here : Option (ℤ × V) → ℤ → V → Option (ℤ × V)
  or_here none j w = some (j, w)
  or_here (some e) j w = some e

  -- `search_rec`: the node of the key, or the last one on the way to it
  unfoldable pub search_rec : Tree V → ℤ → Option (ℤ × V)
  search_rec leaf k = none
  search_rec (node l j w h r) k =
      let to_left = or_here (search_rec l k) j w in
      let to_right = or_here (search_rec r k) j w in
      if ltb_ℤ k j then to_left else (if ltb_ℤ j k then to_right else some (j, w))

  -- `contains`
  unfoldable pub contains : Tree V → ℤ → Bool
  contains t k = elim (search_rec t k) [ none ↦ false | some (j, w) ↦ not (differs j k) ]

  -- `root->value`, a read through the null pointer on an empty tree
  abbrev pub root_value : Tree V → Run V
  root_value leaf = fault
  root_value (node l k v h r) = ok v

  -- `get`: without the key, the value of the root
  unfoldable pub get : Tree V → ℤ → Run V
  get t k = elim (search_rec t k) [
    | none ↦ root_value t
    | some (j, w) ↦ if differs j k then root_value t else ok w
  ]

  -- `peek_min` and `peek_max`
  pub min_from : ℤ → V → Tree V → ℤ × V
  min_from k v leaf = (k, v)
  min_from k v (node l j w h r) = min_from j w l

  pub max_from : ℤ → V → Tree V → ℤ × V
  max_from k v leaf = (k, v)
  max_from k v (node l j w h r) = max_from j w r

  pub peek_min : Tree V → Run (ℤ × V)
  peek_min leaf = fault
  peek_min (node l k v h r) = ok (min_from k v l)

  pub peek_max : Tree V → Run (ℤ × V)
  peek_max leaf = fault
  peek_max (node l k v h r) = ok (max_from k v r)

-- `class binary_search_tree`
pub record SearchTree (V : Type 0) : Type 0 where
  pub root : Tree V
  pub size : ℕ

abbrev pub new_tree : {V : Type 0} → SearchTree V
new_tree = record { root = leaf; size = 0 }

-- `insert`, which always adds a node
abbrev pub insert : {V : Type 0} → SearchTree V → ℤ → V → SearchTree V
insert s k v = record { root = add_rec s.root k v; size = s.size + 1 }
