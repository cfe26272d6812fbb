-- ===== src/SearchTree/Remove.antt =====
-- Removal from the tree of src/containers/binary_search_tree.h. A rotation moves the node that is
-- rebalanced, and the code goes on with its pointer to it: `Turn` says where the node went.
pub mod Order
pub mod Lookup
pub mod Size
mod Tests
use cros_kernel.Base.{
  ℕ, zero, suc, ◌+◌, ◌-◌, Bool, true, false, ltb, if◌then◌else◌, Option, none, some, ℤ, ltb_ℤ,
}
use cros_kernel.SearchTree.{Tree, leaf, node, height, rebalance, SearchTree}

pub data Turn : Type 0 where
  stays to_left to_right : Turn

module _ {V : Type 0} where
  -- the place of the node behind `rebalance`, below where it stood
  abbrev pub turn : Tree V → Turn
  turn leaf = stays
  turn (node l k v h r) =
      if ltb (height r + 1) (height l)
      then to_right
      else if ltb (height l + 1) (height r)
      then to_left
      else stays

  abbrev pub at_turn : Turn → (Tree V → Tree V) → Tree V → Tree V
  at_turn stays f t = f t
  at_turn to_left f leaf = leaf
  at_turn to_left f (node l k v h r) = node (f l) k v h r
  at_turn to_right f leaf = leaf
  at_turn to_right f (node l k v h r) = node l k v h (f r)

  -- `rebalance` of one node so many times, each time where the last one left it
  unfoldable pub rebalance_times : ℕ → Tree V → Tree V
  rebalance_times zero t = t
  rebalance_times (suc n) t = at_turn (turn t) (rebalance_times n) (rebalance t)

  -- `replace` with the successor's chain: the entry of the leftmost node, the tree without that node, and how often
  -- its parent is still to be rebalanced. A node that has a right child is kept, and takes the entry
  -- of that child's leftmost node.
  unfoldable pub pull_min : Tree V → Option ((ℤ × V) × Tree V × ℕ)
  pull_min leaf = none
  pull_min (node l k v h r) = elim (pull_min l) [
    | some (e, l', n) ↦ some (e, rebalance_times n (node l' k v h r), 0)
    | none ↦ elim (pull_min r) [
      | none ↦ some ((k, v), leaf, 2)
      | some (e, r', n) ↦ some ((k, v), rebalance_times n (node l e.0 e.1 h r'), 1)
    ]
  ]

  unfoldable pub pull_max : Tree V → Option ((ℤ × V) × Tree V × ℕ)
  pull_max leaf = none
  pull_max (node l k v h r) = elim (pull_max r) [
    | some (e, r', n) ↦ some (e, rebalance_times n (node l k v h r'), 0)
    | none ↦ elim (pull_max l) [
      | none ↦ some ((k, v), leaf, 2)
      | some (e, l', n) ↦ some ((k, v), rebalance_times n (node l' e.0 e.1 h r), 1)
    ]
  ]

  -- The found node with the node `a` on its right or `b` on its left that takes its place: without
  -- one it is unlinked, and its parent rebalanced once more.
  abbrev pub replace :
      Tree V
      → ℕ
      → Tree V
      → Option ((ℤ × V) × Tree V × ℕ)
      → Option ((ℤ × V) × Tree V × ℕ)
      → Tree V × ℕ
  replace l h r (some (e, r', n)) b = (rebalance_times (n + 1) (node l e.0 e.1 h r'), 0)
  replace l h r none (some (e, l', n)) = (rebalance_times (n + 1) (node l' e.0 e.1 h r), 0)
  replace l h r none none = (leaf, 1)

  abbrev pub remove_here : Tree V → ℕ → Tree V → Tree V × ℕ
  remove_here l h r = replace l h r (pull_min r) (pull_max l)

  -- `remove_rec`: the tree, how often the call has rebalanced the parent, and whether a node went
  unfoldable pub remove_rec : Tree V → ℤ → Tree V × ℕ × Bool
  remove_rec leaf k = (leaf, 0, false)
  remove_rec (node l j w h r) k =
      let left = remove_rec l k in
      let right = remove_rec r k in
      let here = remove_here l h r in
      if ltb_ℤ k j
      then (rebalance_times (left.1 + 1) (node left.0 j w h r), 0, left.2)
      else if ltb_ℤ j k
      then (rebalance_times (right.1 + 1) (node l j w h right.0), 0, right.2)
      else (here.0, here.1, true)

-- `remove`
unfoldable pub remove : {V : Type 0} → SearchTree V → ℤ → SearchTree V
remove s k =
    let r = remove_rec s.root k in record { root = r.0; size = if r.2 then s.size - 1 else s.size }
