-- ===== src/SearchTree/Remove/Tests.antt =====
-- Runs of the removal of src/containers/binary_search_tree.h on small trees.
use cros_kernel.Base.{ℕ, ◌≡◌, refl, none, if◌then◌else◌, arith, ℤ, pos}
use cros_kernel.SearchTree.{
  differs, Tree, leaf, node, rebalance, rebalance_node, rotate_left, rotate_right, SearchTree,
  insert,
}
use cros_kernel.SearchTree.Order.{inorder}
use cros_kernel.SearchTree.Balance.{IsBalanced}
use cros_kernel.SearchTree.Lookup.{IsStrict, lookup}
use cros_kernel.SearchTree.Remove.{rebalance_times, pull_min, pull_max, remove_rec, remove}
use cros_kernel.SearchTree.Remove.Lookup.{remove_rec-lookup}
use cros_kernel.SearchTree.Remove.Size.{IsCounted, insert-remove-IsCounted}

abbrev one : ℕ → Tree ℕ
one k = node leaf (pos k) k 1 leaf

abbrev small : Tree ℕ
small = node (one 2) (pos 4) 4 3 (node (one 6) (pos 7) 7 2 leaf)

small-remove_rec : (remove_rec small (pos 4)).0 ≡ node (one 2) (pos 6) 6 2 (one 7)
unfolding remove_rec pull_min pull_max rebalance_times rebalance rebalance_node
small-remove_rec = refl

small-remove_left : (remove_rec small (pos 2)).0 ≡ node (one 4) (pos 6) 6 2 (one 7)
unfolding remove_rec pull_min pull_max rebalance_times rebalance rebalance_node rotate_left
    rotate_right
small-remove_left = refl

small-IsStrict : IsStrict (inorder small)
small-IsStrict = ((refl, (refl, (refl, tt))), ((refl, (refl, tt)), ((refl, tt), (tt, tt))))

-- a balanced tree of height 5, in which the successor of the root stands two levels below its right
-- child
abbrev far : Tree ℕ
far = node (node (node (one 1) (pos 2) 2 2 leaf) (pos 3) 3 3 (one 4)) (pos 5) 5 5 (
    node (node (one 6) (pos 7) 7 2 leaf) (pos 8) 8 4
      (node (one 9) (pos 10) 10 3 (node leaf (pos 11) 11 2 (one 12))))

one-IsBalanced : (k : ℕ) → IsBalanced (one k)
one-IsBalanced k = (refl, omega arith, omega arith, tt, tt)

far-IsBalanced : IsBalanced far
far-IsBalanced = (
  refl,
  omega arith,
  omega arith,
  (
    refl,
    omega arith,
    omega arith,
    (refl, omega arith, omega arith, one-IsBalanced 1, tt),
    one-IsBalanced 4,
  ),
  (
    refl,
    omega arith,
    omega arith,
    (refl, omega arith, omega arith, one-IsBalanced 6, tt),
    (
      refl,
      omega arith,
      omega arith,
      one-IsBalanced 9,
      (refl, omega arith, omega arith, tt, one-IsBalanced 12),
    ),
  ),
)

far-remove : ¬ IsBalanced (remove_rec far (pos 5)).0
unfolding remove_rec pull_min pull_max rebalance_times rebalance rebalance_node
far-remove b = omega (arith, b.4.2)

remove_rec-lookup_example :
    IsStrict (inorder (remove_rec small (pos 4)).0)
    × ((j : ℤ)
        → lookup j (inorder (remove_rec small (pos 4)).0)
          ≡ (if differs (pos 4) j then lookup j (inorder small) else none))
remove_rec-lookup_example = remove_rec-lookup small (pos 4) small-IsStrict

abbrev tree : SearchTree ℕ
tree = record { root = small; size = 4 }

insert-remove-IsCounted_example :
    IsCounted (insert tree (pos 6) 60) × IsCounted (remove tree (pos 6))
insert-remove-IsCounted_example = insert-remove-IsCounted tree (pos 6) 60 refl
