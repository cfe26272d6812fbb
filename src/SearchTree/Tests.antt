-- ===== src/SearchTree/Tests.antt =====
-- Runs of src/containers/binary_search_tree.h on small trees.
use cros_kernel.Base.{ℕ, ◌+◌, ◌≤◌, ◌≡◌, refl, some, true, [], ◌∷◌, arith, pos, negsuc, ok, fault}
use cros_kernel.SearchTree.{
  Tree, leaf, node, height, rebalance, rebalance_node, rotate_left, rotate_right, add_rec,
  search_rec, contains, get, peek_min, peek_max, min_from, max_from, new_tree,
}
use cros_kernel.SearchTree.Order.{inorder, IsSorted, inorder-add_rec}
use cros_kernel.SearchTree.Balance.{IsBalanced, add_rec-IsBalanced}
use cros_kernel.SearchTree.Lookup.{IsStrict, get-lookup}

abbrev bent : Tree ℕ
bent = node leaf (pos 3) 30 2 (node leaf (pos 8) 80 1 leaf)

-- the double rotation
bent-add_rec :
    add_rec bent (pos 5) 50
    ≡ node (node leaf (pos 3) 30 1 leaf) (pos 5) 50 2 (node leaf (pos 8) 80 1 leaf)
unfolding add_rec rebalance rebalance_node rotate_left rotate_right
bent-add_rec = refl

-- a key that is there already: the search finds the older entry here
bent-again : get (add_rec bent (pos 8) 81) (pos 8) ≡ ok 80
unfolding add_rec rebalance rebalance_node rotate_left rotate_right get search_rec
bent-again = refl

bent-get : get bent (negsuc 4) ≡ ok 30
unfolding get search_rec
bent-get = refl

empty-get : get (new_tree {V = ℕ}).root (pos 0) ≡ fault
unfolding get search_rec
empty-get = refl

bent-ends : (peek_min bent ≡ ok (pos 3, 30)) × (peek_max bent ≡ ok (pos 8, 80))
unfolding peek_min peek_max min_from max_from
bent-ends = (refl, refl)

bent-IsSorted : IsSorted (inorder bent)
bent-IsSorted = ((omega arith, tt), (tt, tt))

bent-IsBalanced : IsBalanced bent
bent-IsBalanced = (refl, omega arith, omega arith, tt, (refl, omega arith, omega arith, tt, tt))

inorder-add_rec_example :
    inorder (add_rec bent (pos 5) 50) ≡ (pos 3, 30) ∷ (pos 5, 50) ∷ (pos 8, 80) ∷ []
inorder-add_rec_example = inorder-add_rec bent (pos 5) 50 bent-IsSorted

add_rec-IsBalanced_example :
    let t' = add_rec bent (pos 5) 50 in
    IsBalanced t' × (height bent ≤ height t') × (height t' ≤ height bent + 1)
add_rec-IsBalanced_example = add_rec-IsBalanced bent (pos 5) 50 bent-IsBalanced

bent-IsStrict : IsStrict (inorder bent)
bent-IsStrict = ((refl, tt), (tt, tt))

get-lookup_example :
    (contains bent (pos 8) ≡ true) × ((v : ℕ) → some 80 ≡ some v → get bent (pos 8) ≡ ok v)
get-lookup_example = get-lookup bent (pos 8) bent-IsStrict
