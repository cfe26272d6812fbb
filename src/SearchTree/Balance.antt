-- ===== src/SearchTree/Balance.antt =====
-- The heights of src/containers/binary_search_tree.h: `insert` keeps the tree balanced.
use native.Mathlib.Decide.{dec_lt}
use cros_kernel.Base.{
  ℕ, ◌+◌, ◌≤◌, ◌≡◌, refl, true, false, inl, inr, max, arith, ltb, ℤ, ltb_ℤ, Bool-cases,
}
use cros_kernel.SearchTree.{
  Tree, leaf, node, height, rotate_right, rotate_left, rebalance_node, rebalance, add_rec,
}

module _ {V : Type 0} where
  -- Every node stores its height, and its children's heights differ by one at most.
  abbrev pub IsBalanced : Tree V → Type 0
  IsBalanced leaf = Unit {0}
  IsBalanced (node l k v h r) =
      (h ≡ 1 + max (height l) (height r))
      × (height l ≤ height r + 1)
      × (height r ≤ height l + 1)
      × IsBalanced l
      × IsBalanced r

  -- What `rebalance` makes of a node whose left child is two higher than the right one.
  rebalance_node-left :
      (l : Tree V) (k : ℤ) (v : V) (h : ℕ) (r : Tree V)
      → IsBalanced l
      → IsBalanced r
      → height l ≡ height r + 2
      → let t = rebalance_node l k v h r in
        IsBalanced t × (height l ≤ height t) × (height t ≤ height l + 1)
  unfolding rebalance_node rotate_right rotate_left
  rebalance_node-left leaf k v h r bl br e = absurd (omega arith)
  rebalance_node-left (node a j w g leaf) k v h r bl br e =
      let p : ltb (height r + 1) g ≡ true = ground arith in
      let q : ltb (height a) 0 ≡ false = ground arith in
      rw (p, q)
        (
          (refl, omega arith, omega arith, bl.3, (refl, omega arith, omega arith, tt, br)),
          omega arith,
          omega arith,
        )
  rebalance_node-left (node a j w g (node b i u f c)) k v h r bl br e =
      let p : ltb (height r + 1) g ≡ true = ground arith in
      elim (dec_lt (height a) f) [
        | yes lt ↦
            let q : ltb (height a) f ≡ true = ground arith in
            rw (p, q)
              (
                (
                  refl,
                  omega arith,
                  omega arith,
                  (refl, omega arith, omega arith, bl.3, bl.4.3),
                  (refl, omega arith, omega arith, bl.4.4, br),
                ),
                omega arith,
                omega arith,
              )
        | no ge ↦
            let q : ltb (height a) f ≡ false = ground arith in
            rw (p, q)
              (
                (refl, omega arith, omega arith, bl.3, (refl, omega arith, omega arith, bl.4, br)),
                omega arith,
                omega arith,
              )
      ]

  rebalance_node-right :
      (l : Tree V) (k : ℤ) (v : V) (h : ℕ) (r : Tree V)
      → IsBalanced l
      → IsBalanced r
      → height r ≡ height l + 2
      → let t = rebalance_node l k v h r in
        IsBalanced t × (height r ≤ height t) × (height t ≤ height r + 1)
  unfolding rebalance_node rotate_right rotate_left
  rebalance_node-right l k v h leaf bl br e = absurd (omega arith)
  rebalance_node-right l k v h (node leaf j w g c) bl br e =
      let p : ltb (g + 1) (height l) ≡ false = ground arith in
      let p' : ltb (height l + 1) g ≡ true = ground arith in
      let q : ltb (height c) 0 ≡ false = ground arith in
      rw (p, p', q)
        (
          (refl, omega arith, omega arith, (refl, omega arith, omega arith, bl, tt), br.4),
          omega arith,
          omega arith,
        )
  rebalance_node-right l k v h (node (node a i u f b) j w g c) bl br e =
      let p : ltb (g + 1) (height l) ≡ false = ground arith in
      let p' : ltb (height l + 1) g ≡ true = ground arith in
      elim (dec_lt (height c) f) [
        | yes lt ↦
            let q : ltb (height c) f ≡ true = ground arith in
            rw (p, p', q)
              (
                (
                  refl,
                  omega arith,
                  omega arith,
                  (refl, omega arith, omega arith, bl, br.3.3),
                  (refl, omega arith, omega arith, br.3.4, br.4),
                ),
                omega arith,
                omega arith,
              )
        | no ge ↦
            let q : ltb (height c) f ≡ false = ground arith in
            rw (p, p', q)
              (
                (refl, omega arith, omega arith, (refl, omega arith, omega arith, bl, br.3), br.4),
                omega arith,
                omega arith,
              )
      ]

  rebalance_node-level :
      (l : Tree V) (k : ℤ) (v : V) (h : ℕ) (r : Tree V)
      → height l ≤ height r + 1
      → height r ≤ height l + 1
      → rebalance_node l k v h r ≡ node l k v h r
  unfolding rebalance_node
  rebalance_node-level l k v h r a b =
      let p : ltb (height r + 1) (height l) ≡ false = ground arith in
      let q : ltb (height l + 1) (height r) ≡ false = ground arith in rw (p, q)

  -- `rebalance` of a node whose children are balanced and differ by two at most.
  rebalance-IsBalanced :
      (l : Tree V) (k : ℤ) (v : V) (h : ℕ) (r : Tree V)
      → IsBalanced l
      → IsBalanced r
      → height l ≤ height r + 2
      → height r ≤ height l + 2
      → let t = rebalance (node l k v h r) in
        let top = max (height l) (height r) in
        IsBalanced t
        × (top ≤ height t)
        × (height t ≤ top + 1)
        × ((height l ≤ height r + 1) × (height r ≤ height l + 1) → height t ≡ top + 1)
  unfolding rebalance
  rebalance-IsBalanced l k v h r bl br a b = elim (dec_lt (height r + 1) (height l)) [
    | yes p ↦
        let (x, y, z) =
          rebalance_node-left l k v (1 + max (height l) (height r)) r bl br (omega arith) in
        (x, omega arith, omega arith, λ n. absurd (omega arith))
    | no np ↦ elim (dec_lt (height l + 1) (height r)) [
      | yes q ↦
          let (x, y, z) =
            rebalance_node-right l k v (1 + max (height l) (height r)) r bl br (omega arith) in
          (x, omega arith, omega arith, λ n. absurd (omega arith))
      | no nq ↦
          rw
            (rebalance_node-level l k v (1 + max (height l) (height r)) r (omega arith)
              (omega arith))
            ((refl, omega arith, omega arith, bl, br), omega arith, omega arith, λ n. omega arith)
    ]
  ]

  -- `add_rec` on a balanced tree stores the right heights, leaves no two siblings more than one
  -- apart, and makes the tree one higher at most.
  pub add_rec-IsBalanced :
      (t : Tree V) (k : ℤ) (v : V)
      → IsBalanced t
      → let t' = add_rec t k v in
        IsBalanced t' × (height t ≤ height t') × (height t' ≤ height t + 1)
  unfolding add_rec
  add_rec-IsBalanced leaf k v b =
      ((refl, omega arith, omega arith, tt, tt), omega arith, omega arith)
  add_rec-IsBalanced (node l j w h r) k v (e, x, y, bl, br) = elim (Bool-cases (ltb_ℤ k j)) [
    | inl p ↦
        let (b, lo, hi) = add_rec-IsBalanced l k v bl in
        let (bt, top, bound, same) =
          rebalance-IsBalanced (add_rec l k v) j w h r b br (omega arith) (omega arith) in
        elim (dec_lt (height r + 1) (height (add_rec l k v))) [
          | yes big ↦ rw p (bt, omega arith, omega arith)
          | no small ↦
              let eq = same (omega arith, omega arith) in rw p (bt, omega arith, omega arith)
        ]
    | inr p ↦
        let (b, lo, hi) = add_rec-IsBalanced r k v br in
        let (bt, top, bound, same) =
          rebalance-IsBalanced l j w h (add_rec r k v) bl b (omega arith) (omega arith) in
        elim (dec_lt (height l + 1) (height (add_rec r k v))) [
          | yes big ↦ rw p (bt, omega arith, omega arith)
          | no small ↦
              let eq = same (omega arith, omega arith) in rw p (bt, omega arith, omega arith)
        ]
  ]
