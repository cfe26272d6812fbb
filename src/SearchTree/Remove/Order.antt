-- ===== src/SearchTree/Remove/Order.antt =====
-- The entries of a tree of src/containers/binary_search_tree.h behind a removal.
use mathlib.Core.List.{append_assoc}
use cros_kernel.Base.{
  ℕ, zero, suc, ◌≡◌, refl, sym, ap, ◌∙◌, true, false, Option, none, some, List, [], ◌∷◌, ◌++◌,
  arith, if◌then◌else◌, ℤ, ltb_ℤ, All, All-mono, Bool-cases, inl, inr,
}
use cros_kernel.SearchTree.{Tree, leaf, node, rebalance, differs}
use cros_kernel.SearchTree.Order.{inorder, inorder-rebalance}
use cros_kernel.SearchTree.Lookup.{IsStrict, IsStrict-append}
use cros_kernel.SearchTree.Remove.{
  Turn, stays, to_left, to_right, turn, at_turn, rebalance_times, pull_min, pull_max, replace,
  remove_here, remove_rec,
}

module _ {V : Type 0} where
  inorder-at_turn :
      (d : Turn) (f : Tree V → Tree V) (t : Tree V)
      → ((s : Tree V) → inorder (f s) ≡ inorder s)
      → inorder (at_turn d f t) ≡ inorder t
  inorder-at_turn stays f t e = e t
  inorder-at_turn to_left f leaf e = refl
  inorder-at_turn to_left f (node l k v h r) e = rw (e l)
  inorder-at_turn to_right f leaf e = refl
  inorder-at_turn to_right f (node l k v h r) e = rw (e r)

  pub inorder-rebalance_times : (n : ℕ) (t : Tree V) → inorder (rebalance_times n t) ≡ inorder t
  unfolding rebalance_times
  inorder-rebalance_times zero t = refl
  inorder-rebalance_times (suc n) t =
      inorder-at_turn (turn t) (rebalance_times n) (rebalance t) (inorder-rebalance_times n)
      ∙ inorder-rebalance t

  -- an entry in front of those of the tree that is left, or no entry at all
  abbrev IsFront : List (ℤ × V) → Option ((ℤ × V) × Tree V × ℕ) → Type 0
  IsFront es none = es ≡ []
  IsFront es (some (e, t, n)) = es ≡ e ∷ inorder t

  abbrev IsBack : List (ℤ × V) → Option ((ℤ × V) × Tree V × ℕ) → Type 0
  IsBack es none = es ≡ []
  IsBack es (some (e, t, n)) = es ≡ inorder t ++ e ∷ []

  pull_min-IsFront : (t : Tree V) → IsFront (inorder t) (pull_min t)
  unfolding pull_min
  pull_min-IsFront leaf = refl
  pull_min-IsFront (node l k v h r) =
      from (pull_min l) (pull_min r) (pull_min-IsFront l) (pull_min-IsFront r)
    where
      from :
          (a b : Option ((ℤ × V) × Tree V × ℕ))
          → IsFront (inorder l) a
          → IsFront (inorder r) b
          → IsFront (inorder l ++ (k, v) ∷ inorder r) (elim a [
            | some (e, l', n) ↦ some (e, rebalance_times n (node l' k v h r), 0)
            | none ↦ elim b [
              | none ↦ some ((k, v), leaf, 2)
              | some (e, r', n) ↦ some ((k, v), rebalance_times n (node l e.0 e.1 h r'), 1)
            ]
          ])
      from (some (e, l', n)) b x y = rw (inorder-rebalance_times, x)
      from none none x y = rw (x, y)
      from none (some (e, r', n)) x y = rw (inorder-rebalance_times, x, y)

  pull_max-IsBack : (t : Tree V) → IsBack (inorder t) (pull_max t)
  unfolding pull_max
  pull_max-IsBack leaf = refl
  pull_max-IsBack (node l k v h r) =
      from (pull_max r) (pull_max l) (pull_max-IsBack r) (pull_max-IsBack l)
    where
      from :
          (a b : Option ((ℤ × V) × Tree V × ℕ))
          → IsBack (inorder r) a
          → IsBack (inorder l) b
          → IsBack (inorder l ++ (k, v) ∷ inorder r) (elim a [
            | some (e, r', n) ↦ some (e, rebalance_times n (node l k v h r'), 0)
            | none ↦ elim b [
              | none ↦ some ((k, v), leaf, 2)
              | some (e, l', n) ↦ some ((k, v), rebalance_times n (node l' e.0 e.1 h r), 1)
            ]
          ])
      from (some (e, r', n)) b x y =
          rw (inorder-rebalance_times, x)
            (sym (append_assoc (inorder l) ((k, v) ∷ inorder r') (e ∷ [])))
      from none none x y = rw (x, y)
      from none (some (e, l', n)) x y = rw (inorder-rebalance_times, x, y)

  inorder-replace :
      (l : Tree V) (h : ℕ) (r : Tree V) (a b : Option ((ℤ × V) × Tree V × ℕ))
      → IsFront (inorder r) a
      → IsBack (inorder l) b
      → inorder (replace l h r a b).0 ≡ inorder l ++ inorder r
  inorder-replace l h r (some (e, r', n)) b x y = rw (inorder-rebalance_times, x)
  inorder-replace l h r none (some (e, l', n)) x y =
      rw (inorder-rebalance_times, y, x) (sym (append_assoc (inorder l') (e ∷ []) []))
  inorder-replace l h r none none x y = rw (x, y)

  -- The found node's entry goes, and every other keeps its place.
  pub inorder-remove_here :
      (l : Tree V) (h : ℕ) (r : Tree V) → inorder (remove_here l h r).0 ≡ inorder l ++ inorder r
  inorder-remove_here l h r =
      inorder-replace l h r (pull_min r) (pull_max l) (pull_min-IsFront r) (pull_max-IsBack l)

  -- the sequence without the first entry of the key
  abbrev pub remove_in : ℤ → List (ℤ × V) → List (ℤ × V)
  remove_in k [] = []
  remove_in k (e ∷ es) = if differs e.0 k then e ∷ remove_in k es else es

  remove_in-left :
      (k : ℤ) (es fs : List (ℤ × V)) (e : ℤ × V)
      → All (λ (f : ℤ × V). differs f.0 k ≡ true) (e ∷ fs)
      → remove_in k (es ++ e ∷ fs) ≡ remove_in k es ++ e ∷ fs
  remove_in-left k [] fs e a = rw a.0 (ap (λ x. e ∷ x) (absent fs a.1))
    where
      absent :
          (fs : List (ℤ × V)) → All (λ (f : ℤ × V). differs f.0 k ≡ true) fs → remove_in k fs ≡ fs
      absent [] a = refl
      absent (f ∷ fs) a = rw a.0 (ap (λ x. f ∷ x) (absent fs a.1))
  remove_in-left k (d ∷ es) fs e a = elim (Bool-cases (differs d.0 k)) [
    | inl x ↦ rw x (ap (λ x. d ∷ x) (remove_in-left k es fs e a))
    | inr x ↦ rw x
  ]

  remove_in-right :
      (k : ℤ) (es fs : List (ℤ × V))
      → All (λ (f : ℤ × V). differs f.0 k ≡ true) es
      → remove_in k (es ++ fs) ≡ es ++ remove_in k fs
  remove_in-right k [] fs a = refl
  remove_in-right k (d ∷ es) fs a = rw a.0 (ap (λ x. d ∷ x) (remove_in-right k es fs a.1))

  pub inorder-remove_rec :
      (t : Tree V) (k : ℤ)
      → IsStrict (inorder t)
      → inorder (remove_rec t k).0 ≡ remove_in k (inorder t)
  unfolding remove_rec
  inorder-remove_rec leaf k s = refl
  inorder-remove_rec (node l j w h r) k s =
      let (sl, al, ar, sr) = IsStrict-append (inorder l) (inorder r) j w s in
      let below = λ (le : ltb_ℤ k j ≡ false).
        All-mono (λ (e : ℤ × V). ltb_ℤ e.0 j ≡ true) (λ (e : ℤ × V). differs e.0 k ≡ true)
          (inorder l) (λ e lt. ground arith) al in
      elim (Bool-cases (ltb_ℤ k j)) [
        | inl p ↦
            let d : differs j k ≡ true = ground arith in
            let g =
              All-mono (λ (f : ℤ × V). ltb_ℤ j f.0 ≡ true) (λ (f : ℤ × V). differs f.0 k ≡ true)
                (inorder r) (λ f lt. ground arith) ar in
            rw (p, inorder-rebalance_times, inorder-remove_rec l k sl)
              (sym (remove_in-left k (inorder l) (inorder r) (j, w) (d, g)))
        | inr p ↦ elim (Bool-cases (ltb_ℤ j k)) [
          | inl q ↦
              let d : differs j k ≡ true = ground arith in
              rw (
                p,
                q,
                inorder-rebalance_times,
                inorder-remove_rec r k sr,
                remove_in-right k (inorder l) ((j, w) ∷ inorder r) (below p),
                d,
              )
          | inr q ↦
              let d : differs j k ≡ false = ground arith in
              rw (
                p,
                q,
                inorder-remove_here,
                remove_in-right k (inorder l) ((j, w) ∷ inorder r) (below p),
                d,
              )
        ]
      ]
