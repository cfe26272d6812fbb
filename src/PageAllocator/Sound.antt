-- ===== src/PageAllocator/Sound.antt =====
-- The invariant of the allocator of src/memory/pageallocator.cpp.
use mathlib.Core.Path.{subst}
use cros_kernel.Base.{
  ℕ, zero, suc, ◌+◌, ◌-◌, ◌*◌, ◌^◌, ◌≤◌, ◌<◌, ◌≡◌, refl, sym, ◌∙◌, ap, true, false, ◌&&◌, ◌==◌,
  if◌then◌else◌, List, [], ◌∷◌, Bool-cases, inl, inr, arith, update, All,
}
use cros_kernel.PageAllocator.{
  PageAllocator, Block, unlink, take_buddy, put_block, is_mate, reserved,
}
use cros_kernel.PageAllocator.Pages.{
  hit, hits, hits_below, free_blocks, times, hits_below-update, hits-unlink, times-unlink,
}

abbrev pub IsAligned : ℕ → ℕ → Type 0
IsAligned k i = (m : ℕ) × (i ≡ m * 2 ^ k)

abbrev pub mark : Block → ℕ → ℕ
mark b k = if b.is_free && b.kval == k then 1 else 0

-- A block is in the list of its size just where the map has it free, and in no other list; the free
-- blocks do not meet, and each stands at a multiple of its size.
pub record Sound (s : PageAllocator) : Type 0 where
  pub marked : (i k : ℕ) → k ≤ s.max_k_val → times i (s.avail_list k) ≡ mark (s.block_map i) k
  pub once : (p : ℕ) → free_blocks s p ≤ 1
  pub aligned : (k : ℕ) → k ≤ s.max_k_val → All (IsAligned k) (s.avail_list k)

pub same : (i : ℕ) → (i == i) ≡ true
same i = ground arith

pub power_positive : (k : ℕ) → 1 ≤ 2 ^ k
power_positive zero = omega arith
power_positive (suc k) = omega (arith, power_positive k)

pub hit_self : (k i : ℕ) → hit k i i ≡ 1
hit_self k i = ground (arith, power_positive k)

times-hits : (k i : ℕ) (xs : List ℕ) → times i xs ≤ hits k i xs
times-hits k i [] = omega arith
times-hits k i (x ∷ xs) = elim (Bool-cases (x == i)) [
  | inl e ↦ let q : x ≡ i = ground arith in rw (e, q, hit_self) (omega (arith, times-hits k i xs))
  | inr e ↦ rw e (omega (arith, times-hits k i xs))
]

hits-hits_below :
    (n k : ℕ) (avail : ℕ → List ℕ) (p : ℕ) → k < n → hits k p (avail k) ≤ hits_below n avail p
hits-hits_below zero k avail p h = absurd (omega arith)
hits-hits_below (suc n) k avail p h = elim (Bool-cases (k == n)) [
  | inl e ↦ let q : k ≡ n = ground arith in rw q (omega arith)
  | inr e ↦ let l : k < n = ground arith in omega (arith, hits-hits_below n k avail p l)
]

-- The first page of a listed block is free.
pub times-free_blocks :
    (s : PageAllocator) (k i : ℕ) → k ≤ s.max_k_val → times i (s.avail_list k) ≤ free_blocks s i
times-free_blocks s k i h = omega (
  arith,
  times-hits k i (s.avail_list k),
  hits-hits_below (s.max_k_val + 1) k s.avail_list i (omega arith),
)

-- `insert` of a block that does not merge
pub put_block-Sound :
    (i k : ℕ) (s : PageAllocator)
    → Sound s
    → k ≤ s.max_k_val
    → IsAligned k i
    → ((p : ℕ) → free_blocks s p + hit k i p ≤ 1)
    → Sound (put_block i k s)
      × ((p : ℕ) → free_blocks (put_block i k s) p ≡ free_blocks s p + hit k i p)
put_block-Sound i k s sound le al apart =
    let counts : (p : ℕ) → free_blocks (put_block i k s) p ≡ free_blocks s p + hit k i p = λ p.
      omega (
        arith,
        hits_below-update (s.max_k_val + 1) k s.avail_list (i ∷ s.avail_list k) p (omega arith),
      ) in
    (
      record {
        marked = λ j k' le'.
            let m = sound.marked j k' le' in
            elim (Bool-cases (j == i)) [
              | inl e ↦
                  let q : j ≡ i = ground arith in
                  let none_listed : times i (s.avail_list k') ≡ 0 =
                    omega (arith, times-free_blocks s k' i le', apart i, hit_self k i) in
                  elim (Bool-cases (k' == k)) [
                    | inl f ↦
                        let r : k' ≡ k = ground arith in
                        let none_listed' : times j (s.avail_list k) ≡ 0 =
                          rw q (subst (λ x. times i (s.avail_list x) ≡ 0) r none_listed) in
                        let e' : (i == j) ≡ true = ground arith in
                        let f' : (k == k') ≡ true = ground arith in
                        rw (e, f, e', f') (omega (arith, none_listed'))
                    | inr f ↦
                        let f' : (k == k') ≡ false = ground arith in rw (e, f, q, f') none_listed
                  ]
              | inr e ↦
                  let e' : (i == j) ≡ false = ground arith in
                  elim (Bool-cases (k' == k)) [
                    | inl f ↦
                        let r : k' ≡ k = ground arith in
                        let m' = rw r at m in rw (e, f, e', r) (omega (arith, m'))
                    | inr f ↦ rw (e, f) m
                  ]
            ];
        once = λ p. omega (arith, counts p, apart p);
        aligned = λ k' le'. elim (Bool-cases (k' == k)) [
          | inl f ↦
              let r : k' ≡ k = ground arith in
              rw f (
                subst (λ x. All (IsAligned x) (i ∷ s.avail_list k)) (sym r)
                  (al, sound.aligned k le))
          | inr f ↦ rw f (sound.aligned k' le')
        ];
      },
      counts,
    )

All-unlink : (P : ℕ → Type 0) (i : ℕ) (xs : List ℕ) → All P xs → All P (unlink i xs)
All-unlink P i [] a = tt
All-unlink P i (x ∷ xs) a = elim (Bool-cases (x == i)) [
  | inl e ↦ rw e a.1
  | inr e ↦ rw e (a.0, All-unlink P i xs a.1)
]

mark_other :
    (c : Block) (k k' : ℕ) → (c.is_free && c.kval == k) ≡ true → (k' == k) ≡ false → mark c k' ≡ 0
mark_other c k k' p f = elim (Bool-cases c.is_free) [
  | inl q ↦ let p' = rw q at p in ground arith
  | inr q ↦ rw q refl
]

-- What is left of a list without one of its blocks.
pub record IsWithout (b k : ℕ) (xs ys : List ℕ) : Type 0 where
  pub times_is : (j : ℕ) → times j ys ≡ (if j == b then times j xs - 1 else times j xs)
  pub hits_is : (p : ℕ) → hits k p ys + hit k b p ≡ hits k p xs
  pub aligned : All (IsAligned k) xs → All (IsAligned k) ys

-- the state in which a block is out of its list and marked by `c`
abbrev pub taken : ℕ → ℕ → List ℕ → Block → PageAllocator → PageAllocator
taken b k ys c s = record s {
  avail_list = update s.avail_list k ys;
  block_map = update s.block_map b c;
}

-- A free block that is taken out of its list leaves the free blocks.
pub taken-Sound :
    (b k : ℕ) (ys : List ℕ) (c : Block) (s : PageAllocator)
    → Sound s
    → k ≤ s.max_k_val
    → is_mate b k s ≡ true
    → IsWithout b k (s.avail_list k) ys
    → c.is_free ≡ false
    → Sound (taken b k ys c s)
      × ((p : ℕ) → free_blocks (taken b k ys c s) p + hit k b p ≡ free_blocks s p)
taken-Sound b k ys c s sound le mate without busy =
    let listed : times b (s.avail_list k) ≡ 1 =
      sound.marked b k le ∙ ap (λ c. if c then 1 else 0) mate in
    let none_marked : (k' : ℕ) → mark c k' ≡ 0 = λ k'. rw busy refl in
    let counts : (p : ℕ) → free_blocks (taken b k ys c s) p + hit k b p ≡ free_blocks s p = λ p.
      omega (
        arith,
        hits_below-update (s.max_k_val + 1) k s.avail_list ys p (omega arith),
        without.hits_is p,
      ) in
    (
      record {
        marked = λ j k' le'.
            let m = sound.marked j k' le' in
            elim (Bool-cases (k' == k)) [
              | inl f ↦
                  let r : k' ≡ k = ground arith in
                  let t = without.times_is j in
                  elim (Bool-cases (j == b)) [
                    | inl e ↦
                        let q : j ≡ b = ground arith in
                        let t' = rw e at t in
                        let listed' : times j (s.avail_list k) ≡ 1 = rw q listed in
                        rw (f, e, none_marked k') (omega (arith, t', listed'))
                    | inr e ↦
                        let t' = rw e at t in
                        rw (f, e)
                          (t' ∙ subst (λ x. times j (s.avail_list x) ≡ mark (s.block_map j) k') r m)
                  ]
              | inr f ↦ elim (Bool-cases (j == b)) [
                | inl e ↦
                    let q : j ≡ b = ground arith in
                    rw (f, e, none_marked k')
                      (subst (λ x. times x (s.avail_list k') ≡ 0) (sym q)
                        (sound.marked b k' le' ∙ mark_other (s.block_map b) k k' mate f))
                | inr e ↦ rw (f, e) m
              ]
            ];
        once = λ p. omega (arith, counts p, sound.once p);
        aligned = λ k' le'. elim (Bool-cases (k' == k)) [
          | inl f ↦
              let r : k' ≡ k = ground arith in
              rw f
                (subst (λ x. All (IsAligned x) ys) (sym r) (without.aligned (sound.aligned k le)))
          | inr f ↦ rw f (sound.aligned k' le')
        ];
      },
      counts,
    )

-- A buddy that is free leaves the free blocks.
pub take_buddy-Sound :
    (b k : ℕ) (s : PageAllocator)
    → Sound s
    → k ≤ s.max_k_val
    → is_mate b k s ≡ true
    → Sound (take_buddy b k s)
      × ((p : ℕ) → free_blocks (take_buddy b k s) p + hit k b p ≡ free_blocks s p)
take_buddy-Sound b k s sound le mate =
    let xs = s.avail_list k in
    let listed : times b xs ≡ 1 = sound.marked b k le ∙ ap (λ c. if c then 1 else 0) mate in
    taken-Sound b k (unlink b xs) (reserved (s.block_map b).kval) s sound le mate
      (record {
        times_is = λ j. times-unlink j b xs;
        hits_is = λ p. hits-unlink k p b xs (omega (arith, listed));
        aligned = All-unlink (IsAligned k) b xs;
      })
      refl
