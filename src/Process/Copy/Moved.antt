-- ===== src/Process/Copy/Moved.antt =====
-- A process that is moved to another node of the process table, `operator=` and the destructor of
-- src/sched/process.cpp.
use mathlib.Core.Path.{subst, subst₂}
use cros_kernel.Base.{
  ℕ, zero, suc, negsuc, Bool, ◌≡◌, ◌≢◌, refl, sym, ◌∙◌, ap, if◌then◌else◌, ne→==, List, [], ◌∷◌,
  update_self, update_ne, true, ℤ, pos, inc, dec, ltb_ℤ, ok,
}
use cros_kernel.SearchTree.{new_tree}
use cros_kernel.Process.{Process, Counts, add_reference, remove_reference}
use cros_kernel.Process.Copy.{assign, destroy, store_files}

dec-inc : (z : ℤ) → dec (inc z) ≡ z
dec-inc (pos n) = refl
dec-inc (negsuc zero) = refl
dec-inc (negsuc (suc n)) = refl

-- the address spaces that are deleted where one reference to `a` is given up
abbrev pub deleted_space : ℕ → Counts → List ℕ
deleted_space a counts = if ltb_ℤ (pos 0) (dec (counts a)) then [] else a ∷ []

-- Moving a process without files over another one without files, in another address space, gives up the
-- address space of the other; the references to that of the process that is moved stay as they were.
assign-destroy :
    (p q : Process) (counts : Counts)
    → p.files ≡ new_tree
    → q.files ≡ new_tree
    → p.address_space ≢ 0
    → q.address_space ≢ 0
    → p.address_space ≢ q.address_space
    → ltb_ℤ (pos 0) (counts q.address_space) ≡ true
    → (moved counts' : Counts) × (assign q (p, counts)
        ≡ ok (q, moved, deleted_space p.address_space counts))
      × (destroy (q, moved) ≡ ok (counts', []))
      × (counts' q.address_space ≡ counts q.address_space)
      × (counts' p.address_space ≡ dec (counts p.address_space))
unfolding assign store_files
assign-destroy p q counts no_files no_files' space space' apart alive =
    let a = p.address_space in
    let b = q.address_space in
    let left = remove_reference a counts in
    let moved = add_reference b left in
    let at_a : left a ≡ dec (counts a) = update_self counts a (dec (counts a)) in
    let at_b : moved b ≡ inc (counts b) =
      update_self left b (inc (left b))
      ∙ ap inc (update_ne counts a (dec (counts a)) b (λ e. apart (sym e))) in
    let back : remove_reference b moved b ≡ counts b =
      update_self moved b (dec (moved b)) ∙ ap dec at_b ∙ dec-inc (counts b) in
    let run : assign (record q { files = new_tree }) (record p { files = new_tree }, counts)
        ≡ ok (record q { files = new_tree }, moved, deleted_space a counts) =
      rw (ne→== a 0 space, ne→== b 0 space', ne→== a b apart)
        (ap (λ t. ok (record q { files = new_tree }, moved, if ltb_ℤ (pos 0) t then [] else a ∷ []))
          at_a) in
    let gone : destroy (record q { files = new_tree }, moved) ≡ ok (remove_reference b moved, []) =
      rw (ne→== b 0 space') (
        ap (λ (t : Bool). ok (remove_reference b moved, if t then [] else b ∷ []))
          (ap (λ t. ltb_ℤ (pos 0) t) back ∙ alive)) in
    let p_is : record p { files = new_tree } ≡ p =
      ap (λ f. let r : Process = record p { files = f } in r) (sym no_files) in
    let q_is : record q { files = new_tree } ≡ q =
      ap (λ f. let r : Process = record q { files = f } in r) (sym no_files') in
    (
      moved,
      remove_reference b moved,
      subst₂ (λ x y. assign y (x, counts) ≡ ok (y, moved, deleted_space a counts)) p_is q_is run,
      subst (λ y. destroy (y, moved) ≡ ok (remove_reference b moved, [])) q_is gone,
      back,
      update_ne moved b (dec (moved b)) a apart ∙ update_ne left b (inc (left b)) a apart ∙ at_a,
    )
