-- ===== src/Loader/Sections.antt =====
-- `buildProgramImage` of src/loader/elf.cpp visits the sections of the file one by one.
use cros_kernel.Base.{
  ℕ, zero, suc, ◌+◌, ◌≤◌, ◌<◌, ◌≡◌, refl, true, false, if◌then◌else◌, Bool-cases, inl, inr, leb,
  ltb, arith, ℤ, pos, negsuc, Run, ok, fault, out_of_fuel, ◌>>=◌, List, [], ◌∷◌,
}
use cros_kernel.Strings.{Memory}
use cros_kernel.Loader.{
  ProgramHeader, Elf, new_elf, is_valid, Machine, Space, visit, build_loop, build_program_image,
}

-- the `n` sections from the one at `i` on
unfoldable pub sections_from : (ℕ → ProgramHeader) → ℕ → ℕ → List ProgramHeader
sections_from sections i zero = []
sections_from sections i (suc n) = sections i ∷ sections_from sections (i + 1) n

pub >>=-ap :
    {A B : Type 0} (m : Run A) (f g : A → Run B) → ((a : A) → f a ≡ g a) → (m >>= f) ≡ (m >>= g)
>>=-ap (ok a) f g e = e a
>>=-ap fault f g e = refl
>>=-ap out_of_fuel f g e = refl

module _ {S : Type 0} (t : Machine S) where
  -- Sections are loaded in order until one fails.
  pub load_all : ℕ → ℕ → List ProgramHeader → Space S → Run (ℤ × Space S)
  load_all fuel file [] s = ok (pos 0, s)
  load_all fuel file (ph ∷ rest) s =
      let behind = load_all fuel file rest in
      visit t fuel file ph s >>= λ (fine, s'). if fine then behind s' else ok (negsuc 0, s')

  build_loop_lem :
      (count n fuel : ℕ) (elf : Elf) (s : Space S)
      → elf.section_index + count ≡ elf.header.phcount
      → 0 < count
      → count ≤ n
      → build_loop t n fuel elf s
        ≡ load_all fuel elf.file (sections_from elf.sections elf.section_index count) s
  unfolding build_loop load_all sections_from
  build_loop_lem count zero fuel elf s e low h = absurd (omega arith)
  build_loop_lem zero (suc n) fuel elf s e low h = absurd (omega arith)
  build_loop_lem (suc zero) (suc n) fuel elf s e low h =
      let last : leb elf.header.phcount (elf.section_index + 1) ≡ true = ground arith in
      >>=-ap (visit t fuel elf.file (elf.sections elf.section_index) s) _ _
        (λ r. elim (Bool-cases r.0) [ inl y ↦ rw (y, last) refl | inr y ↦ rw y refl ])
  build_loop_lem (suc (suc left)) (suc n) fuel elf s e low h =
      let more : leb elf.header.phcount (elf.section_index + 1) ≡ false = ground arith in
      let positive : ltb 0 (elf.section_index + 1) ≡ true = ground arith in
      let behind =
        build_loop_lem (suc left) n fuel (record elf { section_index = elf.section_index + 1 }) in
      >>=-ap (visit t fuel elf.file (elf.sections elf.section_index) s) _ _ (λ r.
        elim (Bool-cases r.0) [
          | inl y ↦ rw (y, more, positive) (behind r.1 (omega arith) (omega arith) (omega arith))
          | inr y ↦ rw y refl
        ])

  -- `buildProgramImage` fails on a file that is not valid; on any other it visits the sections 0 to
  -- `phcount - 1` in order, each once, until one fails, if its fuel is the number of sections or more.
  pub build_program_image_lem :
      (mem : Memory) (file n fuel : ℕ) (s : Space S)
      → (new_elf mem file).header.phcount ≤ n
      → build_program_image t n fuel (new_elf mem file) s ≡ (
          if is_valid (new_elf mem file)
          then load_all fuel file
              (sections_from (new_elf mem file).sections 0 (new_elf mem file).header.phcount)
              s
          else ok (negsuc 0, s))
  unfolding build_program_image
  build_program_image_lem mem file n fuel s h =
      let elf = new_elf mem file in
      elim (Bool-cases (is_valid (new_elf mem file))) [
        | inl y ↦
            rw y (build_loop_lem elf.header.phcount n fuel elf s (omega arith) (ground arith) h)
        | inr y ↦ rw y refl
      ]
