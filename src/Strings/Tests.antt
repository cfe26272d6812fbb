-- ===== src/Strings/Tests.antt =====
-- Runs of src/util/string.cpp on a small memory.
use cros_kernel.Base.{refl, ◌==◌, if◌then◌else◌, [], ◌∷◌}
use cros_kernel.Strings.{Memory, IsString}

-- "hi" at address 100
abbrev hi : Memory
hi j = if j == 100 then 104 else (if j == 101 then 105 else 0)

hi-IsString : IsString hi 100 (104 ∷ 105 ∷ [])
hi-IsString = (refl, (λ e. cc), (refl, (λ e. cc), refl))
