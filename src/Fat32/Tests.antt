-- ===== src/Fat32/Tests.antt =====
-- Runs of the parts of src/fs/fat32 on small inputs.
use cros_kernel.Base.{ℕ, ◌+◌, ◌≡◌, ◌≤◌, ◌<◌, refl, [], ◌∷◌, some, pos, ok, arith}
use cros_kernel.Fat32.Paths.{Str, path_of, parse_file_path, parse_file_path-path_of}
use cros_kernel.Fat32.Disk.{Disk}
use cros_kernel.Fat32.Reader.{Source, read}
use cros_kernel.Fat32.Reader.Sectors.{Filled, read-Filled}

abbrev blank : ℕ → ℕ
blank i = 0

abbrev bin : Str
bin = 98 ∷ 105 ∷ 110 ∷ []

abbrev init : Str
init = 105 ∷ 110 ∷ 105 ∷ 116 ∷ []

parse_file_path-path_of_example : parse_file_path (path_of (bin ∷ init ∷ [])) ≡ bin ∷ init ∷ []
parse_file_path-path_of_example = parse_file_path-path_of bin (init ∷ []) (
  ((λ e. cc), ((λ e. cc), ((λ e. cc), tt))),
  (((λ e. cc), ((λ e. cc), ((λ e. cc), ((λ e. cc), tt)))), tt),
)

-- a file of 2000 bytes in sectors of 512
abbrev sectors : ℕ → ℕ → ℕ
sectors q i = q + i

abbrev disk : Source
disk = record { sector_size = 512; file_size = some 2000; read_file = λ q. some (sectors q) }

read-Filled_example :
    (count : ℕ) × (buffer' : ℕ → ℕ) × (read 31 disk 30 blank 40
      ≡ ok (pos count, buffer', 40 + count))
    × (30 ≤ count)
    × (count < 30 + 512)
    × Filled disk sectors 40 blank count buffer'
read-Filled_example =
    read-Filled disk sectors 2000 31 30 blank 40 (omega arith) refl (λ i lt. refl) (omega arith)
      (omega arith)

abbrev small_disk : Disk
small_disk = record { bytes_per_sector = 4; disk = λ i. i }
