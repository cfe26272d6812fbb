-- ===== src/MemoryMap/Tests.antt =====
-- Runs of the memory map of src/memory/memorymap.cpp on small inputs.
use cros_kernel.Base.{◌≡◌, refl, ◌≢◌, some, [], ◌∷◌, arith, pos, ok, out_of_fuel}
use cros_kernel.MemoryMap.{
  available, unavailable, mmio, Region, Map, remove, carry, insert, split, trim_pair, trim,
  trim_loop, place,
}
use cros_kernel.MemoryMap.Regions.{Keeps}
use cros_kernel.MemoryMap.Trim.{trim-Keeps}
use cros_kernel.MemoryMap.Ends.{place-ends}

abbrev ram : Region
ram = record { type = available; location = 0; size = 100 }

abbrev hole : Region
hole = record { type = unavailable; location = 20; size = 5 }

abbrev two : Map
two = ram ∷ hole ∷ []

-- a stronger region in the middle of a weaker one
two-trim :
    trim 0 two
    ≡ ok (
      some 2,
      record { type = available; location = 0; size = 20 }
          ∷ hole
          ∷ record { type = available; location = 25; size = 75 }
          ∷ [],
    )
unfolding trim trim_pair split insert carry remove
two-trim = refl

-- Two overlapping regions are left: the step behind a split skips the new region's right neighbour.
abbrev crowded : Map
crowded =
    record { type = unavailable; location = 0; size = 10 }
    ∷ record { type = mmio; location = 10; size = 2 }
    ∷ record { type = unavailable; location = 20; size = 5 }
    ∷ []

crowded-place :
    place 16 (record { type = available; location = 5; size = 25 }) crowded
    ≡ ok (
      pos 0,
      record { type = unavailable; location = 0; size = 10 }
          ∷ record { type = mmio; location = 10; size = 2 }
          ∷ record { type = available; location = 12; size = 18 }
          ∷ record { type = unavailable; location = 20; size = 5 }
          ∷ [],
    )
unfolding place trim_loop trim trim_pair split insert carry remove
crowded-place = refl

trim-Keeps_example : Keeps two (trim 0 two)
trim-Keeps_example = trim-Keeps 0 two (omega arith, (omega arith, tt)) (omega arith, tt)

place-ends_example : place 16 ram crowded ≢ out_of_fuel
place-ends_example = place-ends 16 ram crowded (omega arith)
