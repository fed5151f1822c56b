-- ===== src/UserMemory/Tests.antt =====
-- The theorems on user addresses at small allocators.
use yay_os.Base.{true, List, [], ◌∷◌, arith}
use yay_os.UserMemory.{Area, area, alloc, reserve}
use yay_os.UserMemory.Areas.{Sorted}
use yay_os.UserMemory.Taking.{Allocated, Reserved, alloc-Allocated, reserve-Reserved}

abbrev two_areas : List Area
two_areas = area 4096 8192 ∷ area 20480 4096 ∷ []

two_areas-Sorted : Sorted 4096 65536 two_areas
two_areas-Sorted = (omega arith, (omega arith, omega arith))

alloc-Allocated_example : Allocated 4096 65536 4000 two_areas (alloc 4000 two_areas)
alloc-Allocated_example = alloc-Allocated 4096 65536 4000 two_areas two_areas-Sorted (omega arith)

reserve-Reserved_example :
    Reserved 4096 65536 true 8192 100 two_areas (reserve true 8192 100 two_areas)
reserve-Reserved_example =
    reserve-Reserved 4096 65536 8192 100 two_areas two_areas-Sorted (omega arith) (omega arith) true
