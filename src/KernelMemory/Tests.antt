-- ===== src/KernelMemory/Tests.antt =====
-- The theorems on the kernel's free ranges at three areas, the middle one given back, and on the
-- pools of nodes at two pools.
use yay_os.Base.{
  ℕ, ◌+◌, ◌≡◌, refl, true, false, none, some, ◌==◌, if◌then◌else◌, List, [], ◌∷◌, arith,
}
use yay_os.KernelMemory.{MemoryArea, free_mapping}
use yay_os.KernelMemory.Nodes.{AreaPools, Nexts, insert_pool, insert_pool-lost}
use yay_os.KernelMemory.Merging.{holds, is_free, Sorted, IsFreed, free_mapping-IsFreed}

abbrev area : ℕ → ℕ → MemoryArea
area offset size = record { offset = offset; size = size }

abbrev two_areas : List MemoryArea
two_areas = area 4096 4096 ∷ area 12288 4096 ∷ []

two_areas-Sorted : Sorted 0 65536 two_areas
two_areas-Sorted = (omega arith, omega arith, (omega arith, omega arith, omega arith))

in_use : (p : ℕ) → holds (area 8192 4096) p ≡ true → is_free two_areas p ≡ false
in_use p h = ground (arith, h)

free_mapping-IsFreed_example :
    IsFreed 0 65536 (area 8192 4096) two_areas (free_mapping (area 8192 4096) two_areas)
free_mapping-IsFreed_example =
    free_mapping-IsFreed 0 65536 (area 8192 4096) two_areas (omega arith) two_areas-Sorted
      (omega arith) (omega arith) (omega arith) in_use

-- The pool at 4096 stands in the list of 5 free nodes; the one at 8192 has as many, and is cut out.
abbrev two_pools : AreaPools
two_pools = record {
  first = λ p. some (p + 32);
  count = λ p. 5;
  links = record { prev = λ p. none; next = λ p. none };
  node_next = λ p. none;
  pool_heads = λ c. if c == 5 then some 4096 else none;
  last_checked_index = 5;
}

insert_pool-lost_example :
    ((c : ℕ) → (insert_pool 8192 two_pools).pool_heads c ≡ two_pools.pool_heads c)
    × Nexts
        (insert_pool 8192 two_pools).links
        ((insert_pool 8192 two_pools).pool_heads (two_pools.count 8192))
        (4096 ∷ [])
insert_pool-lost_example = insert_pool-lost two_pools 8192 4096 [] refl (refl, refl)
