-- ===== src/Heap/Tests.antt =====
-- The kernel heap with one new pool for objects of 32 bytes, and what its operations do there.
use yay_os.Base.{
  ℕ, ◌+◌, ◌-◌, ◌*◌, ◌%◌, ◌≤◌, ◌<◌, ◌≡◌, ◌↔◌, refl, true, Option, none, some, List, [], ◌∷◌, arith,
}
use yay_os.Utils.{align_up, align_down}
use yay_os.Pools.{update}
use yay_os.Heap.{
  KernelHeap, header_size, metadata_size, max_size_for_slubs, header_at, max_count, set_entry,
  get_new_pool, insert_pool_to, pool_init, alloc_from_slubs, alloc_small, alloc_loop, take_object,
  pool_alloc, cut_pool_from, get_data, link_headers, alloc, free,
}
use yay_os.Heap.Pool.{headers_from, header_at_bounds}
use yay_os.Heap.Lists.{View}
use yay_os.Heap.Moving.{moved}
use yay_os.Heap.Taking.{IsValid, Took, alloc_from_slubs-Took}
use yay_os.Heap.Fresh.{get_new_pool-IsValid}
use yay_os.Heap.Sizes.{free-alloc_small, alloc_large-fits}

-- No pools, and headers in memory that was used before.
abbrev empty_heap : KernelHeap
empty_heap = record {
  headers = λ a. record { real_size = 5000; next = none };
  pools = λ p. record { first = none; object_size = 0; objects_count = 0 };
  links = record { prev = λ p. none; next = λ p. none };
  pool_heads = λ s c. none;
  pools_max_count = λ s. max_count (16 * s);
  pools_last_checked_indices = λ s. max_count (16 * s);
}

abbrev no_lists : View
no_lists s c = []

abbrev nothing_free : ℕ → List ℕ
nothing_free p = []

empty-IsValid : IsValid empty_heap no_lists nothing_free
empty-IsValid = record {
  holds = λ s c. (refl, tt, tt);
  pool = λ s c p m. absurd (ground (arith, m));
}

-- The page at 4096 as a pool of 51 objects.
abbrev one_pool : KernelHeap
one_pool = (get_new_pool 4096 (16 * 2) empty_heap).0

abbrev one_list : View
one_list = set_entry no_lists 2 51 (4096 ∷ [])

abbrev all_free : ℕ → List ℕ
all_free = update nothing_free 4096 (headers_from 51 4096 (16 * 2) 0)

one_pool-IsValid :
    ((get_new_pool 4096 (16 * 2) empty_heap).1 ≡ true)
    × IsValid one_pool one_list all_free
    × (one_pool.pools_last_checked_indices 2 ≡ 51)
unfolding max_count align_down
one_pool-IsValid =
    get_new_pool-IsValid empty_heap no_lists nothing_free empty-IsValid 2 50 4096 refl refl
      (omega arith) (λ s c. refl) (omega arith) refl

one_pool-max : one_pool.pools_max_count 2 ≡ 51
unfolding get_new_pool insert_pool_to pool_init max_count
one_pool-max = refl

alloc_from_slubs-Took_example :
    (r : KernelHeap × Option ℕ) × (alloc_from_slubs 32 one_pool ≡ some r)
    × Took one_list all_free 2 51 4096
        (header_at 4096 (16 * 2) 0)
        []
        (headers_from 50 4096 (16 * 2) 1)
        r
alloc_from_slubs-Took_example =
    alloc_from_slubs-Took one_list all_free 2 51 4096 (header_at 4096 (16 * 2) 0) []
      (headers_from 50 4096 (16 * 2) 1) refl refl (omega arith) one_pool 32 refl
      (omega (arith, one_pool-IsValid.2)) (omega (arith, one_pool-IsValid.2))
      (omega (arith, one_pool-max)) (omega (arith, one_pool-max))
      (λ j l h. absurd (omega (arith, one_pool-IsValid.2, l, h))) one_pool-IsValid.1

-- The heap once an object was taken.
abbrev taken_heap : KernelHeap
taken_heap = alloc_from_slubs-Took_example.0.0

abbrev taken_list : View
taken_list = moved one_list 4096 2 51 (51 - 1) []

abbrev others_free : ℕ → List ℕ
others_free = update all_free 4096 (headers_from 50 4096 (16 * 2) 1)

header_at_bounds_example :
    (4096 + metadata_size ≤ header_at 4096 32 50)
    × (header_at 4096 32 50 + header_size + 32 ≤ 4096 + 4096)
unfolding max_count
header_at_bounds_example = header_at_bounds 4096 32 50 (omega arith)

alloc_large-fits_example :
    (h' : KernelHeap) × (alloc 4096 8192 empty_heap ≡ some (h', 4096 + header_size))
    × ((h'.headers 4096).real_size ≡ align_up 8192 4096)
    × ((4096 + header_size + 8192 ≤ 4096 + (h'.headers 4096).real_size) ↔ (0 < 8192 % 4096))
alloc_large-fits_example =
    alloc_large-fits 4096 8192 empty_heap (omega arith) (omega arith) (omega arith) (omega arith)

-- A pool of 128-byte objects with 7 free ones, while the search starts at 3.
abbrev low_index : KernelHeap
low_index = record empty_heap {
  pools = λ p. record { first = none; object_size = 128; objects_count = 7 };
  pools_last_checked_indices = λ s. 3;
}

abbrev heap_of : Option (KernelHeap × ℕ) → KernelHeap
heap_of none = empty_heap
heap_of (some r) = r.0

abbrev after_small : KernelHeap
after_small = heap_of (alloc_small 4096 32 one_pool)

small_taken : alloc_small 4096 32 one_pool ≡ some (after_small, 4160)
unfolding alloc_small alloc_from_slubs alloc_loop take_object pool_alloc cut_pool_from
    insert_pool_to get_data get_new_pool pool_init max_count header_at
small_taken = refl

one_pool-real_size : max_size_for_slubs < (one_pool.headers (4160 - header_size)).real_size
unfolding get_new_pool insert_pool_to pool_init max_count header_at link_headers
one_pool-real_size = omega arith

free-alloc_small_example :
    free 4160 after_small
    ≡ some
        (after_small, some (4160 - header_size, (one_pool.headers (4160 - header_size)).real_size))
free-alloc_small_example =
    free-alloc_small 4096 32 4160 one_pool after_small small_taken (omega arith) (omega arith)
      one_pool-real_size
