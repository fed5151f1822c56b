-- ===== src/Heap.antt =====
-- The kernel heap: YYSloth/src/memory/kheap.cpp. Objects of up to `max_size_for_slubs` bytes come
-- from pools of one page, which stand in a list for each size of object and number of free objects;
-- larger ones have pages of their own. Memory is kept by field: the headers by address, the pools by
-- the address of their page. A null pointer is `none`. What KernelVirtualAllocator::getMapping
-- returns is an argument, 0 where it fails; `m_mutex` is left out, an operation is one step.
pub mod Pool
pub mod Lists
pub mod Moving
pub mod Taking
pub mod Giving
pub mod Fresh
pub mod Sizes
mod Tests
use yay_os.Base.{
  ℕ, zero, suc, ◌+◌, ◌-◌, ◌*◌, ◌/◌, ◌<◌, Bool, true, false, Option, none, some, ◌==◌, ltb, leb,
  if◌then◌else◌, add64, sub64,
}
use yay_os.Pools.{Links, update, unlink, cut_head, push_front}
use yay_os.Utils.{align_up, align_down}

abbrev pub max_size_for_slubs : ℕ
max_size_for_slubs = 2000

abbrev pub pools_sizes_count : ℕ
pools_sizes_count = max_size_for_slubs / 16

-- `sizeof(ObjectHeader)`, `sizeof(PoolMetadata)`.
abbrev pub header_size : ℕ
header_size = 16

abbrev pub metadata_size : ℕ
metadata_size = 48

pub record ObjectHeader : Type 0 where
  pub real_size : ℕ
  pub next : Option ℕ

-- The fields of PoolMetadata but for `prev` and `next`, which are in `links` of the heap.
pub record PoolMetadata : Type 0 where
  pub first : Option ℕ
  pub object_size : ℕ
  pub objects_count : ℕ

pub record KernelHeap : Type 0 where
  pub headers : ℕ → ObjectHeader
  pub pools : ℕ → PoolMetadata
  pub links : Links
  pub pool_heads : ℕ → ℕ → Option ℕ
  pub pools_max_count : ℕ → ℕ
  pub pools_last_checked_indices : ℕ → ℕ

unfoldable pub header_at : ℕ → ℕ → ℕ → ℕ
header_at pool object_size index = pool + metadata_size + (object_size + header_size) * index

unfoldable pub max_count : ℕ → ℕ
max_count object_size = (4096 - 16) / (object_size + metadata_size)

unfoldable pub get_data : Option ℕ → ℕ
get_data none = header_size
get_data (some header) = header + header_size

abbrev pub set_next_object : ℕ → Option ℕ → (ℕ → ObjectHeader) → ℕ → ObjectHeader
set_next_object a v f = update f a (record (f a) { next = v })

-- The loop of `init` over the headers from an index on.
unfoldable pub link_headers : ℕ → ℕ → ℕ → ℕ → (ℕ → ObjectHeader) → ℕ → ObjectHeader
link_headers zero pool object_size i f = f
link_headers (suc n) pool object_size i f =
    link_headers n pool object_size (suc i)
      (set_next_object (header_at pool object_size i) (some (header_at pool object_size (suc i))) f)

-- SmallObjectPool::init.
unfoldable pub pool_init : ℕ → ℕ → KernelHeap → KernelHeap
pool_init pool obj_size h =
    let count = max_count obj_size in
    record h {
      pools = update h.pools pool (record {
        first = some (header_at pool obj_size 0);
        object_size = obj_size;
        objects_count = count;
      });
      headers =
          set_next_object (header_at pool obj_size (sub64 count 1)) none
            (link_headers (sub64 count 1) pool obj_size 0 h.headers);
    }

-- SmallObjectPool::alloc.
unfoldable pub pool_alloc : ℕ → KernelHeap → KernelHeap × Option ℕ
pool_alloc pool h = elim ((h.pools pool).first) [
  | none ↦ (h, none)
  | some result ↦ (
    record h {
      pools = update h.pools pool (record (h.pools pool) {
        first = (h.headers result).next;
        objects_count = sub64 (h.pools pool).objects_count 1;
      });
    },
    some result,
  )
]

-- SmallObjectPool::free.
unfoldable pub pool_free : ℕ → ℕ → KernelHeap → KernelHeap
pool_free pool header h = record h {
  headers = set_next_object header (h.pools pool).first h.headers;
  pools = update h.pools pool (record (h.pools pool) {
    first = some header;
    objects_count = add64 (h.pools pool).objects_count 1;
  });
}

-- One entry of an array of arrays rewritten.
abbrev pub set_entry {ℓ} : {A : Type ℓ} → (ℕ → ℕ → A) → ℕ → ℕ → A → ℕ → ℕ → A
set_entry f size_index heads_index v s i =
    if s == size_index then (if i == heads_index then v else f s i) else f s i

unfoldable pub cut_pool_from : ℕ → ℕ → ℕ → KernelHeap → KernelHeap
cut_pool_from pool size_index heads_index h = record h {
  links = unlink pool h.links;
  pool_heads =
      set_entry h.pool_heads size_index heads_index
        (cut_head pool h.links (h.pool_heads size_index heads_index));
}

unfoldable pub insert_pool_to : ℕ → ℕ → ℕ → KernelHeap → KernelHeap
insert_pool_to pool size_index heads_index h = record h {
  links = push_front pool (h.pool_heads size_index heads_index) h.links;
  pool_heads = set_entry h.pool_heads size_index heads_index (some pool);
}

abbrev pub set_last_checked : ℕ → ℕ → KernelHeap → KernelHeap
set_last_checked index v h = record h {
  pools_last_checked_indices = update h.pools_last_checked_indices index v;
}

-- What `allocFromSlubs` does with the pool that it finds.
unfoldable pub take_object : ℕ → ℕ → KernelHeap → KernelHeap × Option ℕ
take_object index pool h =
    let cut = cut_pool_from pool index (h.pools pool).objects_count h in
    let (taken, result) = pool_alloc pool cut in
    let put = insert_pool_to pool index (taken.pools pool).objects_count taken in
    let checked = sub64 (put.pools_last_checked_indices index) 1 in
    (set_last_checked index (if checked == 0 then 1 else checked) put, result)

-- The loop of `allocFromSlubs`, with the rounds left.
unfoldable pub alloc_loop : ℕ → ℕ → KernelHeap → KernelHeap × Option ℕ
alloc_loop zero index h = (h, none)
alloc_loop (suc fuel) index h =
    let last = h.pools_last_checked_indices index in
    elim (ltb last (add64 (h.pools_max_count index) 1)) [
      | false ↦ (h, none)
      | true ↦ elim (h.pool_heads index last) [
        | none ↦ alloc_loop fuel index (set_last_checked index (add64 last 1) h)
        | some pool ↦ take_object index pool h
      ]
    ]

-- `none` is a panic.
unfoldable pub alloc_from_slubs : ℕ → KernelHeap → Option (KernelHeap × Option ℕ)
alloc_from_slubs size h =
    let index = size / 16 in
    let last = h.pools_last_checked_indices index in
    if last == 0 then none else some (alloc_loop (h.pools_max_count index + 2 - last) index h)

unfoldable pub get_new_pool : ℕ → ℕ → KernelHeap → KernelHeap × Bool
get_new_pool page size h =
    let index = size / 16 in
    if page == 0 then (h, false) else (
      set_last_checked index (h.pools_max_count index)
          (insert_pool_to page index (h.pools_max_count index) (pool_init page size h)),
      true,
    )

-- The second attempt of `alloc`, with a new pool.
unfoldable pub alloc_again : ℕ → ℕ → KernelHeap → Option (KernelHeap × ℕ)
alloc_again page size h =
    let (h', done) = get_new_pool page size h in
    let ready = set_last_checked (size / 16) (h'.pools_max_count (size / 16)) h' in
    if done
    then elim (alloc_from_slubs size ready) [
      | none ↦ none
      | some (g, result) ↦ some (g, get_data result)
    ]
    else some (h', 0)

-- `alloc` with the address of the new pages, if it asks for some; 0 is the null pointer. `none` is a
-- panic or a write through a null pointer.
unfoldable pub alloc_small : ℕ → ℕ → KernelHeap → Option (KernelHeap × ℕ)
alloc_small page size h = elim (alloc_from_slubs size h) [
  | none ↦ none
  | some (h', some result) ↦ some (h', get_data (some result))
  | some (h', none) ↦ alloc_again page size h'
]

unfoldable pub alloc_large : ℕ → ℕ → KernelHeap → Option (KernelHeap × ℕ)
alloc_large page size h =
    if page == 0
    then none
    else some (
      record h {
        headers =
            update h.headers page (record (h.headers page) { real_size = align_up size 4096 });
      },
      get_data (some page),
    )

unfoldable pub alloc : ℕ → ℕ → KernelHeap → Option (KernelHeap × ℕ)
alloc page size h =
    let size' = align_up size 16 in
    if size == 0
    then some (h, 0)
    else if leb max_size_for_slubs size'
    then alloc_large page size' h
    else alloc_small page size' h

-- What `free` does to the index last checked. The index of the entry that it writes is the size of
-- the objects: `none` when that lies behind the end of the array.
unfoldable pub raise_last_checked : ℕ → KernelHeap → Option KernelHeap
raise_last_checked pool h =
    let meta = h.pools pool in
    if ltb (h.pools_last_checked_indices (meta.object_size / 16)) meta.objects_count
    then (if ltb meta.object_size pools_sizes_count
        then some (set_last_checked meta.object_size meta.objects_count h)
        else none)
    else some h

-- The rest of `free` for a small object.
unfoldable pub put_back : ℕ → ℕ → KernelHeap → KernelHeap × Option (ℕ × ℕ)
put_back pool header h =
    let meta = h.pools pool in
    let h2 =
      pool_free pool header (cut_pool_from pool (meta.object_size / 16) meta.objects_count h) in
    let count = (h2.pools pool).objects_count in
    if count == max_count meta.object_size
    then (h2, some (pool, 4096))
    else (insert_pool_to pool (meta.object_size / 16) count h2, none)

-- `free`, with the range that it gives back to KernelVirtualAllocator::unmapAt; `none` when it
-- writes behind the end of an array.
unfoldable pub free_small : ℕ → KernelHeap → Option (KernelHeap × Option (ℕ × ℕ))
free_small header h =
    let pool = align_down header 4096 in
    elim (raise_last_checked pool h) [ none ↦ none | some h' ↦ some (put_back pool header h') ]

unfoldable pub free : ℕ → KernelHeap → Option (KernelHeap × Option (ℕ × ℕ))
free loc h =
    let header = sub64 loc header_size in
    let size = (h.headers header).real_size in
    if ltb max_size_for_slubs size then some (h, some (header, size)) else free_small header h
