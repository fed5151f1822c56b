-- ===== src/Heap/Sizes.antt =====
-- The sizes of objects of the kernel heap, YYSloth/src/memory/kheap.cpp: what a header says of its
-- object, how far a large object reaches, and what `free` does by the size.
use yay_os.Base.{
  ℕ, zero, suc, ◌+◌, ◌-◌, ◌*◌, ◌/◌, ◌%◌, ◌≤◌, ◌<◌, ◌≡◌, ◌↔◌, refl, ◌∙◌, false, Option, some, none,
  arith, ◌==◌, ltb, add64, sub64, u64_mod, lt→ltb, le→leb, Option-cases, Bool-cases, inl, inr,
}
use yay_os.Utils.{align_up, align_down}
use yay_os.Pools.{update}
use yay_os.Heap.{
  KernelHeap, ObjectHeader, header_at, link_headers, set_next_object, pool_init, pool_alloc,
  cut_pool_from, insert_pool_to, set_last_checked, take_object, alloc_loop, alloc_from_slubs,
  get_new_pool, alloc_small, alloc_again, header_size, max_size_for_slubs, alloc_large, alloc, free,
  free_small, raise_last_checked, get_data, max_count, pools_sizes_count,
}

align_up-eq : (size : ℕ) → size % 16 ≡ 0 → size + 4096 < u64_mod → align_up size 16 ≡ size
unfolding align_up
align_up-eq size even small = omega (arith, even, small)

-- No header says another size.
abbrev SameSizes : KernelHeap → KernelHeap → Type 0
SameSizes h g = (a : ℕ) → (g.headers a).real_size ≡ (h.headers a).real_size

link_headers-real_size :
    (n pool size i : ℕ) (f : ℕ → ObjectHeader) (a : ℕ)
    → (link_headers n pool size i f a).real_size ≡ (f a).real_size
unfolding link_headers
link_headers-real_size zero pool size i f a = refl
link_headers-real_size (suc n) pool size i f a =
    link_headers-real_size n pool size (suc i)
      (set_next_object (header_at pool size i) (some (header_at pool size (suc i))) f) a
    ∙ ground arith

pool_init-SameSizes : (page size : ℕ) (h : KernelHeap) → SameSizes h (pool_init page size h)
unfolding pool_init
pool_init-SameSizes page size h a = ground (
  arith,
  link_headers-real_size (sub64 (max_count size) 1) page size 0 h.headers a,
  link_headers-real_size (sub64 (max_count size) 1) page size 0 h.headers
      (header_at page size (sub64 (max_count size) 1)),
)

take_object-SameSizes : (index pool : ℕ) (h : KernelHeap) → SameSizes h (take_object index pool h).0
unfolding take_object pool_alloc cut_pool_from insert_pool_to
take_object-SameSizes index pool h a = ground arith

alloc_loop-SameSizes : (fuel index : ℕ) (h : KernelHeap) → SameSizes h (alloc_loop fuel index h).0
unfolding alloc_loop
alloc_loop-SameSizes zero index h a = refl
alloc_loop-SameSizes (suc fuel) index h a =
    let last = h.pools_last_checked_indices index in
    elim (Bool-cases (ltb last (add64 (h.pools_max_count index) 1))) [
      | inr e ↦ rw (alloc_loop, e) refl
      | inl e ↦ elim (Option-cases (h.pool_heads index last)) [
        | inl n ↦
            rw (alloc_loop, e, n)
              (alloc_loop-SameSizes fuel index (set_last_checked index (add64 last 1) h) a)
        | inr (pool, n) ↦ rw (alloc_loop, e, n) (take_object-SameSizes index pool h a)
      ]
    ]

alloc_from_slubs-SameSizes :
    (size : ℕ) (h : KernelHeap) (r : KernelHeap × Option ℕ)
    → alloc_from_slubs size h ≡ some r
    → SameSizes h r.0
unfolding alloc_from_slubs
alloc_from_slubs-SameSizes size h r e a =
    let index = size / 16 in
    ground (
      arith,
      e,
      alloc_loop-SameSizes (h.pools_max_count index + 2 - h.pools_last_checked_indices index) index
          h a,
    )

get_new_pool-SameSizes : (page size : ℕ) (h : KernelHeap) → SameSizes h (get_new_pool page size h).0
unfolding get_new_pool insert_pool_to
get_new_pool-SameSizes page size h a = ground (arith, pool_init-SameSizes page size h a)

alloc_again-SameSizes :
    (page size : ℕ) (h : KernelHeap) (r : KernelHeap × ℕ)
    → alloc_again page size h ≡ some r
    → SameSizes h r.0
unfolding alloc_again
alloc_again-SameSizes page size h r e a =
    let g = (get_new_pool page size h).0 in
    let g' = set_last_checked (size / 16) (g.pools_max_count (size / 16)) g in
    let new = get_new_pool-SameSizes page size h a in
    elim (Bool-cases ((get_new_pool page size h).1)) [
      | inr n ↦ ground (arith, e, n, new)
      | inl n ↦ elim (Option-cases (alloc_from_slubs size g')) [
        | inl f ↦ cc (e, n, f)
        | inr (q, f) ↦ ground (arith, e, n, f, new, alloc_from_slubs-SameSizes size g' q f a)
      ]
    ]

alloc_small-SameSizes :
    (page size : ℕ) (h : KernelHeap) (r : KernelHeap × ℕ)
    → alloc_small page size h ≡ some r
    → SameSizes h r.0
unfolding alloc_small
alloc_small-SameSizes page size h r e a = elim (Option-cases (alloc_from_slubs size h)) [
  | inl f ↦ ground (arith, e, f)
  | inr ((g, o), f) ↦
      let same = alloc_from_slubs-SameSizes size h (g, o) f a in
      elim (Option-cases o) [
        | inl n ↦
            let e' : alloc_again page size g ≡ some r = ground (arith, e, f, n) in
            alloc_again-SameSizes page size g r e' a ∙ same
        | inr (x, n) ↦ ground (arith, e, f, n, same)
      ]
]

-- A header that held more than 2000 before its object was allocated makes `free` of that object give
-- back as many bytes of pages, from the header on.
pub free-alloc_small :
    (page size loc : ℕ) (h h' : KernelHeap)
    → alloc_small page size h ≡ some (h', loc)
    → header_size ≤ loc
    → loc < u64_mod
    → max_size_for_slubs < (h.headers (loc - header_size)).real_size
    → free loc h' ≡ some (h', some (loc - header_size, (h.headers (loc - header_size)).real_size))
unfolding free
free-alloc_small page size loc h h' e low high more =
    let same = alloc_small-SameSizes page size h (h', loc) e (loc - header_size) in
    let at : sub64 loc header_size ≡ loc - header_size = omega (arith, low, high) in
    rw (free, at, same, lt→ltb _ _ more) refl

fits :
    (size : ℕ)
    → size % 16 ≡ 0
    → size + 4096 < u64_mod
    → (page : ℕ) → (page + header_size + size ≤ page + align_up size 4096) ↔ (0 < size % 4096)
unfolding align_up
fits size even small page = (λ h. omega (arith, h, even, small), λ h. omega (arith, h, even, small))

-- A large object has its own pages behind its header, and fits into them exactly if its size is not
-- a multiple of the size of a page.
pub alloc_large-fits :
    (page size : ℕ) (h : KernelHeap)
    → 0 < page
    → size % 16 ≡ 0
    → max_size_for_slubs ≤ size
    → size + 4096 < u64_mod
    → (h' : KernelHeap) × (alloc page size h ≡ some (h', page + header_size))
      × ((h'.headers page).real_size ≡ align_up size 4096)
      × ((page + header_size + size ≤ page + (h'.headers page).real_size) ↔ (0 < size % 4096))
unfolding alloc alloc_large get_data
alloc_large-fits page size h pos even large small =
    let whole : align_up size 16 ≡ size = align_up-eq size even small in
    let ne : (size == 0) ≡ false = ground (arith, large) in
    let ne' : (page == 0) ≡ false = ground (arith, pos) in
    let h' = record h {
      headers = update h.headers page (record (h.headers page) { real_size = align_up size 4096 });
    } in
    let real : (h'.headers page).real_size ≡ align_up size 4096 = ground arith in
    (
      h',
      rw (alloc, whole, ne, le→leb _ _ large, alloc_large, ne', get_data) refl,
      real,
      rw real (fits size even small page),
    )

-- When an object of 128 bytes or more is given back to a pool with more free objects than the index
-- last checked, `free` writes behind the end of the array of these indices.
pub free_small-last_checked :
    (x s : ℕ) (h : KernelHeap)
    → 8 ≤ s
    → (h.pools (align_down x 4096)).object_size ≡ 16 * s
    → h.pools_last_checked_indices s < (h.pools (align_down x 4096)).objects_count
    → free_small x h ≡ none
unfolding free_small raise_last_checked
free_small-last_checked x s h large size less =
    let e : 16 * s / 16 ≡ s = omega arith in
    let outside : ltb (16 * s) pools_sizes_count ≡ false = ground (arith, large) in
    rw (free_small, raise_last_checked, size, e, lt→ltb _ _ less, outside) refl
