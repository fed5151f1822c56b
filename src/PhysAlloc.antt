-- ===== src/PhysAlloc.antt =====
-- The physical page allocator: YYSloth/src/memory/physalloc.cpp, PhysAllocator, over a bitmap of
-- 64-bit words with one bit for a page of 4096 bytes. The static fields are the record
-- `PhysAllocator`, with `overrun` for whether `newPage` has written counters behind the end of their
-- array; an operation returns the new record beside its result. Other accesses are in range where
-- an invariant says so; outside the arrays a read gives 0 and a write is dropped.
-- `physMutex` is not part of the state: an operation is one step.
pub mod Pages
pub mod Range
pub mod NewPage
pub mod FreePage
pub mod Init
mod Tests
use yay_os.Base.{
  ℕ, zero, suc, ◌+◌, ◌-◌, ◌*◌, ◌/◌, ◌%◌, Bool, true, false, List, [], ◌∷◌, leb, ltb, ◌==◌,
  if◌then◌else◌, set, get_or, modify, u64_mod, sub64, add64, not, ◌||◌, length,
}
use yay_os.Bits.{set_bit, clear_bit, bit_not, bit_scan_forward}
use yay_os.Utils.{align_up, align_down}

pub record PhysicalPageInfo : Type 0 where
  pub ref_count : ℕ
  pub map_count : ℕ

abbrev pub no_info : PhysicalPageInfo
no_info = record { ref_count = 0; map_count = 0 }

pub record PhysAllocator : Type 0 where
  pub bitmap : List ℕ
  pub page_info : List PhysicalPageInfo
  pub pages_count : ℕ
  pub bitmap_size : ℕ
  pub least_unchecked_index : ℕ
  pub overrun : Bool

abbrev pub word : PhysAllocator → ℕ → ℕ
word a i = get_or a.bitmap i 0

-- `for (bit = start; bit < start + n; ++bit) op(word, bit)`
unfoldable pub each_bit : (ℕ → ℕ → ℕ) → ℕ → ℕ → ℕ → ℕ
each_bit op zero start w = w
each_bit op (suc n) start w = each_bit op n (suc start) (op w start)

-- `for (i = start; i < start + n; ++i) m_bitmap[i] = value`
unfoldable pub fill_words : ℕ → ℕ → ℕ → List ℕ → List ℕ
fill_words value zero start ws = ws
fill_words value (suc n) start ws = fill_words value n (suc start) (set ws start value)

-- The part of both range operations behind their guards.
unfoldable pub update_range : (ℕ → ℕ → ℕ) → ℕ → ℕ → ℕ → List ℕ → List ℕ
update_range op value start end ws =
    let first = start / 64 in
    let last = end / 64 in
    if first == last
    then modify ws first (each_bit op (end % 64 - start % 64) (start % 64))
    else fill_words value (last - (first + 1)) (first + 1) (
        modify (modify ws first (each_bit op (64 - start % 64) (start % 64))) last
          (each_bit op (end % 64) 0))

unfoldable pub index_range : (ℕ → ℕ → ℕ) → ℕ → ℕ → ℕ → PhysAllocator → PhysAllocator
index_range op value start end a = if leb a.pages_count start then a else record a {
  bitmap =
      update_range op value start (if ltb a.pages_count end then a.pages_count else end) a.bitmap;
}

unfoldable pub bitmap_clear_index_range : ℕ → ℕ → PhysAllocator → PhysAllocator
bitmap_clear_index_range = index_range clear_bit 0

unfoldable pub bitmap_set_index_range : ℕ → ℕ → PhysAllocator → PhysAllocator
bitmap_set_index_range = index_range set_bit (u64_mod - 1)

unfoldable pub bitmap_set_range : ℕ → ℕ → PhysAllocator → PhysAllocator
bitmap_set_range base limit = bitmap_set_index_range (base / 4096) (limit / 4096)

unfoldable pub bitmap_clear_range : ℕ → ℕ → PhysAllocator → PhysAllocator
bitmap_clear_range base limit = bitmap_clear_index_range (base / 4096) (limit / 4096)

-- The bookkeeping of `newPage` once a word with a clear bit is found.
unfoldable pub claim : ℕ → ℕ → PhysAllocator → PhysAllocator
claim i index a = record a {
  bitmap = modify a.bitmap i (λ w. set_bit w index);
  page_info = set a.page_info (64 * i + index) (record { ref_count = 1; map_count = 1 });
  least_unchecked_index = i;
  overrun = a.overrun || not (ltb (64 * i + index) (length a.page_info));
}

-- The loop of `newPage`, with the rounds left, `i` and `addr`.
unfoldable pub new_page_loop : ℕ → ℕ → ℕ → PhysAllocator → PhysAllocator × ℕ
new_page_loop zero i addr a = (a, 0)
new_page_loop (suc n) i addr a =
    let rest = new_page_loop n (i + 1) (addr + 64 * 4096) a in
    let index = bit_scan_forward (bit_not (word a i)) in
    if bit_not (word a i) == 0 then rest else (claim i index a, addr + index * 4096)

unfoldable pub new_page : PhysAllocator → PhysAllocator × ℕ
unfolding new_page_loop
new_page a =
    new_page_loop (a.bitmap_size - a.least_unchecked_index) a.least_unchecked_index
      (a.least_unchecked_index * 64 * 4096) a

abbrev pub info : PhysAllocator → ℕ → PhysicalPageInfo
info a i = get_or a.page_info i no_info

unfoldable pub drop_reference : ℕ → PhysAllocator → PhysAllocator
drop_reference page a = record a {
  page_info = modify a.page_info page (λ p. record p { ref_count = sub64 p.ref_count 1 });
}

unfoldable pub copy_on_write : ℕ → PhysAllocator → PhysAllocator × ℕ
copy_on_write addr a =
    if (info a (addr / 4096)).ref_count == 1
    then (a, addr)
    else new_page (drop_reference (addr / 4096) a)

unfoldable pub free_page : ℕ → PhysAllocator → PhysAllocator
unfolding drop_reference
free_page addr a =
    let dropped = drop_reference (addr / 4096) a in
    if (info dropped (addr / 4096)).ref_count == 0
    then record dropped {
      bitmap = modify a.bitmap (addr / (4096 * 64)) (λ w. clear_bit w (addr / 4096 % 64));
      least_unchecked_index = 0;
    }
    else dropped

unfoldable pub free_pages : ℕ → ℕ → PhysAllocator → PhysAllocator
free_pages p zero a = a
free_pages p (suc count) a = free_pages (p + 4096) count (free_page p a)

unfoldable pub increment_ref_count : ℕ → PhysAllocator → PhysAllocator
increment_ref_count addr a = record a {
  page_info = modify a.page_info (addr / 4096) (λ p. record p { ref_count = add64 p.ref_count 1 });
}

unfoldable pub increment_map_count : ℕ → PhysAllocator → PhysAllocator
increment_map_count addr a = record a {
  page_info = modify a.page_info (addr / 4096) (λ p. record p { map_count = add64 p.map_count 1 });
}

unfoldable pub decrement_map_count : ℕ → PhysAllocator → PhysAllocator × Bool
decrement_map_count addr a =
    let a' : PhysAllocator = record a {
      page_info =
          modify a.page_info (addr / 4096) (λ p. record p { map_count = sub64 p.map_count 1 });
    } in
    (a', (info a' (addr / 4096)).map_count == 0)

-- What `init` reads of the boot information and the early allocator.
pub record MemoryMapEntry : Type 0 where
  pub base : ℕ
  pub limit : ℕ
  pub available : Bool

pub record BootMemory : Type 0 where
  pub upper_limit : ℕ
  pub first_unused_frame : ℕ
  pub multiboot_base : ℕ
  pub multiboot_limit : ℕ
  pub initrd_base : ℕ
  pub initrd_limit : ℕ
  pub mmap_entries : List MemoryMapEntry

unfoldable pub reserve_entries : List MemoryMapEntry → PhysAllocator → PhysAllocator
reserve_entries [] a = a
reserve_entries (e ∷ es) a =
    reserve_entries es (if e.available then a else bitmap_set_range e.base e.limit a)

-- `bitmap` and `page_info` are the contents of the memory that the early allocator returns.
unfoldable pub init : BootMemory → List ℕ → List PhysicalPageInfo → PhysAllocator
init b bitmap page_info =
    let count = b.upper_limit / 4096 in
    let a0 : PhysAllocator = record {
      bitmap = bitmap;
      page_info = page_info;
      pages_count = count;
      bitmap_size = align_up count 64 / 64;
      least_unchecked_index = 0;
      overrun = false;
    } in
    let a1 = bitmap_set_range 0 b.first_unused_frame a0 in
    let a2 =
      bitmap_set_range (align_down b.multiboot_base 4096) (align_up b.multiboot_limit 4096) a1 in
    let a3 = bitmap_set_range (align_down b.initrd_base 4096) (align_up b.initrd_limit 4096) a2 in
    let a4 = bitmap_clear_range b.first_unused_frame (count * 4096) a3 in
    record (reserve_entries b.mmap_entries a4) { least_unchecked_index = 0 }
