-- ===== src/PhysAlloc/Init.antt =====
-- `PhysAllocator::init`: the bitmap that the boot information leads to.
use yay_os.Base.{
  ℕ, ◌-◌, ◌*◌, ◌/◌, ◌≤◌, ◌<◌, ◌≡◌, refl, inl, inr, Bool, false, List, [], ◌∷◌, arith, length,
  Bool-cases, not, ◌&&◌, ◌||◌, ltb, u64_mod,
}
use yay_os.Bits.{set_bit, clear_bit}
use yay_os.Utils.{align_up, align_down}
use yay_os.PhysAlloc.{
  PhysAllocator, PhysicalPageInfo, MemoryMapEntry, BootMemory, bitmap_set_index_range,
  bitmap_clear_index_range, bitmap_set_range, bitmap_clear_range, reserve_entries, init,
}
use yay_os.PhysAlloc.Pages.{is_used}
use yay_os.PhysAlloc.Range.{within, set_range-pages, clear_range-pages, index_range-sizes}

-- The page lies in an entry of the memory map that is not available.
abbrev pub is_reserved : List MemoryMapEntry → ℕ → Bool
is_reserved [] page = false
is_reserved (e ∷ es) page =
    (not e.available && within (e.base / 4096) (e.limit / 4096) page) || is_reserved es page

abbrev pub AreOrdered : List MemoryMapEntry → Type 0
AreOrdered [] = Unit {0}
AreOrdered (e ∷ es) = (e.base ≤ e.limit) × AreOrdered es

-- A state in front of a range operation, with what the operation keeps.
abbrev pub Sized : ℕ → PhysAllocator → Type 0
Sized count a = (a.pages_count ≡ count) × (count ≤ 64 * length a.bitmap)

module _ (count base limit : ℕ) (a : PhysAllocator) (s : Sized count a) where
  set-Sized : Sized count (bitmap_set_range base limit a)
  unfolding bitmap_set_range bitmap_set_index_range
  set-Sized =
      ground (arith, s, index_range-sizes set_bit (u64_mod - 1) (base / 4096) (limit / 4096) a)

  clear-Sized : Sized count (bitmap_clear_range base limit a)
  unfolding bitmap_clear_range bitmap_clear_index_range
  clear-Sized = ground (arith, s, index_range-sizes clear_bit 0 (base / 4096) (limit / 4096) a)

  set-is_used :
      (page : ℕ)
      → base ≤ limit
      → is_used (bitmap_set_range base limit a) page
        ≡ ((within (base / 4096) (limit / 4096) page && ltb page count) || is_used a page)
  unfolding bitmap_set_range
  set-is_used page h = ground (
    arith,
    set_range-pages a (base / 4096) (limit / 4096) page (record { covers = omega arith })
        (omega arith),
  )

  clear-is_used :
      (page : ℕ)
      → base ≤ limit
      → is_used (bitmap_clear_range base limit a) page
        ≡ (not (within (base / 4096) (limit / 4096) page && ltb page count) && is_used a page)
  unfolding bitmap_clear_range
  clear-is_used page h = ground (
    arith,
    clear_range-pages a (base / 4096) (limit / 4096) page (record { covers = omega arith })
        (omega arith),
  )

reserve-Sized :
    (count : ℕ) (es : List MemoryMapEntry) (a : PhysAllocator)
    → Sized count a
    → Sized count (reserve_entries es a)
unfolding reserve_entries
reserve-Sized count [] a s = s
reserve-Sized count (e ∷ es) a s = elim (Bool-cases e.available) [
  | inl keep ↦ rw keep (reserve-Sized count es a s)
  | inr take ↦ rw take (reserve-Sized count es _ (set-Sized count e.base e.limit a s))
]

reserve-is_used :
    (count : ℕ) (es : List MemoryMapEntry) (a : PhysAllocator) (page : ℕ)
    → Sized count a
    → AreOrdered es
    → page < count
    → is_used (reserve_entries es a) page ≡ (is_reserved es page || is_used a page)
unfolding reserve_entries
reserve-is_used count [] a page s o h = refl
reserve-is_used count (e ∷ es) a page s o h = elim (Bool-cases e.available) [
  | inl keep ↦ rw keep (reserve-is_used count es a page s o.1 h)
  | inr take ↦ rw take (
      ground (
        arith,
        reserve-is_used count es (bitmap_set_range e.base e.limit a) page
            (set-Sized count e.base e.limit a s) o.1 h,
        set-is_used count e.base e.limit a s page o.0,
      ))
]

-- What the boot information must satisfy: the regions are ordered, and the first frame that the
-- early allocator has not used lies in memory.
pub record IsBootMemory (b : BootMemory) : Type 0 where
  pub entries : AreOrdered b.mmap_entries
  pub frame : b.first_unused_frame ≤ b.upper_limit / 4096 * 4096
  pub multiboot : align_down b.multiboot_base 4096 ≤ align_up b.multiboot_limit 4096
  pub initrd : align_down b.initrd_base 4096 ≤ align_up b.initrd_limit 4096

-- For boot information as described above and a bitmap with a bit for every page of memory, after
-- `init` a page of memory is used exactly if it lies below the first unused frame or in an
-- unavailable entry of the memory map. The marks for the multiboot information and the initial
-- ramdisk leave no trace, since the range from the first unused frame on is cleared behind them.
pub init-is_used :
    (b : BootMemory) (bitmap : List ℕ) (infos : List PhysicalPageInfo) (page : ℕ)
    → IsBootMemory b
    → b.upper_limit / 4096 ≤ 64 * length bitmap
    → page < b.upper_limit / 4096
    → is_used (init b bitmap infos) page
      ≡ (is_reserved b.mmap_entries page || ltb page (b.first_unused_frame / 4096))
unfolding init
init-is_used b bitmap infos page ok big h =
    let count = b.upper_limit / 4096 in
    let a0 : PhysAllocator = record {
      bitmap = bitmap;
      page_info = infos;
      pages_count = count;
      bitmap_size = align_up count 64 / 64;
      least_unchecked_index = 0;
      overrun = false;
    } in
    let s0 : Sized count a0 = (refl, big) in
    let a1 = bitmap_set_range 0 b.first_unused_frame a0 in
    let s1 = set-Sized count 0 b.first_unused_frame a0 s0 in
    let mb = align_down b.multiboot_base 4096 in
    let ml = align_up b.multiboot_limit 4096 in
    let a2 = bitmap_set_range mb ml a1 in
    let s2 = set-Sized count mb ml a1 s1 in
    let ib = align_down b.initrd_base 4096 in
    let il = align_up b.initrd_limit 4096 in
    let a3 = bitmap_set_range ib il a2 in
    let s3 = set-Sized count ib il a2 s2 in
    let a4 = bitmap_clear_range b.first_unused_frame (count * 4096) a3 in
    let s4 = clear-Sized count b.first_unused_frame (count * 4096) a3 s3 in
    ground (
      arith,
      reserve-is_used count b.mmap_entries a4 page s4 ok.entries h,
      clear-is_used count b.first_unused_frame (count * 4096) a3 s3 page ok.frame,
      set-is_used count ib il a2 s2 page ok.initrd,
      set-is_used count mb ml a1 s1 page ok.multiboot,
      set-is_used count 0 b.first_unused_frame a0 s0 page (omega arith),
    )
