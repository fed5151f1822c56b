-- ===== src/EarlyMemory.antt =====
-- The frames handed out before the page allocator is set up: YYSloth/src/memory/tmpphysalloc.cpp.
-- The areas of the memory map from `m_currentEntry` on stand as a list, so that the end of the list
-- is the end of the map. `none` is a panic.
pub mod Frames
mod Tests
use yay_os.Base.{
  ℕ, zero, suc, ◌+◌, Bool, true, false, not, ◌&&◌, Option, none, some, List, [], ◌∷◌, ltb, leb,
  if◌then◌else◌, add64,
}
use yay_os.Utils.{align_up}
use yay_os.PhysAlloc.{MemoryMapEntry, BootMemory}

pub record TempPhysAllocator : Type 0 where
  pub areas : List MemoryMapEntry
  pub current_phys_addr : ℕ

unfoldable pub after_current_memory_area : MemoryMapEntry → ℕ → Bool
after_current_memory_area e addr = ltb (add64 e.limit 4096) addr

unfoldable pub before_current_memory_area : MemoryMapEntry → ℕ → Bool
before_current_memory_area e addr = ltb addr e.base

-- The loop of AdjustMemoryArea, over the areas left.
unfoldable pub adjust : List MemoryMapEntry → ℕ → Option TempPhysAllocator
adjust [] addr = none
adjust (e ∷ es) addr =
    let moved = if before_current_memory_area e addr then align_up e.base 4096 else addr in
    let behind = adjust es addr in
    let further = adjust es moved in
    if after_current_memory_area e addr
    then behind
    else if e.available
    then some (record { areas = e ∷ es; current_phys_addr = moved })
    else further

unfoldable pub check_multiboot_overlap : BootMemory → ℕ → ℕ
check_multiboot_overlap b addr =
    if leb b.multiboot_base addr && ltb addr b.multiboot_limit then b.multiboot_limit else addr

unfoldable pub check_initrd_overlap : BootMemory → ℕ → ℕ
check_initrd_overlap b addr =
    if leb b.initrd_base addr && ltb addr b.initrd_limit then b.initrd_limit else addr

-- AdjustMemoryArea, CheckMultibootOverlap and CheckInitrdOverlap, one after the other.
unfoldable pub adjust_round : BootMemory → TempPhysAllocator → Option TempPhysAllocator
adjust_round b t = elim (adjust t.areas t.current_phys_addr) [
  | none ↦ none
  | some t' ↦ some (record t' {
    current_phys_addr = check_initrd_overlap b (check_multiboot_overlap b t'.current_phys_addr);
  })
]

-- The three rounds of `init` and `newFrame`.
unfoldable pub adjust_rounds : BootMemory → ℕ → TempPhysAllocator → Option TempPhysAllocator
adjust_rounds b zero t = some t
adjust_rounds b (suc n) t = elim (adjust_round b t) [ none ↦ none | some t' ↦ adjust_rounds b n t' ]

-- `init`, from the end of the kernel.
unfoldable pub temp_init : BootMemory → ℕ → Option TempPhysAllocator
temp_init b kernel_limit =
    adjust_rounds b 3 (record { areas = b.mmap_entries; current_phys_addr = kernel_limit })

unfoldable pub new_frame : BootMemory → TempPhysAllocator → Option (TempPhysAllocator × ℕ)
new_frame b t = elim (adjust_rounds b 3 t) [
  | none ↦ none
  | some t' ↦
      some (record t' { current_phys_addr = add64 t'.current_phys_addr 4096 }, t'.current_phys_addr)
]
