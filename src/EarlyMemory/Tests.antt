-- ===== src/EarlyMemory/Tests.antt =====
-- The early allocator on a machine with two areas, and the loader's information in the first.
use yay_os.Base.{◌+◌, ◌≤◌, ◌≡◌, refl, true, some, [], ◌∷◌, arith, add64}
use yay_os.Utils.{align_up}
use yay_os.PhysAlloc.{MemoryMapEntry, BootMemory}
use yay_os.EarlyMemory.{
  TempPhysAllocator, new_frame, adjust, adjust_round, adjust_rounds, check_multiboot_overlap,
  check_initrd_overlap, after_current_memory_area, before_current_memory_area,
}
use yay_os.EarlyMemory.Frames.{at_area, new_frame-lt, new_frame-area}

abbrev first_area : MemoryMapEntry
first_area = record { base = 0; limit = 0x10000; available = true }

abbrev second_area : MemoryMapEntry
second_area = record { base = 0x20000; limit = 0x40000; available = true }

abbrev machine : BootMemory
machine = record {
  upper_limit = 0x40000;
  first_unused_frame = 0;
  multiboot_base = 0x3000;
  multiboot_limit = 0x4000;
  initrd_base = 0;
  initrd_limit = 0;
  mmap_entries = first_area ∷ second_area ∷ [];
}

abbrev start : TempPhysAllocator
start = at_area first_area (second_area ∷ []) 0x2000

frame_behind : new_frame machine start ≡ some (at_area first_area (second_area ∷ []) 0x3000, 0x2000)
unfolding new_frame adjust_rounds adjust_round adjust check_multiboot_overlap check_initrd_overlap
    after_current_memory_area before_current_memory_area align_up
frame_behind = refl

-- The frame of the loader's information is left out.
frame_skips :
    new_frame machine (at_area first_area (second_area ∷ []) 0x3000)
    ≡ some (at_area first_area (second_area ∷ []) 0x5000, 0x4000)
unfolding new_frame adjust_rounds adjust_round adjust check_multiboot_overlap check_initrd_overlap
    after_current_memory_area before_current_memory_area align_up
frame_skips = refl

new_frame-lt_example : (0x2000 ≤ 0x2000) × (0x2000 + 4096 ≤ 0x4000)
new_frame-lt_example =
    new_frame-lt machine start (at_area first_area (second_area ∷ []) 0x3000)
      (at_area first_area (second_area ∷ []) 0x5000) 0x2000 0x4000 (omega arith, (omega arith, tt))
      (omega arith) frame_behind frame_skips

-- A page behind the limit of the first area.
new_frame-area_example :
    new_frame machine (at_area first_area (second_area ∷ []) 0x11000)
    ≡ some (at_area first_area (second_area ∷ []) (add64 0x11000 4096), 0x11000)
unfolding check_multiboot_overlap check_initrd_overlap
new_frame-area_example =
    new_frame-area machine first_area (second_area ∷ []) 0x11000 refl (omega arith) (omega arith)
      (omega arith) refl
