-- ===== src/PhysAlloc/Tests.antt =====
-- The theorems on the page allocator at small machines.
use yay_os.Base.{
  ℕ, zero, suc, ◌*◌, ◌/◌, ◌<◌, ◌≤◌, ◌≡◌, refl, true, false, [], ◌∷◌, arith, get_or, u64_mod,
  replicate, ltb, ◌||◌, length,
}
use yay_os.PhysAlloc.{info, PhysAllocator, no_info, new_page, free_page, BootMemory, init}
use yay_os.Bits.{test_bit}
use yay_os.Utils.{align_down, align_up}
use yay_os.PhysAlloc.Pages.{is_used}
use yay_os.PhysAlloc.NewPage.{
  IsValid, IsLowestFree, Claims, new_page-lowest, new_page_beyond_memory,
}
use yay_os.PhysAlloc.FreePage.{free_page-new_page}
use yay_os.PhysAlloc.Init.{is_reserved, init-is_used}

-- The first three of 40 pages are used.
abbrev machine : PhysAllocator
machine = record {
  bitmap = 7 ∷ [];
  page_info = replicate 64 no_info;
  pages_count = 40;
  bitmap_size = 1;
  least_unchecked_index = 0;
  overrun = false;
}

word-less : (w i : ℕ) → w < u64_mod → get_or (w ∷ []) i 0 < u64_mod
word-less w zero h = h
word-less w (suc i) h = omega arith

machine-IsValid : IsValid machine
machine-IsValid = record {
  size = refl;
  words = λ i. word-less 7 i (omega arith);
  full = λ j h. absurd (omega arith);
}

new_page-lowest_example :
    (page : ℕ) × ((new_page machine).1 ≡ page * 4096)
    × IsLowestFree machine page
    × (page < length machine.page_info)
    × (info (new_page machine).0 page ≡ record { ref_count = 1; map_count = 1 })
    × ((new_page machine).0.overrun ≡ machine.overrun)
    × Claims machine page (new_page machine).0
    × IsValid (new_page machine).0
unfolding test_bit
new_page-lowest_example = new_page-lowest machine 5 machine-IsValid (omega arith) (omega arith) refl

free_page-new_page_example :
    is_used (free_page (new_page machine).1 (new_page machine).0) 3 ≡ is_used machine 3
unfolding test_bit
free_page-new_page_example =
    free_page-new_page machine 5 machine-IsValid (omega arith) (omega arith) refl 3

-- A machine with three pages, all used.
abbrev full_machine : PhysAllocator
full_machine = record machine { pages_count = 3; page_info = replicate 3 no_info }

three : (q : ℕ) → q < 3 → is_used full_machine q ≡ true
unfolding test_bit
three zero h = refl
three (suc zero) h = refl
three (suc (suc zero)) h = refl
three (suc (suc (suc q))) h = absurd (omega arith)

full_machine-IsValid : IsValid full_machine
full_machine-IsValid = record {
  size = refl;
  words = λ i. word-less 7 i (omega arith);
  full = λ j h. absurd (omega arith);
}

new_page_beyond_memory_example :
    (full_machine.pages_count * 4096 ≤ (new_page full_machine).1)
    × ((new_page full_machine).0.overrun ≡ true)
unfolding test_bit
new_page_beyond_memory_example =
    new_page_beyond_memory full_machine 3 full_machine-IsValid three (omega arith) refl refl

-- Page 3 has one owner, page 2 has two.
abbrev shared_machine : PhysAllocator
shared_machine = record {
  bitmap = 15 ∷ [];
  page_info =
      no_info
      ∷ no_info
      ∷ record { ref_count = 2; map_count = 2 }
      ∷ record { ref_count = 1; map_count = 1 }
      ∷ no_info
      ∷ [];
  pages_count = 40;
  bitmap_size = 1;
  least_unchecked_index = 0;
  overrun = false;
}

-- 16 pages: the first unused frame is page 2, pages 8 and 9 are not available.
abbrev boot : BootMemory
boot = record {
  upper_limit = 65536;
  first_unused_frame = 8192;
  multiboot_base = 16384;
  multiboot_limit = 20480;
  initrd_base = 24576;
  initrd_limit = 28672;
  mmap_entries = record { base = 32768; limit = 40960; available = false } ∷ [];
}

init-is_used_example :
    is_used (init boot (0 ∷ []) []) 4
    ≡ (is_reserved boot.mmap_entries 4 || ltb 4 (boot.first_unused_frame / 4096))
unfolding align_down align_up
init-is_used_example =
    init-is_used boot (0 ∷ []) [] 4
      (record {
        entries = (omega arith, tt);
        frame = omega arith;
        multiboot = omega arith;
        initrd = omega arith;
      })
      (omega arith) (omega arith)
