-- ===== src/CopyOnWrite/Tests.antt =====
-- The memory of a process with one page, which shares its frame with nobody.
use yay_os.Base.{
  ℕ, ◌*◌, ◌<◌, ◌≡◌, true, refl, false, [], ◌∷◌, ◌==◌, if◌then◌else◌, arith, length, u64_mod,
  replicate,
}
use yay_os.Bits.{test_bit, bit_scan_forward}
use yay_os.PhysAlloc.{new_page}
use yay_os.Paging.{Tables, present, cow, writable, p4_table_virtual_address, walk_to}
use yay_os.CopyOnWrite.{
  Memory, next, violation, mark_as_cow, deallocate_user_memory, check_and_move_to_next,
  clone_page_table,
}
use yay_os.CopyOnWrite.Cloning.{IsShared, clone_page_table-IsShared}
use yay_os.CopyOnWrite.Counting.{references}
use yay_os.CopyOnWrite.Faults.{allowed, check_and_move_to_next-allowed}
use yay_os.CopyOnWrite.Emptying.{deallocate-mark}

-- The frames 1 to 4 hold the tables on the way and the page, and are read, written and executed by
-- the process.
abbrev one_page : Tables
one_page table index =
    if index == 0
    then (if table == p4_table_virtual_address
        then 0x1007
        else if table == walk_to p4_table_virtual_address 0
        then 0x2007
        else if table == walk_to (walk_to p4_table_virtual_address 0) 0
        then 0x3007
        else if table == walk_to (walk_to (walk_to p4_table_virtual_address 0) 0) 0
        then 0x4007
        else 0)
    else 0

abbrev process : Memory
process = record {
  tables = one_page;
  allocator = record {
    bitmap = 31 ∷ [];
    page_info = replicate 6 (record { ref_count = 1; map_count = 1 });
    pages_count = 6;
    bitmap_size = 1;
    least_unchecked_index = 0;
    overrun = false;
  };
}

one_page-lt : (table index : ℕ) → one_page table index < u64_mod
one_page-lt table index = ground arith

deallocate-mark_example :
    ((p : ℕ)
      → p < length process.allocator.page_info
      → references process.allocator p < u64_mod
      → references (deallocate_user_memory (mark_as_cow process)).allocator p
        ≡ references process.allocator p)
    × ((i : ℕ)
        → i < 256
        → present ((deallocate_user_memory (mark_as_cow process)).tables p4_table_virtual_address i)
          ≡ false)
deallocate-mark_example = deallocate-mark process one_page-lt

-- A write from user space to the page.
check_and_move_to_next-allowed_example :
    check_and_move_to_next one_page p4_table_virtual_address 0 6 ≡ (
      if allowed (one_page p4_table_virtual_address 0) 6
      then next (walk_to p4_table_virtual_address 0)
      else violation)
unfolding test_bit
check_and_move_to_next-allowed_example =
    check_and_move_to_next-allowed one_page p4_table_virtual_address 0 6

new_page-process : (new_page process.allocator).1 ≡ 5 * 4096
unfolding new_page bit_scan_forward
new_page-process = refl

one_page-IsReadOnly :
    (table index : ℕ) → cow (one_page table index) ≡ true → writable (one_page table index) ≡ false
unfolding test_bit
one_page-IsReadOnly table index c = ground (arith, c)

clone_page_table-IsShared_example :
    ((clone_page_table true process).1 ≡ (new_page process.allocator).1)
    × IsShared ((clone_page_table true process).0.tables p4_table_virtual_address 0)
    × IsShared ((clone_page_table true process).2 0)
unfolding test_bit
clone_page_table-IsShared_example =
    clone_page_table-IsShared process 0 one_page-lt one_page-IsReadOnly
      (λ e. omega (arith, e, new_page-process)) (omega arith) refl
