-- ===== src/CopyOnWrite.antt =====
-- Sharing and freeing the memory of a process: the class CoW of YYSloth/src/memory/cow.cpp. A table
-- is known by its virtual address, as the last entry of the top table makes it; the page counters
-- are those of the physical page allocator. The invalidation of cached translations is left out.
pub mod Entries
pub mod Counting
pub mod Sharing
pub mod Faults
pub mod Disposal
pub mod Emptying
pub mod Cloning
mod Tests
use yay_os.Base.{ℕ, zero, suc, ◌+◌, ◌/◌, Bool, true, false, ◌==◌, if◌then◌else◌, ltb, ◌&&◌, not}
use yay_os.Bits.{test_bit}
use yay_os.PhysAlloc.{PhysAllocator, increment_ref_count, free_page, new_page}
use yay_os.Paging.{
  Tables, present, writable, user_accessible, cow, was_writable, assign_bit, get_addr, set_addr,
  walk_to, p4_table_virtual_address,
}

pub record Memory : Type 0 where
  pub tables : Tables
  pub allocator : PhysAllocator

abbrev pub set_word : ℕ → ℕ → ℕ → Memory → Memory
set_word table i w m = record m {
  tables = λ a j. if a == table then (if j == i then w else m.tables a j) else m.tables a j;
}

-- An entry that is shared: what it allowed is kept beside, and writing is forbidden.
unfoldable pub protect : ℕ → ℕ
protect entry =
    if cow entry
    then entry
    else assign_bit 10 true (assign_bit 1 false (assign_bit 11 (writable entry) entry))

-- `for (i = first; i < first + n; ++i)` over the entries of a table.
unfoldable pub each_entry : (ℕ → ℕ → Memory → Memory) → ℕ → ℕ → ℕ → Memory → Memory
each_entry op zero i table m = m
each_entry op (suc n) i table m = each_entry op n (suc i) table (op i table m)

-- The body of the loops of markAsCoW and markAsCoWRec, with the call for the next level.
unfoldable pub mark_entry : (ℕ → Memory → Memory) → ℕ → ℕ → Memory → Memory
mark_entry next i table m = elim (present (m.tables table i)) [
  | false ↦ m
  | true ↦
      let m1 = set_word table i (protect (m.tables table i)) m in
      next (walk_to table i)
        (record m1 { allocator = increment_ref_count (get_addr (m1.tables table i)) m1.allocator })
]

unfoldable pub mark_as_cow_rec : ℕ → ℕ → Memory → Memory
mark_as_cow_rec zero table m = m
mark_as_cow_rec (suc level) table m = each_entry (mark_entry (mark_as_cow_rec level)) 512 0 table m

unfoldable pub mark_as_cow : Memory → Memory
mark_as_cow = each_entry (mark_entry (mark_as_cow_rec 3)) 256 0 p4_table_virtual_address

-- The body of the loop of disposePageTableRec, with the call for the next level.
unfoldable pub dispose_entry : (ℕ → Memory → Memory) → ℕ → ℕ → Memory → Memory
dispose_entry next i table m = elim (present (m.tables table i)) [
  | false ↦ m
  | true ↦
      let m1 = next (walk_to table i) m in
      record m1 { allocator = free_page (get_addr (m1.tables table i)) m1.allocator }
]

unfoldable pub dispose_page_table_rec : ℕ → ℕ → Memory → Memory
dispose_page_table_rec zero addr m = m
dispose_page_table_rec (suc level) addr m =
    each_entry (dispose_entry (dispose_page_table_rec level)) 512 0 addr m

-- The body of the loop of deallocateUserMemory.
unfoldable pub deallocate_entry : ℕ → ℕ → Memory → Memory
deallocate_entry i table m = elim (present (m.tables table i)) [
  | false ↦ m
  | true ↦ set_word table i 0 (dispose_entry (dispose_page_table_rec 3) i table m)
]

unfoldable pub deallocate_user_memory : Memory → Memory
deallocate_user_memory = each_entry deallocate_entry 256 0 p4_table_virtual_address

-- The entries of the new top table, in memory that is mapped for the copy.
unfoldable pub top_copy : ℕ → Memory → ℕ → ℕ
top_copy frame m i =
    let entry = m.tables p4_table_virtual_address i in
    if i == 511 then set_addr frame entry else entry

-- `clonePageTable`, with whether the new frame can be mapped: the frame, 0 on failure, and what
-- the frame then holds.
unfoldable pub clone_page_table : Bool → Memory → Memory × ℕ × (ℕ → ℕ)
clone_page_table mapped m =
    let (a, frame) = new_page m.allocator in
    let marked = mark_as_cow (record m { allocator = a }) in
    if frame == 0
    then (record m { allocator = a }, 0, λ i. 0)
    else if mapped
    then (marked, frame, top_copy frame marked)
    else (record m { allocator = free_page frame a }, 0, λ i. 0)

-- What an access that faults does at one level: go on in the next table, stop the process, or stop
-- the machine.
pub data Access : Type 0 where
  next : ℕ → Access
  violation : Access
  kernel_panic : Access

unfoldable pub check_and_move_to_next : Tables → ℕ → ℕ → ℕ → Access
check_and_move_to_next t current index error_code =
    let entry = t current index in
    let from_userspace = test_bit error_code 2 in
    let writable_access = test_bit error_code 1 in
    let instruction_fetch = test_bit error_code 4 in
    let refused = if from_userspace then violation else kernel_panic in
    if not (present entry)
    then refused
    else if not (user_accessible entry) && from_userspace
    then violation
    else if instruction_fetch && test_bit entry 63
    then refused
    else if cow entry
    then next (walk_to current index)
    else if writable_access && not (writable entry)
    then refused
    else next (walk_to current index)
