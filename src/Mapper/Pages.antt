-- ===== src/Mapper/Pages.antt =====
-- Mapping and freeing one page: `mapNewPageAt` and `freePageAt` of YYSloth/src/memory/vmmap.cpp, and
-- `walkToWithAlloc` of YYSloth/src/memory/vmbase.cpp. Tables are known by their virtual addresses; the
-- frame of a table below is filled with zeros when it is new. The invalidation of cached translations
-- is left out.
pub mod Existing
pub mod Tests
use Prim.Native.Nat.{bit_or}
use yay_os.Base.{ℕ, ◌+◌, ◌*◌, ◌/◌, Bool, true, false, not, ◌==◌, ltb, if◌then◌else◌}
use yay_os.Bits.{test_bit, set_bit, clear_bit}
use yay_os.PhysAlloc.{
  PhysAllocator, new_page, free_page, increment_ref_count, increment_map_count, decrement_map_count,
}
use yay_os.Paging.{
  present, get_addr, set_addr, assign_bit, walk_to, p4_table_virtual_address, get_p4_index,
  get_p3_index, get_p2_index, get_p1_index,
}
use yay_os.CopyOnWrite.{Memory, set_word}
use yay_os.Mapper.{PageMapper}

abbrev pub managed : ℕ → Bool
managed entry = test_bit entry 9

-- `lowFlags = 0`
abbrev pub without_low_flags : ℕ → ℕ
without_low_flags entry = entry / 4096 * 4096

abbrev pub set_allocator : PhysAllocator → Memory → Memory
set_allocator a m = record m { allocator = a }

abbrev pub zero_page : ℕ → Memory → Memory
zero_page table m = record m { tables = λ a j. if a == table then 0 else m.tables a j }

-- The entry of a new table.
abbrev pub table_entry : ℕ → Bool → ℕ
table_entry addr user =
    assign_bit 2 user (set_bit (set_bit (set_bit (without_low_flags addr) 1) 0) 9)

-- The address of the table below, 0 if there is none and no page for it. The frame of the table it
-- stands in counts one entry more, unless that is the top table.
unfoldable pub walk_to_with_alloc : ℕ → ℕ → ℕ → Bool → Memory → Memory × ℕ
walk_to_with_alloc this index current_addr user m =
    let entry = m.tables this index in
    let (a, new_addr) = new_page m.allocator in
    let counted = if current_addr == 0 then a else increment_map_count current_addr a in
    let child = walk_to this index in
    let made =
      zero_page child (set_word this index (table_entry new_addr user) (set_allocator counted m)) in
    if this == 0
    then (m, 0)
    else if present entry
    then (if user then set_word this index (set_bit entry 2) m else m, child)
    else if new_addr == 0
    then (set_allocator a m, 0)
    else (made, child)

-- The frame of a table counts one entry less; without entries it is given back, and its own entry
-- cleared.
unfoldable pub release : ℕ → ℕ → ℕ → Memory → Memory
release frame table index m =
    let (a, gone) = decrement_map_count frame m.allocator in
    if gone then set_allocator (free_page frame a) (set_word table index 0 m) else set_allocator a m

-- The indices of a virtual address, and the addresses of the tables on the way.
pub record TablePath : Type 0 where
  pub p4_index : ℕ
  pub p3_index : ℕ
  pub p2_index : ℕ
  pub p1_index : ℕ
  pub p3_table : ℕ
  pub p2_table : ℕ
  pub p1_table : ℕ

unfoldable pub table_path : ℕ → TablePath
table_path addr =
    let p3 = walk_to p4_table_virtual_address (get_p4_index addr) in
    let p2 = walk_to p3 (get_p3_index addr) in
    record {
      p4_index = get_p4_index addr;
      p3_index = get_p3_index addr;
      p2_index = get_p2_index addr;
      p1_index = get_p1_index addr;
      p3_table = p3;
      p2_table = p2;
      p1_table = walk_to p2 (get_p2_index addr);
    }

-- A page at an entry that holds none, with the frames of the tables on the way.
unfoldable pub map_absent : TablePath → ℕ → ℕ → ℕ → ℕ → ℕ → Memory → Memory × Bool
map_absent path phys_addr flags p3addr p2addr p1addr m =
    let fresh = set_bit flags 0 in
    let (a, new_addr) = new_page m.allocator in
    let own = set_addr new_addr fresh in
    let m1 = set_word path.p1_table path.p1_index own (set_allocator a m) in
    let m2 =
      release p2addr path.p3_table path.p3_index (release p1addr path.p2_table path.p2_index m1) in
    let m3 =
      if ltb path.p4_index 255
      then release p3addr p4_table_virtual_address path.p4_index m2
      else m2 in
    let given = bit_or fresh phys_addr in
    let counted = if managed given then increment_ref_count given m.allocator else m.allocator in
    let done : Memory → Memory × Bool =
      λ n. (set_allocator (increment_map_count p1addr n.allocator) n, true) in
    if phys_addr == 0
    then (if get_addr own == 0 then (set_word path.p1_table path.p1_index 0 m3, false) else done m1)
    else done (set_word path.p1_table path.p1_index given (set_allocator counted m))

-- New flags for a page that is mapped.
unfoldable pub remap : TablePath → ℕ → Memory → Memory
remap path flags m =
    let entry = m.tables path.p1_table path.p1_index in
    set_word path.p1_table path.p1_index
      (assign_bit 9 (managed entry) (bit_or (without_low_flags (clear_bit entry 63)) flags)) m

unfoldable pub map_new_page_at : ℕ → ℕ → ℕ → Memory → Memory × Bool
map_new_page_at addr phys_addr flags m =
    let user = test_bit flags 2 in
    let path = table_path addr in
    let top = p4_table_virtual_address in
    let (m1, p3) = walk_to_with_alloc top path.p4_index 0 user m in
    let p3addr = get_addr (m1.tables top path.p4_index) in
    let (m2, p2) = walk_to_with_alloc path.p3_table path.p3_index p3addr user m1 in
    let p2addr = get_addr (m2.tables path.p3_table path.p3_index) in
    let (m3, p1) = walk_to_with_alloc path.p2_table path.p2_index p2addr user m2 in
    let p1addr = get_addr (m3.tables path.p2_table path.p2_index) in
    if p3 == 0
    then (m1, false)
    else if p2 == 0
    then (release p3addr top path.p4_index m2, false)
    else if p1 == 0
    then (release p3addr top path.p4_index (release p2addr path.p3_table path.p3_index m3), false)
    else if present (m3.tables path.p1_table path.p1_index)
    then (remap path flags m3, true)
    else map_absent path phys_addr flags p3addr p2addr p1addr m3

-- What `freePageAt` does once the page is gone: a table without entries is given back, level by
-- level, as long as it is managed.
unfoldable pub free_tables : TablePath → ℕ → ℕ → ℕ → Memory → Memory
free_tables path p3addr p2addr p1addr m =
    let top = p4_table_virtual_address in
    let gone = λ (frame : ℕ) (n : Memory). (decrement_map_count frame n.allocator).1 in
    let m1 = release p1addr path.p2_table path.p2_index m in
    let m2 = release p2addr path.p3_table path.p3_index m1 in
    let m3 = release p3addr top path.p4_index m2 in
    if not (managed (m.tables path.p2_table path.p2_index))
    then m
    else if not (gone p1addr m)
    then m1
    else if not (managed (m1.tables path.p3_table path.p3_index))
    then m1
    else if not (gone p2addr m1)
    then m2
    else if ltb path.p4_index 255
    then (if managed (m2.tables top path.p4_index) then m3 else m2)
    else m2

unfoldable pub free_page_at : ℕ → Memory → Memory
free_page_at addr m =
    let path = table_path addr in
    let entry = m.tables path.p1_table path.p1_index in
    let m1 =
      if managed entry then set_allocator (free_page (get_addr entry) m.allocator) m else m in
    let m2 = set_word path.p1_table path.p1_index 0 m1 in
    let p1addr = get_addr (m2.tables path.p2_table path.p2_index) in
    let p2addr = get_addr (m2.tables path.p3_table path.p3_index) in
    let p3addr = get_addr (m2.tables p4_table_virtual_address path.p4_index) in
    free_tables path p3addr p2addr p1addr m2

-- The operations on one page that the loops over pages use.
abbrev pub page_mapper : PageMapper Memory
page_mapper = record { map_new_page_at = map_new_page_at; free_page_at = free_page_at }
