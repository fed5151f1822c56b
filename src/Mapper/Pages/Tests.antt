-- ===== src/Mapper/Pages/Tests.antt =====
-- Mapping one page at an address whose tables exist, and at one whose lowest table does not.
use yay_os.Base.{◌≡◌, refl, Bool, false, [], ◌==◌, if◌then◌else◌, arith, replicate}
use yay_os.Bits.{test_bit}
use yay_os.PhysAlloc.{PhysAllocator, new_page, decrement_map_count}
use yay_os.Paging.{
  Tables, get_addr, get_p4_index, get_p3_index, get_p2_index, get_p1_index,
  p4_table_virtual_address, walk_to,
}
use yay_os.CopyOnWrite.{Memory}
use yay_os.Mapper.Pages.{table_path, map_new_page_at}
use yay_os.Mapper.Pages.Existing.{map_new_page_at-clears}

-- The tables on the way to the first pages of memory, without the lowest one if that is asked for,
-- and no free page.
abbrev tables_to : Bool → Tables
tables_to whole table index =
    if index == 0
    then (if table == p4_table_virtual_address
        then 0x1003
        else if table == walk_to p4_table_virtual_address 0
        then 0x2003
        else if table == walk_to (walk_to p4_table_virtual_address 0) 0
        then (if whole then 0x3003 else 0)
        else 0)
    else 0

abbrev full_machine : PhysAllocator
full_machine = record {
  bitmap = [];
  page_info = replicate 6 (record { ref_count = 1; map_count = 1 });
  pages_count = 6;
  bitmap_size = 0;
  least_unchecked_index = 0;
  overrun = false;
}

abbrev pub memory : Bool → Memory
memory whole = record { tables = tables_to whole; allocator = full_machine }

map_new_page_at-clears_example :
    ((map_new_page_at 0 0 3 (memory false)).1 ≡ false)
    × ((map_new_page_at 0 0 3 (memory false)).0.tables
          (table_path 0).p3_table
          (table_path 0).p3_index
        ≡ 0)
unfolding table_path get_p4_index get_p3_index get_p2_index get_p1_index walk_to test_bit new_page
    decrement_map_count get_addr
map_new_page_at-clears_example =
    map_new_page_at-clears 0 0 3 (memory false) refl refl refl full_machine (omega arith) refl refl
      refl
