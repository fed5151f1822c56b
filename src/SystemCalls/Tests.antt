-- ===== src/SystemCalls/Tests.antt =====
-- The system calls on a process with one open ramdisk file, where users may write every page.
use yay_os.Base.{
  ℕ, ◌+◌, ◌^◌, ◌<◌, ◌≡◌, subst, refl, Bool, true, false, Option, none, some, List, [], ◌∷◌, arith,
  ◌==◌, not, ◌&&◌, ◌||◌, if◌then◌else◌, replicate, length, take, drop,
}
use yay_os.Base.Int.{pos}
use yay_os.Bits.{test_bit}
use yay_os.Utils.{align_up, align_down}
use yay_os.Paging.{Tables, get_p4_index, get_p3_index, get_p2_index, get_p1_index, walk_to}
use yay_os.Security.{
  is_p_writable, entries_check, virtual_page_condition_check, range_loop,
  virtual_range_condition_check, string_loop, validate_c_string,
}
use yay_os.DynArray.Contents.{IsValid}
use yay_os.DynArray.{at}
use yay_os.Descriptor.{LocalDescriptorHandle, empty_handle, Handles, get_descriptor, shrunk_size}
use yay_os.Files.{ramdisk_file}
use yay_os.Mapper.{PageMapper, free_pages, free_loop}
use yay_os.Mapper.Pages.{page_mapper}
use yay_os.Mapper.Pages.Tests.{memory}
use yay_os.CopyOnWrite
use yay_os.UserMemory.{area, free, find_last_before, give_back, join, find_right, add64, sub64}
use yay_os.Ramdisk.{RamdiskFileView}
use yay_os.Ramdisk.Reading.{count}
use yay_os.Ramdisk
use yay_os.SystemCalls.{State, on_file, read_file, put, max_open_file_path}
use yay_os.SystemCalls.Reading.{IsOpen, with_file, stored, read_file-ramdisk, read_file-within}
use yay_os.SystemCalls.Opening.{IsFit, call, open_file-null}
use yay_os.SystemCalls.Memory.{Space, virtual_alloc, virtual_free, Outcomes, virtual_alloc_lem}
use yay_os.SystemCalls.Status.{Processes}

abbrev open_tables : Tables
open_tables table index = 7

abbrev view : RamdiskFileView
view = record { node = record { file_size = 3; contents = 7 ∷ 8 ∷ 9 ∷ [] }; file_offset = 1 }

view-IsValid : Ramdisk.Reading.IsValid view
view-IsValid = record { inside = omega arith; small = omega arith; stored = refl }

abbrev table : Handles
table = record {
  items = record { handle = some 11; close_on_exec = false } ∷ replicate 15 empty_handle;
  size = 1;
  capacity = 16;
  disposed = true;
}

table-IsValid : IsValid table
table-IsValid = record { allocated = refl; room = omega arith }

abbrev state : State RamdiskFileView
state = record {
  table = table;
  handles = put (λ a. none) 11 (some (record { val = 21; ref_count = 1 }));
  files = put (λ a. none) 21 (some view);
}

state-IsOpen : IsOpen (pos 0) state view
unfolding get_descriptor at
state-IsOpen = record {
  handle = 11;
  shared = record { val = 21; ref_count = 1 };
  in_table = refl;
  alive = refl;
  stored = refl;
}

range_passes : virtual_range_condition_check open_tables 8190 4 true true false ≡ true
unfolding virtual_range_condition_check range_loop align_up align_down virtual_page_condition_check
    get_p4_index get_p3_index get_p2_index get_p1_index walk_to entries_check test_bit is_p_writable
range_passes = refl

read_file-ramdisk_example :
    read_file ramdisk_file open_tables (pos 0) 8190 (pos 4) state
    ≡ some (
      with_file state-IsOpen (record view { file_offset = view.file_offset + count 4 view }),
      pos (count 4 view),
      take (count 4 view) (drop view.file_offset view.node.contents),
    )
read_file-ramdisk_example =
    read_file-ramdisk open_tables (pos 0) 8190 4 state view state-IsOpen view-IsValid (omega arith)
      range_passes

abbrev Holds : Option RamdiskFileView → Type 0
Holds none = Unit
Holds (some v) = Ramdisk.Reading.IsValid v

state-IsValid : (a : ℕ) (v : RamdiskFileView) → state.files a ≡ some v → Ramdisk.Reading.IsValid v
state-IsValid a v h = subst Holds h (each (a == 21))
  where
    each : (here : Bool) → Holds (if here then some view else none)
    each true = view-IsValid
    each false = tt

two_stored : 1 < length (stored (read_file ramdisk_file open_tables (pos 0) 8190 (pos 4) state))
unfolding read_file on_file ramdisk_file Ramdisk.read get_descriptor at
    virtual_range_condition_check range_loop align_up align_down virtual_page_condition_check
    get_p4_index get_p3_index get_p2_index get_p1_index walk_to entries_check test_bit is_p_writable
two_stored = omega arith

read_file-within_example :
    virtual_page_condition_check open_tables (8190 + 1) true true false ≡ true
read_file-within_example =
    read_file-within open_tables (pos 0) 8190 4 state state-IsValid (omega arith) (omega arith) 1
      two_stored

table-IsFit : IsFit table
unfolding shrunk_size at
table-IsFit = record {
  valid = table-IsValid;
  space = omega arith;
  small = omega arith;
  shrunk = refl;
}

abbrev path_bytes : ℕ → ℕ
path_bytes a = 0

abbrev no_memory : ℕ → Option (List LocalDescriptorHandle)
no_memory n = none

abbrev keep : ℕ → LocalDescriptorHandle → LocalDescriptorHandle → LocalDescriptorHandle
keep n a b = a

abbrev opens : ℕ → Bool → Option RamdiskFileView
opens path writable = if writable then none else some view

path_passes :
    validate_c_string open_tables path_bytes 4096 true false false max_open_file_path ≡ true
unfolding validate_c_string string_loop align_down virtual_page_condition_check get_p4_index
    get_p3_index get_p2_index get_p1_index walk_to entries_check test_bit is_p_writable
path_passes = ground arith

open_file-null_example :
    (k : ℕ) × ((call keep no_memory open_tables path_bytes opens 22 12 4096 false state).1 ≡ pos k)
    × (get_descriptor
          (pos k)
          ((call keep no_memory open_tables path_bytes opens 22 12 4096 false state).0).table
        ≡ none)
open_file-null_example =
    open_file-null keep no_memory open_tables path_bytes opens 22 12 4096 false view state
      table-IsFit path_passes refl

-- A memory whose machine has no free page: the first page cannot be mapped.
abbrev space : Space CopyOnWrite.Memory
space = record { areas = area 4096 (2 ^ 46) ∷ []; memory = memory true }

virtual_alloc_lem_example :
    Outcomes page_mapper true 8192 1 space (virtual_alloc page_mapper true 8192 1 space)
virtual_alloc_lem_example =
    virtual_alloc_lem page_mapper true 8192 1 4096 (2 ^ 47) space (omega arith, omega arith)
      (omega arith) (omega arith) (omega arith) refl (omega arith)

-- A memory of which every page can be mapped.
abbrev large_mapper : PageMapper (ℕ → Bool)
large_mapper = record {
  map_new_page_at = λ addr phys flags mapped. ((λ a. (a == addr) || mapped a), true);
  free_page_at = λ addr mapped a. not (a == addr) && mapped a;
}

abbrev used_space : Space (ℕ → Bool)
used_space = record { areas = area 12288 (2 ^ 46) ∷ []; memory = λ a. true }

abbrev freed_space : Space (ℕ → Bool)
freed_space = record { areas = area 8192 (2 ^ 46 + 4096) ∷ []; memory = λ a. true }

frees : virtual_free large_mapper true open_tables 8192 4096 used_space ≡ some (freed_space, pos 1)
unfolding virtual_free free_pages free_loop free find_last_before give_back join find_right add64
    sub64 virtual_range_condition_check range_loop align_up align_down virtual_page_condition_check
    get_p4_index get_p3_index get_p2_index get_p1_index walk_to entries_check test_bit is_p_writable
frees = refl

abbrev family : Processes
family = record {
  data_of = λ pid. record { ppid = 1; dead = 1; return_code = pos 3; status = pos 2 };
  pids = record { words = 7 ∷ []; words_count = 1; last_checked_index = 0 };
  running = 1;
}
