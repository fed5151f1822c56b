-- ===== src/Security/Tests.antt =====
-- The checks at page tables that map one page for users, and at a string in it.
use yay_os.Base.{ℕ, ◌+◌, ◌≤◌, ◌<◌, ◌≡◌, ◌↔◌, refl, true, false, arith, if◌then◌else◌, ◌==◌}
use yay_os.Bits.{test_bit}
use yay_os.Utils.{align_down}
use yay_os.Paging.{
  Tables, get_p4_index, get_p3_index, get_p2_index, get_p1_index, p4_table_virtual_address, walk_to,
}
use yay_os.Security.{
  is_p_writable, entries_check, virtual_page_condition_check, virtual_range_condition_check,
  string_loop, validate_c_string,
}
use yay_os.Security.Ranges.{range_check_lem}
use yay_os.Security.Strings.{IsTerminated, string_check_sound}

-- The page at 0x1000 is mapped, present, writable and open to users; the other entries are 0.
abbrev one_page : Tables
one_page table index =
    if table == walk_to (walk_to (walk_to p4_table_virtual_address 0) 0) 0
    then if index == 1 then 7 else 0
    else if index == 0
    then 7
    else 0

abbrev no_pages : Tables
no_pages table index = 0

-- "ab" at 0x1ffd.
abbrev text : ℕ → ℕ
text a = if a == 8189 then b'a' else if a == 8190 then b'b' else 0

here_passes : virtual_page_condition_check one_page 4096 true true false ≡ true
unfolding virtual_page_condition_check get_p4_index get_p3_index get_p2_index get_p1_index walk_to
    entries_check test_bit is_p_writable
here_passes = refl

elsewhere_fails : virtual_page_condition_check one_page 8192 true true false ≡ false
unfolding virtual_page_condition_check get_p4_index get_p3_index get_p2_index get_p1_index walk_to
    entries_check test_bit is_p_writable
elsewhere_fails = refl

text_passes : validate_c_string one_page text 8189 true false false 20 ≡ true
unfolding validate_c_string string_loop align_down virtual_page_condition_check get_p4_index
    get_p3_index get_p2_index get_p1_index walk_to entries_check test_bit is_p_writable
text_passes = refl

range_check_lem_example :
    (virtual_range_condition_check one_page 4100 200 true true false ≡ true) ↔ (
      (a : ℕ)
      → 4100 ≤ a
      → a < 4100 + 200
      → virtual_page_condition_check one_page a true true false ≡ true)
range_check_lem_example =
    range_check_lem one_page true true false 4100 200 (omega arith) (omega arith)

string_check_sound_example :
    (k : ℕ) × (k ≤ 20) × IsTerminated one_page text 8189 true false false 0 k
string_check_sound_example =
    string_check_sound one_page text 8189 true false false 20 (omega arith) text_passes
