-- ===== src/Security.antt =====
-- The checks of pointers that user programs hand to the kernel: YYSloth/src/memory/msecurity.cpp.
pub mod Pages
pub mod Ranges
pub mod Strings
mod Tests
use Prim.Native.Nat.{bit_and}
use yay_os.Base.{
  ℕ, zero, suc, ◌+◌, ◌-◌, ◌*◌, ◌/◌, ◌%◌, ◌^◌, Bool, true, false, ◌==◌, ltb, if◌then◌else◌, add64,
  not, ◌&&◌, ◌||◌,
}
use yay_os.Utils.{align_up, align_down}
use yay_os.Paging.{
  Tables, page_size, get_p4_index, get_p3_index, get_p2_index, get_p1_index,
  p4_table_virtual_address, present, writable, user_accessible, cow, was_writable, walk_to,
}

unfoldable pub is_p_writable : ℕ → Bool
is_p_writable entry =
    if writable entry then true else if cow entry && was_writable entry then true else false

-- A `bool` as an operand of `&`.
abbrev as_word : Bool → ℕ
as_word true = 1
as_word false = 0

-- `addr & ((1ULL << 63) != 0)` as a condition.
unfoldable pub is_no_execute : ℕ → Bool
is_no_execute entry = not (bit_and entry (as_word (not (2 ^ 63 == 0))) == 0)

-- The tests of the four entries, in the order of the source.
unfoldable pub entries_check : ℕ → ℕ → ℕ → ℕ → Bool → Bool → Bool → Bool
unfolding is_p_writable is_no_execute
entries_check e4 e3 e2 e1 is_user is_writable is_code =
    if not (present e4)
    then false
    else if not (present e3)
    then false
    else if not (present e2)
    then false
    else if not (present e1)
    then false
    else if is_user && not (user_accessible e4)
    then false
    else if is_user && not (user_accessible e3)
    then false
    else if is_user && not (user_accessible e2)
    then false
    else if is_user && not (user_accessible e1)
    then false
    else if is_code && is_no_execute e4
    then false
    else if is_code && is_no_execute e3
    then false
    else if is_code && is_no_execute e2
    then false
    else if is_code && is_no_execute e1
    then false
    else if is_writable && not (is_p_writable e4)
    then false
    else if is_writable && not (is_p_writable e3)
    then false
    else if is_writable && not (is_p_writable e2)
    then false
    else if is_writable && not (is_p_writable e1)
    then false
    else true

module _ (tables : Tables) where
  unfoldable pub virtual_page_condition_check : ℕ → Bool → Bool → Bool → Bool
  unfolding get_p4_index get_p3_index get_p2_index get_p1_index walk_to entries_check
  virtual_page_condition_check page is_user is_writable is_code =
      let p4_index = get_p4_index page in
      let p3_index = get_p3_index page in
      let p2_index = get_p2_index page in
      let p1_index = get_p1_index page in
      let p4_table = p4_table_virtual_address in
      let p3_table = walk_to p4_table p4_index in
      let p2_table = walk_to p3_table p3_index in
      let p1_table = walk_to p2_table p2_index in
      entries_check (tables p4_table p4_index) (tables p3_table p3_index) (tables p2_table p2_index)
        (tables p1_table p1_index) is_user is_writable is_code

  -- The loop over the pages in front of `end`, on fuel.
  unfoldable pub range_loop : ℕ → ℕ → ℕ → Bool → Bool → Bool → Bool
  unfolding virtual_page_condition_check
  range_loop zero page end is_user is_writable is_code = false
  range_loop (suc fuel) page end is_user is_writable is_code =
      let rest = range_loop fuel (add64 page page_size) end is_user is_writable is_code in
      if ltb page end
      then if not (virtual_page_condition_check page is_user is_writable is_code)
        then false
        else rest
      else true

  unfoldable pub virtual_range_condition_check : ℕ → ℕ → Bool → Bool → Bool → Bool
  unfolding align_up align_down range_loop
  virtual_range_condition_check start size is_user is_writable is_code =
      let begin = align_down start page_size in
      let end = align_up (add64 start size) page_size in
      range_loop (end / page_size - begin / page_size + 1) begin end is_user is_writable is_code

  -- The loop of `validateCString` from `i` on, with the rounds that are left. `bytes` is the memory.
  unfoldable pub string_loop : (ℕ → ℕ) → ℕ → ℕ → ℕ → Bool → Bool → Bool → Bool
  unfolding align_down virtual_page_condition_check
  string_loop bytes zero i start is_user is_writable is_code = false
  string_loop bytes (suc n) i start is_user is_writable is_code =
      let rest = string_loop bytes n (add64 i 1) start is_user is_writable is_code in
      let page = align_down (add64 start i) page_size in
      if i % page_size == 0 && not (virtual_page_condition_check page is_user is_writable is_code)
      then false
      else if bytes (add64 start i) == 0
      then true
      else rest

  -- For `maxLength` below UINT64_MAX, where `i <= maxLength` can fail.
  unfoldable pub validate_c_string : (ℕ → ℕ) → ℕ → Bool → Bool → Bool → ℕ → Bool
  unfolding string_loop
  validate_c_string bytes start is_user is_writable is_code max_length =
      string_loop bytes (max_length + 1) 0 start is_user is_writable is_code
