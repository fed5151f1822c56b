-- ===== src/Paging.antt =====
-- Page tables: YYSloth/include/memory/vmbase.hpp. An entry is its 64-bit word, and the tables are
-- the words that stand at an index of a table, whose name is its virtual address: the last entry of
-- the top table maps the tables themselves.
use Prim.Native.Nat.{bit_and, bit_or}
use yay_os.Base.{ℕ, ◌+◌, true, false, ◌-◌, ◌*◌, ◌/◌, ◌%◌, ◌^◌, Bool, ◌==◌, if◌then◌else◌, u64_mod}
use yay_os.Bits.{test_bit, set_bit, clear_bit, bit_not}

abbrev pub Tables : Type 0
Tables = ℕ → ℕ → ℕ

abbrev pub page_size : ℕ
page_size = 4096

unfoldable pub get_p4_index : ℕ → ℕ
get_p4_index addr = addr / 2 ^ 39 % 512

unfoldable pub get_p3_index : ℕ → ℕ
get_p3_index addr = addr / 2 ^ 30 % 512

unfoldable pub get_p2_index : ℕ → ℕ
get_p2_index addr = addr / 2 ^ 21 % 512

unfoldable pub get_p1_index : ℕ → ℕ
get_p1_index addr = addr / 2 ^ 12 % 512

abbrev pub p4_table_virtual_address : ℕ
p4_table_virtual_address = 2 ^ 64 - 2 ^ 12

-- The flags of an entry.
abbrev pub present : ℕ → Bool
present entry = test_bit entry 0

abbrev pub writable : ℕ → Bool
writable entry = test_bit entry 1

abbrev pub user_accessible : ℕ → Bool
user_accessible entry = test_bit entry 2

abbrev pub cow : ℕ → Bool
cow entry = test_bit entry 10

abbrev pub was_writable : ℕ → Bool
was_writable entry = test_bit entry 11

-- `PAGE_TABLE_ENTRY_FLAGS_MASK`: the low twelve bits and the highest one.
abbrev pub page_table_entry_flags_mask : ℕ
page_table_entry_flags_mask = 2 ^ 12 - 1 + 2 ^ 63

unfoldable pub get_addr : ℕ → ℕ
get_addr entry = bit_and entry (bit_not page_table_entry_flags_mask)

unfoldable pub set_addr : ℕ → ℕ → ℕ
set_addr new_addr entry = bit_or new_addr (bit_and entry page_table_entry_flags_mask)

-- An assignment to a one-bit field of an entry.
abbrev pub assign_bit : ℕ → Bool → ℕ → ℕ
assign_bit bit true entry = set_bit entry bit
assign_bit bit false entry = clear_bit entry bit

-- `this` is the address of the table; 0 is a null pointer.
unfoldable pub walk_to : ℕ → ℕ → ℕ
walk_to this index =
    if this == 0 then 0 else bit_or (this * 2 ^ 9 % u64_mod) (index * 2 ^ 12 % u64_mod)
