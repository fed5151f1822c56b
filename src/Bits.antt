-- ===== src/Bits.antt =====
-- Single bits of 64-bit words: `setBit` and `clearBit` of YYSloth/src/memory/physalloc.cpp, the
-- bit operations of YYSloth/src/proc/proc.cpp, and `bitScanForward` of YYSloth/include/utils.hpp.
pub mod Step
pub mod Laws
pub mod Scan
pub mod Bitmap
use Prim.Native.Nat.{bit_and, bit_or}
use yay_os.Base.{ℕ, zero, suc, ◌+◌, ◌-◌, ◌/◌, ◌%◌, ◌^◌, Bool, ◌==◌, u64_mod, if◌then◌else◌}

-- The bit of a word at an index, counted from the lowest.
unfoldable pub test_bit : ℕ → ℕ → Bool
test_bit w zero = w % 2 == 1
test_bit w (suc i) = test_bit (w / 2) i

-- `1ULL << bit`, for `bit < 64`.
abbrev pub shifted_one : ℕ → ℕ
shifted_one bit = 2 ^ bit

-- `~x` on `uint64_t`.
abbrev pub bit_not : ℕ → ℕ
bit_not x = u64_mod - 1 - x

unfoldable pub set_bit : ℕ → ℕ → ℕ
set_bit num bit = bit_or num (shifted_one bit)

unfoldable pub clear_bit : ℕ → ℕ → ℕ
clear_bit num bit = bit_and num (bit_not (shifted_one bit))

-- `bsf`: the index of the lowest set bit, looked for in the bits from `i` on. The instruction
-- leaves its result undefined at 0, which no caller passes; here the result is then 64.
scan_from : ℕ → ℕ → ℕ → ℕ
scan_from zero i x = i
scan_from (suc n) i x = let rest = scan_from n (i + 1) (x / 2) in if x % 2 == 1 then i else rest

unfoldable pub bit_scan_forward : ℕ → ℕ
unfolding scan_from
bit_scan_forward x = scan_from 64 0 x
