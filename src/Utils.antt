-- ===== src/Utils.antt =====
-- The helpers of YYSloth/include/utils.hpp that round to a multiple.
pub mod Align
use yay_os.Base.{ℕ, ◌+◌, ◌-◌, ◌*◌, ◌/◌, ◌%◌, u64_mod}

unfoldable pub align_up : ℕ → ℕ → ℕ
align_up value align = (value + align - 1) % u64_mod / align * align

unfoldable pub align_down : ℕ → ℕ → ℕ
align_down value align = value / align * align
