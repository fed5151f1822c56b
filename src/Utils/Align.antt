-- ===== src/Utils/Align.antt =====
-- `alignUp` and `alignDown` round to the nearest multiple on their side.
use yay_os.Base.{ℕ, ◌+◌, ◌≤◌, ◌<◌, arith, u64_mod}
use yay_os.Utils.{align_up, align_down}

-- For a positive alignment `alignDown` gives the greatest multiple that is not above the value.
pub align_down_lem :
    (value align : ℕ)
    → 0 < align
    → (align_down value align ≤ value) × (value < align_down value align + align)
unfolding align_down
align_down_lem value align h = (grind arith, grind arith)

pub align_up_lem :
    (value align : ℕ)
    → 0 < align
    → value + align ≤ u64_mod
    → (value ≤ align_up value align) × (align_up value align < value + align)
unfolding align_up
align_up_lem value align h k = (grind arith, grind arith)
