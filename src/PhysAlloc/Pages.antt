-- ===== src/PhysAlloc/Pages.antt =====
-- The bitmap of pages, and the bits that one word operation after another writes.
use yay_os.Base.{ℕ, zero, suc, ◌+◌, ◌≤◌, ◌<◌, ◌≡◌, Bool, arith, if◌then◌else◌, leb, ltb, ◌&&◌}
use yay_os.Bits.{test_bit}
use yay_os.Bits.Bitmap.{used_in, WritesBit}
use yay_os.PhysAlloc.{PhysAllocator, each_bit}

-- The page is marked as used.
abbrev pub is_used : PhysAllocator → ℕ → Bool
is_used a page = used_in a.bitmap page

module _ (op : ℕ → ℕ → ℕ) (value : Bool) (writes : WritesBit op value) where
  pub test_bit-each_bit :
      (n start w i : ℕ)
      → start + n ≤ 64
      → i < 64
      → test_bit (each_bit op n start w) i
        ≡ (if leb start i && ltb i (start + n) then value else test_bit w i)
  unfolding each_bit
  test_bit-each_bit zero start w i h hi = ground arith
  test_bit-each_bit (suc n) start w i h hi = ground (
    arith,
    test_bit-each_bit n (suc start) (op w start) i (omega arith) hi,
    writes w start i (omega arith) hi,
  )
