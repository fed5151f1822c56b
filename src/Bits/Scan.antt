-- ===== src/Bits/Scan.antt =====
-- `bitScanForward` finds the lowest set bit.
use native.Mathlib.Nat.{pow-suc}
use yay_os.Base.{
  ℕ, zero, suc, ◌+◌, ◌/◌, ◌%◌, ◌^◌, ◌<◌, ◌≡◌, ◌≢◌, inl, inr, true, false, arith, ◌==◌, Bool-cases,
  u64_mod,
}
use yay_os.Bits.{test_bit, bit_not, scan_from, bit_scan_forward}
use yay_os.Bits.Laws.{test_bit-not}

-- `j` is the index of the lowest set bit of `x`.
abbrev pub IsLowest : ℕ → ℕ → Type 0
IsLowest x j = (test_bit x j ≡ true) × ((k : ℕ) → k < j → test_bit x k ≡ false)

IsLowest-double : (x j : ℕ) → (x % 2 == 1) ≡ false → IsLowest (x / 2) j → IsLowest x (suc j)
unfolding test_bit
IsLowest-double x j even (here, below) = (here, clear)
  where
    clear : (k : ℕ) → k < suc j → test_bit x k ≡ false
    clear zero h = even
    clear (suc k) h = below k (omega arith)

scan_from_lem :
    (n i x : ℕ) → x < 2 ^ n → x ≢ 0 → (j : ℕ) × (scan_from n i x ≡ i + j) × (j < n) × IsLowest x j
unfolding scan_from test_bit
scan_from_lem zero i x h ne = absurd (omega arith)
scan_from_lem (suc n) i x h ne = elim (Bool-cases (x % 2 == 1)) [
  | inl odd ↦ (0, rw odd (omega arith), omega arith, (odd, λ k l. elim l [ ]))
  | inr even ↦
      let (j, e, l, low) =
        scan_from_lem n (i + 1) (x / 2) (omega (arith, pow-suc 2 n)) (ground arith) in
      (suc j, rw even (omega arith), omega arith, IsLowest-double x j even low)
]

pub bit_scan_forward_lem :
    (x : ℕ) → x < u64_mod → x ≢ 0 → (bit_scan_forward x < 64) × IsLowest x (bit_scan_forward x)
unfolding bit_scan_forward
bit_scan_forward_lem x h ne =
    let (j, e, l, low) = scan_from_lem 64 0 x h ne in
    let e' : scan_from 64 0 x ≡ j = omega arith in (omega arith, rw e' low)

-- `bitScanForward(~x)` finds the lowest clear bit of a word that has one.
pub scan_clear :
    (x : ℕ)
    → x < u64_mod
    → bit_not x ≢ 0
    → (bit_scan_forward (bit_not x) < 64)
      × (test_bit x (bit_scan_forward (bit_not x)) ≡ false)
      × ((k : ℕ) → k < bit_scan_forward (bit_not x) → test_bit x k ≡ true)
scan_clear x h ne =
    let (l, low) = bit_scan_forward_lem (bit_not x) (omega arith) ne in
    let (here, below) = low in
    let bit = bit_scan_forward (bit_not x) in
    (l, ground (arith, test_bit-not x bit), λ k m. ground (arith, test_bit-not x k, below k))
