-- ===== src/Bits/Bitmap.antt =====
-- Arrays of 64-bit words read as one sequence of bits, as in the bitmaps of pages and of process
-- numbers.
use yay_os.Base.{
  ℕ, ◌+◌, ◌-◌, ◌*◌, ◌/◌, ◌%◌, ◌<◌, ◌≡◌, ◌≢◌, Bool, true, false, List, arith, ◌==◌, if◌then◌else◌,
  length, get_or, modify, get_or-modify, u64_mod, dec_lt, ℕ_discrete, modify_out_of_range,
}
use yay_os.Bits.{test_bit, set_bit, clear_bit, bit_not, bit_scan_forward}
use yay_os.Bits.Laws.{test_bit-set_bit, test_bit-clear_bit, test_bit-all, set_bit-lt, clear_bit-lt}
use yay_os.Bits.Scan.{scan_clear}

-- The bit at an index of a bitmap.
abbrev pub used_in : List ℕ → ℕ → Bool
used_in ws page = test_bit (get_or ws (page / 64) 0) (page % 64)

-- An operation on words that writes `value` at one bit.
abbrev pub WritesBit : (ℕ → ℕ → ℕ) → Bool → Type 0
WritesBit op value =
    (w bit i : ℕ)
    → bit < 64
    → i < 64
    → test_bit (op w bit) i ≡ (if bit == i then value else test_bit w i)

pub set_bit-WritesBit : WritesBit set_bit true
set_bit-WritesBit w bit i h k = test_bit-set_bit w bit i

pub clear_bit-WritesBit : WritesBit clear_bit false
clear_bit-WritesBit w bit i h k = test_bit-clear_bit w bit i h k

pub used_in-modify :
    (ws : List ℕ) (i : ℕ) (f : ℕ → ℕ) (page : ℕ)
    → i < length ws
    → used_in (modify ws i f) page ≡ (
        if i == page / 64
        then test_bit (f (get_or ws (page / 64) 0)) (page % 64)
        else used_in ws page)
used_in-modify ws i f page h = ground (arith, get_or-modify ws i (page / 64) f 0 h)

-- One bit written is one page written.
pub used_in-write :
    (op : ℕ → ℕ → ℕ) (value : Bool)
    → WritesBit op value
    → (ws : List ℕ) (i bit page : ℕ) → i < length ws
    → bit < 64
    → used_in (modify ws i (λ w. op w bit)) page
      ≡ (if 64 * i + bit == page then value else used_in ws page)
used_in-write op value writes ws i bit page h hb = ground (
  arith,
  used_in-modify ws i (λ w. op w bit) page h,
  writes (get_or ws (page / 64) 0) bit (page % 64) hb (omega arith),
)

-- All words in front of a word are full.
abbrev pub FullBelow : List ℕ → ℕ → Type 0
FullBelow ws i = (j : ℕ) → j < i → get_or ws j 0 ≡ u64_mod - 1

pub full-used : (ws : List ℕ) (i p : ℕ) → FullBelow ws i → p < 64 * i → used_in ws p ≡ true
full-used ws i p full h = rw (full (p / 64) (omega arith)) (test_bit-all (p % 64) (omega arith))

pub FullBelow-suc :
    (ws : List ℕ) (i : ℕ)
    → FullBelow ws i
    → get_or ws i 0 < u64_mod
    → (bit_not (get_or ws i 0) == 0) ≡ true
    → FullBelow ws (i + 1)
FullBelow-suc ws i full word taken j h = elim (ℕ_discrete j i) [
  | yes same ↦ rw same (ground arith)
  | no other ↦ full j (omega arith)
]

-- Behind full words, the lowest clear bit of a word is the lowest of the bitmap.
pub scan-lowest :
    (ws : List ℕ) (i : ℕ)
    → FullBelow ws i
    → get_or ws i 0 < u64_mod
    → bit_not (get_or ws i 0) ≢ 0
    → (bit_scan_forward (bit_not (get_or ws i 0)) < 64)
      × (used_in ws (64 * i + bit_scan_forward (bit_not (get_or ws i 0))) ≡ false)
      × ((p : ℕ) → p < 64 * i + bit_scan_forward (bit_not (get_or ws i 0)) → used_in ws p ≡ true)
scan-lowest ws i full word more =
    let (l, clear, below) = scan_clear (get_or ws i 0) word more in
    let bit = bit_scan_forward (bit_not (get_or ws i 0)) in
    let q : (64 * i + bit) / 64 ≡ i = omega arith in
    let r : (64 * i + bit) % 64 ≡ bit = omega arith in
    (
      l,
      rw (q, r) clear,
      λ p h. elim (dec_lt p (64 * i)) [
        | yes front ↦ full-used ws i p full front
        | no here ↦ let q' : p / 64 ≡ i = omega arith in rw q' (below (p % 64) (omega arith))
      ],
    )

-- Words stay words under the two writes.
pub set_bit-words :
    (ws : List ℕ) (i bit j : ℕ)
    → ((j : ℕ) → get_or ws j 0 < u64_mod)
    → i < length ws
    → bit < 64
    → get_or (modify ws i (λ w. set_bit w bit)) j 0 < u64_mod
set_bit-words ws i bit j words h k = ground (
  arith,
  get_or-modify ws i j (λ w. set_bit w bit) 0 h,
  words j,
  set_bit-lt (get_or ws j 0) bit (words j) k,
)

pub clear_bit-words :
    (ws : List ℕ) (i bit j : ℕ)
    → ((j : ℕ) → get_or ws j 0 < u64_mod)
    → get_or (modify ws i (λ w. clear_bit w bit)) j 0 < u64_mod
clear_bit-words ws i bit j words = elim (dec_lt i (length ws)) [
  | yes inside ↦ ground (
    arith,
    get_or-modify ws i j (λ w. clear_bit w bit) 0 inside,
    words j,
    clear_bit-lt (get_or ws j 0) bit (words j),
  )
  | no outside ↦ rw (modify_out_of_range ws i (λ w. clear_bit w bit) (omega arith)) (words j)
]
