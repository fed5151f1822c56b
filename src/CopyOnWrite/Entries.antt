-- ===== src/CopyOnWrite/Entries.antt =====
-- What marking an entry leaves as it was.
use yay_os.Base.{
  ℕ, ◌<◌, ◌≡◌, refl, subst, ◌∙◌, ==_iff, Bool, true, false, arith, ◌==◌, if◌then◌else◌, u64_mod,
  Bool-cases, inl, inr,
}
use yay_os.Bits.{test_bit, bit_not}
use yay_os.Bits.Laws.{
  test_bit-and, test_bit-set_bit, test_bit-clear_bit, set_bit-lt, clear_bit-lt, bit_and-lt, word-eq,
}
use yay_os.Paging.{
  present, writable, cow, was_writable, assign_bit, get_addr, page_table_entry_flags_mask,
}
use yay_os.CopyOnWrite.{protect}

get_addr-lt : (w : ℕ) → w < u64_mod → get_addr w < u64_mod
unfolding get_addr
get_addr-lt w h = bit_and-lt 64 w (bit_not page_table_entry_flags_mask) h (omega arith)

assign_bit-lt : (b : ℕ) (v : Bool) (w : ℕ) → w < u64_mod → b < 64 → assign_bit b v w < u64_mod
assign_bit-lt b true w h k = set_bit-lt w b h k
assign_bit-lt b false w h k = clear_bit-lt w b h

pub test_bit-assign_bit :
    (b : ℕ) (v : Bool) (w i : ℕ)
    → b < 64
    → i < 64
    → test_bit (assign_bit b v w) i ≡ (if b == i then v else test_bit w i)
test_bit-assign_bit b true w i hb hi = test_bit-set_bit w b i
test_bit-assign_bit b false w i hb hi = test_bit-clear_bit w b i hb hi

-- The address of an entry does not read a flag.
get_addr-assign_bit :
    (b : ℕ) (v : Bool) (w : ℕ)
    → b < 64
    → test_bit (bit_not page_table_entry_flags_mask) b ≡ false
    → w < u64_mod
    → get_addr (assign_bit b v w) ≡ get_addr w
unfolding get_addr
get_addr-assign_bit b v w hb flag h =
    let mask = bit_not page_table_entry_flags_mask in
    word-eq (get_addr (assign_bit b v w)) (get_addr w)
      (get_addr-lt (assign_bit b v w) (assign_bit-lt b v w h hb)) (get_addr-lt w h)
      (λ i hi. elim (Bool-cases (b == i)) [
        | inl e ↦
            let f : test_bit mask i ≡ false =
              subst (λ j. test_bit mask j ≡ false) ((==_iff b i).0 e) flag in
            rw (test_bit-and (assign_bit b v w) mask i, test_bit-and w mask i, f) (ground arith)
        | inr ne ↦
            rw
              (
                test_bit-and (assign_bit b v w) mask i,
                test_bit-and w mask i,
                test_bit-assign_bit b v w i hb hi,
                ne,
              )
              refl
      ])

-- A word at which the flags 1, 10 and 11 are rewritten.
module _ (w : ℕ) (h : w < u64_mod) where
  first_word : assign_bit 11 (writable w) w < u64_mod
  first_word = assign_bit-lt 11 (writable w) w h (omega arith)

  second_word : assign_bit 1 false (assign_bit 11 (writable w) w) < u64_mod
  second_word = assign_bit-lt 1 false (assign_bit 11 (writable w) w) first_word (omega arith)

  pub protect-lt : protect w < u64_mod
  unfolding protect
  protect-lt = elim (Bool-cases (cow w)) [
    | inl c ↦ rw (protect, c) h
    | inr c ↦
        rw (protect, c)
          (assign_bit-lt 10 true (assign_bit 1 false (assign_bit 11 (writable w) w)) second_word
            (omega arith))
  ]

  -- Marking keeps the frame of an entry.
  pub get_addr-protect : get_addr (protect w) ≡ get_addr w
  unfolding protect test_bit
  get_addr-protect = elim (Bool-cases (cow w)) [
    | inl c ↦ rw (protect, c) refl
    | inr c ↦
        rw (protect, c)
          (get_addr-assign_bit 10 true (assign_bit 1 false (assign_bit 11 (writable w) w))
              (omega arith) refl second_word
            ∙ get_addr-assign_bit 1 false (assign_bit 11 (writable w) w) (omega arith) refl
                first_word
            ∙ get_addr-assign_bit 11 (writable w) w (omega arith) refl h)
  ]

  pub protect-cow : cow w ≡ true → protect w ≡ w
  unfolding protect
  protect-cow c = rw (protect, c) refl

  protected :
      (i : ℕ)
      → i < 64
      → cow w ≡ false
      → test_bit (protect w) i ≡ (
          if 10 == i
          then true
          else if 1 == i
          then false
          else if 11 == i
          then writable w
          else test_bit w i)
  unfolding protect
  protected i hi c =
      rw
        (
          protect,
          c,
          test_bit-assign_bit 10 true (assign_bit 1 false (assign_bit 11 (writable w) w)) i
              (omega arith) hi,
          test_bit-assign_bit 1 false (assign_bit 11 (writable w) w) i (omega arith) hi,
          test_bit-assign_bit 11 (writable w) w i (omega arith) hi,
        )
        refl

  -- A marked entry is shared; one that was not before keeps what it allowed and forbids writing.
  pub cow-protect : cow (protect w) ≡ true
  cow-protect = elim (Bool-cases (cow w)) [
    | inl c ↦ rw (protect-cow c) c
    | inr c ↦ protected 10 (omega arith) c
  ]

  pub present-protect : present (protect w) ≡ present w
  present-protect = elim (Bool-cases (cow w)) [
    | inl c ↦ rw (protect-cow c) refl
    | inr c ↦ protected 0 (omega arith) c
  ]

  pub writable-protect :
      cow w ≡ false → (writable (protect w) ≡ false) × (was_writable (protect w) ≡ writable w)
  writable-protect c = (protected 1 (omega arith) c, protected 11 (omega arith) c)
