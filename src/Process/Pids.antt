-- ===== src/Process/Pids.antt =====
-- Process numbers: `newProcess` and `freePid`.
use yay_os.Base.{
  ℕ, zero, suc, ◌+◌, ◌-◌, ◌*◌, ◌/◌, ◌%◌, ◌<◌, ◌≡◌, refl, sym, ◌∙◌, inl, inr, ◌⊎◌, Bool, true, false,
  List, arith, ◌==◌, if◌then◌else◌, length, get_or, length-modify, u64_mod, Bool-cases,
  get_or-modify_ne,
}
use mathlib.Core.Bool.{false≢true}
use yay_os.Bits.{set_bit, clear_bit, bit_not, bit_scan_forward}
use yay_os.Bits.Bitmap.{
  used_in, used_in-write, set_bit-WritesBit, clear_bit-WritesBit, set_bit-words, clear_bit-words,
  FullBelow, FullBelow-suc, full-used, scan-lowest,
}
use yay_os.Process.{PidBitmap, pid_max, new_process_loop, new_process, free_pid}

abbrev pub is_taken : PidBitmap → ℕ → Bool
is_taken b pid = used_in b.words pid

-- All numbers in front of the search index are taken.
pub record IsValid (b : PidBitmap) : Type 0 where
  pub size : length b.words ≡ b.words_count
  pub word : (i : ℕ) → get_or b.words i 0 < u64_mod
  pub full : FullBelow b.words b.last_checked_index

-- `pid` was the lowest free number of `b` and is the one number that `c` takes besides.
pub record Takes (b : PidBitmap) (pid : ℕ) (c : PidBitmap) : Type 0 where
  pub in_bitmap : pid < 64 * b.words_count
  pub was_free : is_taken b pid ≡ false
  pub lowest : (p : ℕ) → p < pid → is_taken b p ≡ true
  pub now : (p : ℕ) → is_taken c p ≡ (if pid == p then true else is_taken b p)
  pub valid : IsValid c

abbrev pub Outcome : PidBitmap → PidBitmap × ℕ → Type 0
Outcome b (c, pid) =
    ((pid ≡ pid_max) × ((p : ℕ) → p < 64 * b.words_count → is_taken b p ≡ true)) ⊎ Takes b pid c

-- The static index is the loop's variable, so the bitmap is given by its words.
loop-Outcome :
    (n : ℕ) (words : List ℕ) (count i : ℕ)
    → IsValid (record { words = words; words_count = count; last_checked_index = i })
    → n ≡ count - i
    → Outcome
        (record { words = words; words_count = count; last_checked_index = i })
        (new_process_loop n (record { words = words; words_count = count; last_checked_index = i }))
unfolding new_process_loop
loop-Outcome zero words count i v e = inl (refl, λ p h. full-used words i p v.full (omega arith))
loop-Outcome (suc n) words count i v e = elim (Bool-cases (bit_not (get_or words i 0) == 0)) [
  | inl taken ↦
      let next : FullBelow words (i + 1) = FullBelow-suc words i v.full (v.word i) taken in
      let ih =
        loop-Outcome n words count (i + 1) (record { size = v.size; word = v.word; full = next })
          (omega arith) in
      rw taken (elim ih [
        | inl all ↦ inl all
        | inr t ↦ inr (record {
          in_bitmap = t.in_bitmap;
          was_free = t.was_free;
          lowest = t.lowest;
          now = t.now;
          valid = t.valid;
        })
      ])
  | inr free ↦
      let bit = bit_scan_forward (bit_not (get_or words i 0)) in
      let (l, clear, below) = scan-lowest words i v.full (v.word i) (ground arith) in
      let inside : i < length words = omega (arith, v.size) in
      let at : bit + i * 64 ≡ 64 * i + bit = omega arith in
      rw (free, at)
        (inr (record {
          in_bitmap = omega arith;
          was_free = clear;
          lowest = below;
          now = λ p. used_in-write set_bit true set_bit-WritesBit words i bit p inside l;
          valid = record {
            size = omega (arith, length-modify words i (λ w. set_bit w bit), v.size);
            word = λ j. set_bit-words words i bit j v.word inside l;
            full = λ j h.
                ground (arith, get_or-modify_ne words i j (λ w. set_bit w bit) 0, v.full j h);
          };
        }))
]

-- While a process number is free, `newProcess` on a valid bitmap returns the lowest one and takes that number and no
-- other, and the bitmap stays valid.
pub new_process-lowest :
    (b : PidBitmap) (p : ℕ)
    → IsValid b
    → p < 64 * b.words_count
    → is_taken b p ≡ false
    → Takes b (new_process b).1 (new_process b).0
unfolding new_process
new_process-lowest b p v h free =
    elim (loop-Outcome (b.words_count - b.last_checked_index) b.words b.words_count
      b.last_checked_index v refl) [
        | inl (_, all) ↦ absurd (false≢true (sym free ∙ all p h))
        | inr t ↦ t
      ]

-- Once every number is taken, `newProcess` returns PID_MAX.
pub new_process-none :
    (b : PidBitmap)
    → IsValid b
    → ((p : ℕ) → p < 64 * b.words_count → is_taken b p ≡ true)
    → (new_process b).1 ≡ pid_max
unfolding new_process
new_process-none b v all =
    elim (loop-Outcome (b.words_count - b.last_checked_index) b.words b.words_count
      b.last_checked_index v refl) [
        | inl (e, _) ↦ e
        | inr t ↦ absurd (false≢true (sym t.was_free ∙ all _ t.in_bitmap))
      ]

-- `freePid` of a number of the bitmap frees that number and no other, and keeps the bitmap valid, whatever the search index.
pub free_pid_lem :
    (b : PidBitmap) (pid : ℕ)
    → IsValid b
    → pid < 64 * b.words_count
    → IsValid (free_pid pid b)
      × ((p : ℕ) → is_taken (free_pid pid b) p ≡ (if pid == p then false else is_taken b p))
unfolding free_pid
free_pid_lem b pid v h =
    let place : 64 * (pid / 64) + pid % 64 ≡ pid = omega arith in
    (
      record {
        size =
            omega (arith, length-modify b.words (pid / 64) (λ w. clear_bit w (pid % 64)), v.size);
        word = λ j. clear_bit-words b.words (pid / 64) (pid % 64) j v.word;
        full = λ j k. ground (
          arith,
          get_or-modify_ne b.words (pid / 64) j (λ w. clear_bit w (pid % 64)) 0,
          v.full j,
        );
      },
      λ p. ground (
        arith,
        used_in-write clear_bit false clear_bit-WritesBit b.words (pid / 64) (pid % 64) p
            (omega (arith, v.size)) (omega arith),
      ),
    )

words_count-free_pid : (pid : ℕ) (b : PidBitmap) → (free_pid pid b).words_count ≡ b.words_count
unfolding free_pid
words_count-free_pid pid b = refl

below_ne : (r pid : ℕ) → r < pid → (pid == r) ≡ false
below_ne r pid l = ground arith

-- A number that is given back can be had again: after `freePid` of a number, with all lower ones
-- taken, `newProcess` returns that number.
pub new_process-free_pid :
    (b : PidBitmap) (pid : ℕ)
    → IsValid b
    → pid < 64 * b.words_count
    → ((p : ℕ) → p < pid → is_taken b p ≡ true)
    → (new_process (free_pid pid b)).1 ≡ pid
new_process-free_pid b pid v h lower =
    let (v', now) = free_pid_lem b pid v h in
    let c = free_pid pid b in
    let free : is_taken c pid ≡ false = ground (arith, now pid) in
    let t = new_process-lowest c pid v' (rw (words_count-free_pid pid b) h) free in
    let r = (new_process c).1 in
    let not_below : ¬ (r < pid) = λ l. cc (now r, lower r l, t.was_free, below_ne r pid l) in
    let not_above : ¬ (pid < r) = λ l. cc (t.lowest pid l, free) in omega arith
