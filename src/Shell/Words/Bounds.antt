-- ===== src/Shell/Words/Bounds.antt =====
-- The words of a line fit `argv`, and lie in the buffer.
use yay_os.Base.{
  ℕ, zero, suc, ◌+◌, ◌-◌, ◌*◌, ◌≤◌, ◌<◌, ◌≡◌, refl, inl, inr, Bool, Option, none, some, List, [],
  ◌∷◌, ◌==◌, ltb, arith, length, length-set, Bool-cases,
}
use yay_os.Shell.{byte_at}
use yay_os.Shell.Words.{scan_word, is_quote, Words, take_word, split_loop, split_line}

abbrev pub AllAtMost : ℕ → List ℕ → Type 0
AllAtMost n [] = Unit {0}
AllAtMost n (x ∷ xs) = (x ≤ n) × AllAtMost n xs

-- The words found in front of an index: at most one for two bytes.
pub record Fits (count i : ℕ) (buf : List ℕ) (w : Words) : Type 0 where
  pub few : 2 * length w.argv ≤ i
  pub inside : AllAtMost count w.argv
  pub kept : length w.buf ≡ length buf

scan_word-bounds :
    (n : ℕ) (scoped : Bool) (start i : ℕ) (buf : List ℕ)
    → (i ≤ (scan_word n scoped start i buf).0) × ((scan_word n scoped start i buf).0 ≤ i + n)
unfolding scan_word
scan_word-bounds zero scoped start i buf = (omega arith, omega arith)
scan_word-bounds (suc n) scoped start i buf =
    let ih = scan_word-bounds n scoped start (i + 1) buf in ground (arith, ih)

take_word-Fits :
    (count i : ℕ) (buf : List ℕ) (w : Words)
    → Fits count i buf w
    → i < count
    → Fits count (take_word count i w).0 buf (take_word count i w).1
      × (i + 2 ≤ (take_word count i w).0)
      × ((take_word count i w).0 ≤ count + 1)
unfolding take_word
take_word-Fits count i buf w f h =
    let start = byte_at w.buf i in
    let b = scan_word-bounds (count - (i + 1)) (is_quote start) start (i + 1) w.buf in
    let s = (scan_word (count - (i + 1)) (is_quote start) start (i + 1) w.buf) in
    (
      record {
        few = ground (arith, f.few, b);
        inside = ground (arith, f.inside, h);
        kept = omega (arith, f.kept, length-set w.buf s.0 0);
      },
      omega (arith, b),
      omega (arith, b, h),
    )

-- What the loop gives.
abbrev pub Result : ℕ → List ℕ → Option Words → Type 0
Result count buf none = ⊥
Result count buf (some w) = Fits count (count + 1) buf w

split_loop-Result :
    (fuel count i : ℕ) (buf : List ℕ) (w : Words)
    → Fits count i buf w
    → i ≤ count + 1
    → count < i + fuel
    → 0 < fuel
    → Result count buf (split_loop fuel count i w)
unfolding split_loop
split_loop-Result zero count i buf w f h k e = absurd (omega (arith, e))
split_loop-Result (suc fuel) count i buf w f h k e = elim (Bool-cases (ltb i count)) [
  | inr done ↦ rw done (record { few = omega (arith, f.few, h); inside = f.inside; kept = f.kept })
  | inl more ↦
      let inside : i < count = ground (arith, more) in
      elim (Bool-cases (byte_at w.buf i == b' ')) [
        | inl y ↦
            rw (more, y)
              (split_loop-Result fuel count (i + 1) buf w
                (record { few = omega (arith, f.few); inside = f.inside; kept = f.kept })
                (omega (arith, inside)) (omega (arith, k)) (omega (arith, k, inside)))
        | inr n ↦
            let (g, l, u) = take_word-Fits count i buf w f inside in
            rw (more, n)
              (split_loop-Result fuel count (take_word count i w).0 buf (take_word count i w).1 g u
                (omega (arith, k, l)) (omega (arith, k, inside)))
      ]
]

-- The splitting of a line of `count` bytes ends, with at most one word for two bytes, one more for
-- an odd byte; every word starts at an index of at most `count`, and the buffer keeps its size.
pub split_line-Result : (count : ℕ) (buf : List ℕ) → Result count buf (split_line count buf)
unfolding split_line
split_line-Result count buf =
    split_loop-Result (count + 1) count 0 buf (record { buf = buf; argv = [] })
      (record { few = omega arith; inside = tt; kept = refl }) (omega arith) (omega arith)
      (omega arith)
