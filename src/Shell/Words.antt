-- ===== src/Shell/Words.antt =====
-- The splitting of a line into words, in `shell` of YYUserspace/shell/shell.cpp. A word is the
-- index of its first byte in the buffer; the byte behind it is overwritten by 0.
pub mod Bounds
use yay_os.Base.{
  ℕ, zero, suc, ◌+◌, ◌-◌, Bool, true, false, Option, none, some, List, [], ◌∷◌, ◌++◌, ◌==◌, ltb,
  if◌then◌else◌, not, ◌&&◌, ◌||◌, set,
}
use yay_os.Shell.{byte_at}

-- The inner loop, with the rounds left: where it stops, and `found`.
unfoldable pub scan_word : ℕ → Bool → ℕ → ℕ → List ℕ → ℕ × Bool
scan_word zero scoped start i buf = (i, false)
scan_word (suc n) scoped start i buf =
    let further = scan_word n scoped start (i + 1) buf in
    if scoped
    then if byte_at buf i == start then (i, true) else further
    else if byte_at buf i == b' '
    then (i, false)
    else further

abbrev pub is_quote : ℕ → Bool
is_quote c = (c == 39) || (c == 34)

-- `buf` and the words of `argv`, the last one first.
pub record Words : Type 0 where
  pub buf : List ℕ
  pub argv : List ℕ

-- One word from `i` on: the index behind it, and the words.
unfoldable pub take_word : ℕ → ℕ → Words → ℕ × Words
unfolding scan_word
take_word count i w =
    let start = byte_at w.buf i in
    let scoped = is_quote start in
    let (end, found) = scan_word (count - (i + 1)) scoped start (i + 1) w.buf in
    (
      end + 1,
      record {
        buf = set w.buf end 0;
        argv = if not found && scoped then w.argv else (i + (if scoped then 1 else 0)) ∷ w.argv;
      },
    )

-- The outer loop, on fuel.
unfoldable pub split_loop : ℕ → ℕ → ℕ → Words → Option Words
unfolding take_word
split_loop zero count i w = none
split_loop (suc fuel) count i w =
    let (after, w') = take_word count i w in
    let word = split_loop fuel count after w' in
    let space = split_loop fuel count (i + 1) w in
    if ltb i count then if byte_at w.buf i == b' ' then space else word else some w

unfoldable pub split_line : ℕ → List ℕ → Option Words
unfolding split_loop
split_line count buf = split_loop (count + 1) count 0 (record { buf = buf; argv = [] })
