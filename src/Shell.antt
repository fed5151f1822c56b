-- ===== src/Shell.antt =====
-- The shell, YYUserspace/shell/shell.cpp: the edit buffer and what is written to the serial line.
-- A buffer is a list of bytes; characters are byte values.
pub mod Buffer
pub mod Editor
pub mod Words
mod Tests
use yay_os.Base.{
  ℕ, zero, suc, ◌+◌, ◌-◌, Bool, true, false, List, [], ◌∷◌, ◌++◌, ◌==◌, if◌then◌else◌, set, get_or,
}

abbrev pub byte_at : List ℕ → ℕ → ℕ
byte_at buf i = get_or buf i 0

-- The loop of `insertChar`, with the rounds left, `i` and `ex`.
unfoldable pub insert_loop : ℕ → ℕ → ℕ → List ℕ → List ℕ
insert_loop zero i ex buf = buf
insert_loop (suc n) i ex buf = insert_loop n (i + 1) (byte_at buf i) (set buf i ex)

unfoldable pub insert_char : List ℕ → ℕ → ℕ → ℕ → List ℕ
insert_char buf pos len c = insert_loop (len + 1 - pos) pos c buf

-- The loop of `removeChar`.
unfoldable pub remove_loop : ℕ → ℕ → List ℕ → List ℕ
remove_loop zero i buf = buf
remove_loop (suc n) i buf = remove_loop n (i + 1) (set buf i (byte_at buf (i + 1)))

unfoldable pub remove_char : List ℕ → ℕ → ℕ → List ℕ
remove_char buf pos len = remove_loop (len - 1 - pos) pos buf

-- What `putc` writes: nothing for a 0 byte, a carriage return behind a line feed.
unfoldable pub putc : ℕ → List ℕ
putc c = if c == 0 then [] else if c == 10 then 10 ∷ 13 ∷ [] else c ∷ []

unfoldable pub puts : List ℕ → List ℕ
unfolding putc
puts [] = []
puts (c ∷ cs) = putc c ++ puts cs
