-- ===== src/Shell/Editor.antt =====
-- `getline` and `render`: the line editor. The bytes that `getc` returns are the editor's input,
-- and a call that waits in the middle of an escape sequence is a mode. The bytes written to the
-- serial line are collected in `out`.
pub mod Invariant
pub mod Refine
use Prim.Native.Nat.{◌^◌}
use yay_os.Base.{
  ℕ, zero, suc, ◌+◌, ◌-◌, Bool, true, false, Option, none, some, List, [], ◌∷◌, ◌++◌, ◌==◌,
  if◌then◌else◌, not, ◌||◌, ◌&&◌,
}
use yay_os.Shell.{byte_at, insert_char, remove_char, putc, puts}

-- `buf`, `pos`, `length` and `prevLength` of `getline`.
pub record Line : Type 0 where
  pub buf : List ℕ
  pub pos : ℕ
  pub len : ℕ
  pub prev_len : ℕ
  pub out : List ℕ

abbrev pub escape : ℕ
escape = 27

abbrev pub backspace : ℕ
backspace = 8

abbrev pub delete : ℕ
delete = 127

abbrev pub carriage_return : ℕ
carriage_return = 13

-- "\033[47m\033[30m" and "\033[0m"
abbrev highlight : List ℕ
highlight = 27 ∷ b'[' ∷ b'4' ∷ b'7' ∷ b'm' ∷ 27 ∷ b'[' ∷ b'3' ∷ b'0' ∷ b'm' ∷ []

abbrev plain : List ℕ
plain = 27 ∷ b'[' ∷ b'0' ∷ b'm' ∷ []

-- The characters from `i` on, the one at the cursor highlighted.
unfoldable pub render_from : ℕ → ℕ → ℕ → List ℕ → List ℕ
render_from zero i pos buf = []
render_from (suc n) i pos buf =
    (if pos == i then puts highlight else [])
    ++ (putc (byte_at buf i)
        ++ ((if pos == i then puts plain else []) ++ render_from n (i + 1) pos buf))

unfoldable pub render : List ℕ → ℕ → ℕ → List ℕ
unfolding render_from
render buf count pos =
    puts (13 ∷ 27 ∷ b'[' ∷ b'J' ∷ b'$' ∷ b' ' ∷ [])
    ++ (render_from count 0 pos buf
        ++ (if pos == count then puts (highlight ++ (b' ' ∷ (plain ++ (8 ∷ [])))) else []))

-- What `getline` waits for.
pub data Mode : Type 0 where
  key : Mode
  after_escape : Mode
  after_bracket : Mode

-- `if (length != size) insertChar(buf, pos++, length++, c);`
unfoldable pub type_char : ℕ → ℕ → Line → Line
type_char size c l =
    if l.len == size
    then l
    else record l { buf = insert_char l.buf l.pos l.len c; pos = l.pos + 1; len = l.len + 1 }

unfoldable pub rub_out : Line → Line
rub_out l =
    if l.pos == 0
    then l
    else record l { buf = remove_char l.buf (l.pos - 1) l.len; pos = l.pos - 1; len = l.len - 1 }

unfoldable pub move_left : Line → Line
move_left l = if l.pos == 0 then l else record l { pos = l.pos - 1 }

unfoldable pub move_right : Line → Line
move_right l = if l.pos == l.len then l else record l { pos = l.pos + 1 }

abbrev pub is_arrow : ℕ → Bool
is_arrow c = ((c == b'A') || (c == b'B')) || ((c == b'C') || (c == b'D'))

-- One byte of input; `none` ends the line.
unfoldable pub feed : ℕ → Mode → ℕ → Line → Option (Mode × Line)
unfolding type_char rub_out move_left move_right
feed size key c l =
    if c == carriage_return
    then none
    else if (c == backspace) || (c == delete)
    then some (key, rub_out l)
    else if c == escape
    then some (after_escape, l)
    else some (key, type_char size c l)
feed size after_escape c l =
    if c == b'['
    then some (after_bracket, l)
    else some (after_bracket, type_char size c (record l { out = l.out ++ putc c }))
feed size after_bracket c l =
    let l' = if is_arrow c then l else type_char size c (type_char size b'[' l) in
    if (c == b'A') || (c == b'B')
    then some (key, l')
    else if c == b'D'
    then some (key, move_left l')
    else some (key, move_right l')

-- `render(buf, length, prevLength, pos); prevLength = length;` in front of a key.
unfoldable pub view : Line → Line
view l = record l { out = l.out ++ render l.buf l.len l.pos; prev_len = l.len }

abbrev pub view_in : Mode → Line → Line
view_in key l = view l
view_in after_escape l = l
view_in after_bracket l = l

-- The loop: `none` while the input has not ended the line. `l` has been shown if a key is next.
unfoldable pub edit : ℕ → Mode → Line → List ℕ → Option Line
unfolding feed view
edit size m l [] = none
edit size m l (c ∷ cs) = elim (feed size m c l) [
  | none ↦ some l
  | some (m', l') ↦ edit size m' (view_in m' l') cs
]

-- The end of `getline`; the last `render` has no cursor, its position being -1.
unfoldable pub getline : ℕ → List ℕ → List ℕ → Option Line
unfolding edit
getline size buf input =
    elim (edit size key (view (record { buf = buf; pos = 0; len = 0; prev_len = 0; out = [] }))
      input) [
        | none ↦ none
        | some l ↦
            some (record l { out = l.out ++ (render l.buf l.len (2 ^ 64 - 1) ++ puts (10 ∷ [])) })
      ]
