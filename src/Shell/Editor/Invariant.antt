-- ===== src/Shell/Editor/Invariant.antt =====
-- The cursor stays in the text, and the text in the buffer.
use yay_os.Base.{ℕ, ◌-◌, ◌≤◌, ◌<◌, arith, length}
use yay_os.Shell.Buffer.{length-insert_char, length-remove_char}
use yay_os.Shell.Editor.{
  Line, Mode, key, after_escape, after_bracket, type_char, rub_out, move_left, move_right, view,
  view_in,
}

-- `size` is what `getline` is called with, one less than the buffer has.
pub record IsValid (size : ℕ) (l : Line) : Type 0 where
  pub cursor : l.pos ≤ l.len
  pub fits : l.len ≤ size
  pub buffer : size < length l.buf

module _ (size : ℕ) (l : Line) (v : IsValid size l) where
  pub type_char-IsValid : (c : ℕ) → IsValid size (type_char size c l)
  unfolding type_char
  type_char-IsValid c = ground (arith, length-insert_char l.buf l.pos l.len c)

  pub rub_out-IsValid : IsValid size (rub_out l)
  unfolding rub_out
  rub_out-IsValid = ground (arith, length-remove_char l.buf (l.pos - 1) l.len)

  pub move_left-IsValid : IsValid size (move_left l)
  unfolding move_left
  move_left-IsValid = ground arith

  pub move_right-IsValid : IsValid size (move_right l)
  unfolding move_right
  move_right-IsValid = ground arith

  pub view_in-IsValid : (m : Mode) → IsValid size (view_in m l)
  unfolding view
  view_in-IsValid key = ground arith
  view_in-IsValid after_escape = v
  view_in-IsValid after_bracket = v
