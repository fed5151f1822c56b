-- ===== src/Shell/Tests.antt =====
-- The theorems on the line editor at a small buffer.
use yay_os.Base.{ℕ, List, [], ◌∷◌, arith}
use yay_os.Shell.Editor.{key, getline}
use yay_os.Shell.Editor.Refine.{Ended, edit_text, getline-Ended}

abbrev buffer : List ℕ
buffer = 1 ∷ 2 ∷ 3 ∷ 4 ∷ []

-- `l`, cursor left, `s`, return.
abbrev keys : List ℕ
keys = b'l' ∷ 27 ∷ b'[' ∷ b'D' ∷ b's' ∷ 13 ∷ []

getline-Ended_example :
    Ended 3 (getline 3 buffer keys) (edit_text 3 key (record { before = []; after = [] }) keys)
getline-Ended_example = getline-Ended 3 buffer keys (omega arith)
