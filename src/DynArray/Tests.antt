-- ===== src/DynArray/Tests.antt =====
-- The theorems on growing arrays at small arrays.
use yay_os.Base.{ℕ, true, Option, some, List, [], ◌∷◌, replicate}
use yay_os.DynArray.{DynArray}

abbrev no_blend : ℕ → ℕ → ℕ → ℕ
no_blend k d s = d

-- Fresh memory is full of nines.
abbrev nines : ℕ → Option (List ℕ)
nines n = some (replicate n 9)

abbrev small : DynArray ℕ
small = record { items = 5 ∷ 6 ∷ 0 ∷ 0 ∷ []; size = 2; capacity = 4; disposed = true }

abbrev full : DynArray ℕ
full = record { items = 5 ∷ 6 ∷ 7 ∷ 0 ∷ []; size = 3; capacity = 4; disposed = true }
