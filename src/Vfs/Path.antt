-- ===== src/Vfs/Path.antt =====
-- The parts of a path: PathIterator of YYSloth/include/fs/pathiter.hpp. The copy of the path is the
-- list of its bytes in front of the final 0; a loop that advances the position while a byte is not
-- 0 is a recursion on the bytes from the position on.
pub mod Visits
use yay_os.Base.{
  ℕ, zero, suc, ◌+◌, ◌-◌, ◌≤◌, ◌<◌, ◌≡◌, refl, sym, subst, ap, ◌∙◌, Bool, true, false, List, [],
  ◌∷◌, ◌==◌, if◌then◌else◌, arith, length, drop, map, Bool-cases, inl, inr,
}

abbrev pub path_separator : ℕ
path_separator = 92

pub record PathIterator : Type 0 where
  pub pathcopy : List ℕ
  pub pos : ℕ
  pub end_pos : ℕ
  pub basename_pos : ℕ

-- The separators become 0 bytes.
unfoldable pub cut_path : List ℕ → List ℕ
cut_path [] = []
cut_path (c ∷ cs) = (if c == path_separator then 0 else c) ∷ cut_path cs

-- The position behind the last separator among the bytes from index `i` on.
unfoldable pub last_part : ℕ → ℕ → List ℕ → ℕ
last_part i found [] = found
last_part i found (c ∷ cs) = last_part (i + 1) (if c == path_separator then i + 1 else found) cs

unfoldable pub new_iterator : List ℕ → PathIterator
unfolding cut_path last_part
new_iterator path = record {
  pathcopy = cut_path path;
  pos = 0;
  end_pos = length path;
  basename_pos = last_part 0 0 path;
}

-- The C string at the front of some bytes.
unfoldable pub front : List ℕ → List ℕ
front [] = []
front (c ∷ cs) = if c == 0 then [] else c ∷ front cs

unfoldable pub get : PathIterator → List ℕ
unfolding front
get it = front (drop it.pos it.pathcopy)

unfoldable pub get_basename : PathIterator → List ℕ
unfolding front
get_basename it = front (drop it.basename_pos it.pathcopy)

unfoldable pub at_end : Bool → PathIterator → Bool
at_end include_basename it = it.pos == (if include_basename then it.end_pos else it.basename_pos)

-- The loop of `next`.
unfoldable pub skip : ℕ → List ℕ → ℕ
skip pos [] = pos
skip pos (c ∷ cs) = if c == 0 then pos else skip (pos + 1) cs

unfoldable pub next : PathIterator → PathIterator
unfolding skip
next it =
    let pos = skip it.pos (drop it.pos it.pathcopy) in
    if pos == it.end_pos then record it { pos = pos } else record it { pos = pos + 1 }

-- The strings at which an iterator stops, on fuel.
unfoldable pub visited : ℕ → PathIterator → List (List ℕ)
visited zero it = []
visited (suc fuel) it =
    let rest = visited fuel (next it) in if at_end true it then [] else get it ∷ rest

-- The parts of a path between its separators, without an empty one at the end.
abbrev pub add_front : ℕ → List (List ℕ) → List (List ℕ)
add_front c [] = (c ∷ []) ∷ []
add_front c (part ∷ parts) = (c ∷ part) ∷ parts

abbrev pub parts_of : List ℕ → List (List ℕ)
parts_of [] = []
parts_of (c ∷ cs) = if c == path_separator then [] ∷ parts_of cs else add_front c (parts_of cs)

-- No byte of a C string is 0.
abbrev pub IsText : List ℕ → Type 0
IsText [] = Unit
IsText (c ∷ cs) = (0 < c) × IsText cs
