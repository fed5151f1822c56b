-- ===== src/Vfs/Path/Visits.antt =====
-- An iterator stops at the parts of its path.
use yay_os.Base.{
  ℕ, zero, suc, ◌+◌, ◌<◌, ◌≡◌, refl, sym, subst, ap, ◌∙◌, ◌⊎◌, true, false, List, [], ◌∷◌, ◌==◌,
  if◌then◌else◌, arith, length, drop, drop-add, drop-all, Bool-cases, inl, inr,
}
use yay_os.Vfs.Path.{
  path_separator, PathIterator, cut_path, new_iterator, front, get, at_end, skip, next, visited,
  add_front, parts_of, IsText,
}

-- The bytes in front of the first separator, and what follows it.
abbrev first_length : List ℕ → ℕ
first_length [] = 0
first_length (c ∷ cs) = if c == path_separator then 0 else suc (first_length cs)

abbrev pub behind_first : List ℕ → List ℕ
behind_first [] = []
behind_first (c ∷ cs) = if c == path_separator then cs else behind_first cs

pub IsText-behind : (cs : List ℕ) → IsText cs → IsText (behind_first cs)
IsText-behind [] t = t
IsText-behind (c ∷ cs) (h, t) = elim (Bool-cases (c == path_separator)) [
  | inl here ↦ rw here t
  | inr there ↦ rw there (IsText-behind cs t)
]

skip_first : (pos : ℕ) (cs : List ℕ) → IsText cs → skip pos (cut_path cs) ≡ pos + first_length cs
unfolding skip cut_path
skip_first pos [] t = omega arith
skip_first pos (c ∷ cs) (h, t) = ground (arith, skip_first (pos + 1) cs t, h)

-- The first part ends the text, or a separator and the rest follow.
rest_of :
    (cs : List ℕ)
    → ((first_length cs ≡ length cs) × (behind_first cs ≡ []))
      ⊎ ((drop (first_length cs + 1) (cut_path cs) ≡ cut_path (behind_first cs))
          × (first_length cs + 1 + length (behind_first cs) ≡ length cs))
unfolding cut_path
rest_of [] = inl (refl, refl)
rest_of (c ∷ cs) = elim (Bool-cases (c == path_separator)) [
  | inl here ↦ rw here (inr (refl, omega arith))
  | inr there ↦ rw there (elim (rest_of cs) [
    | inl (e, none_left) ↦ inl (omega (arith, e), none_left)
    | inr (e, f) ↦
        let one : suc (first_length cs) + 1 ≡ suc (first_length cs + 1) = omega arith in
        inr (rw one e, omega (arith, f))
  ])
]

-- The parts of a text that is not empty.
pub parts-first :
    (c : ℕ) (cs : List ℕ)
    → IsText (c ∷ cs)
    → parts_of (c ∷ cs) ≡ front (cut_path (c ∷ cs)) ∷ parts_of (behind_first (c ∷ cs))
unfolding cut_path front
parts-first c [] (h, t) = ground (arith, h)
parts-first c (d ∷ cs) (h, t) = elim (Bool-cases (c == path_separator)) [
  | inl here ↦ rw here refl
  | inr there ↦
      let text : (c == 0) ≡ false = ground (arith, h) in
      rw (there, text) (ap (add_front c) (parts-first d cs t))
]

-- The iterator stands in front of some bytes of its path.
pub record Stands (it : PathIterator) (cs : List ℕ) : Type 0 where
  pub behind : drop it.pos it.pathcopy ≡ cut_path cs
  pub ends : it.pos + length cs ≡ it.end_pos

length-cut_path : (cs : List ℕ) → length (cut_path cs) ≡ length cs
unfolding cut_path
length-cut_path [] = refl
length-cut_path (c ∷ cs) = ap suc (length-cut_path cs)

-- The bytes further on.
further :
    (it : PathIterator) (cs : List ℕ) (n : ℕ)
    → Stands it cs
    → drop (it.pos + n) it.pathcopy ≡ drop n (cut_path cs)
further it cs n s = drop-add it.pos n it.pathcopy ∙ ap (drop n) s.behind

pub Stands-next :
    (it : PathIterator) (cs : List ℕ)
    → IsText cs
    → 0 < length cs
    → Stands it cs
    → Stands (next it) (behind_first cs) × (length (behind_first cs) < length cs)
unfolding next cut_path
Stands-next it cs t h s =
    let moved : skip it.pos (drop it.pos it.pathcopy) ≡ it.pos + first_length cs =
      subst (λ bs. skip it.pos bs ≡ it.pos + first_length cs) (sym s.behind)
        (skip_first it.pos cs t) in
    elim (rest_of cs) [
      | inl (e, none_left) ↦
          let ended : (it.pos + first_length cs == it.end_pos) ≡ true = ground (arith, e, s.ends) in
          rw (moved, ended, none_left)
            (
              record {
                behind =
                    further it cs (first_length cs) s
                    ∙ drop-all (first_length cs) (cut_path cs)
                        (omega (arith, length-cut_path cs, e));
                ends = omega (arith, e, s.ends);
              },
              h,
            )
      | inr (e, f) ↦
          let more : (it.pos + first_length cs == it.end_pos) ≡ false = ground (arith, f, s.ends) in
          let one : it.pos + first_length cs + 1 ≡ it.pos + (first_length cs + 1) = omega arith in
          rw (moved, more)
            (
              record {
                behind = rw one (further it cs (first_length cs + 1) s ∙ e);
                ends = omega (arith, f, s.ends);
              },
              omega (arith, f),
            )
    ]

visited-parts :
    (fuel : ℕ) (it : PathIterator) (cs : List ℕ)
    → IsText cs
    → Stands it cs
    → length cs < fuel
    → visited fuel it ≡ parts_of cs
unfolding visited at_end get
visited-parts zero it cs t s h = absurd (omega (arith, h))
visited-parts (suc fuel) it [] t s h =
    let ended : (it.pos == it.end_pos) ≡ true = ground (arith, s.ends) in rw ended refl
visited-parts (suc fuel) it (c ∷ cs) t s h =
    let more : (it.pos == it.end_pos) ≡ false = ground (arith, s.ends) in
    let (s', shorter) = Stands-next it (c ∷ cs) t (omega arith) s in
    let rest =
      visited-parts fuel (next it) (behind_first (c ∷ cs)) (IsText-behind (c ∷ cs) t) s'
        (omega (arith, h, shorter)) in
    rw (more, s.behind, rest) (sym (parts-first c cs t))

pub new_iterator-Stands : (path : List ℕ) → Stands (new_iterator path) path
unfolding new_iterator
new_iterator-Stands path = record { behind = refl; ends = omega arith }

-- Going through a path without 0 bytes, an iterator stops at the parts between the separators, in
-- order, without an empty part at the end. One round more than the path has bytes is enough.
pub visited-new_iterator :
    (path : List ℕ) (fuel : ℕ)
    → IsText path
    → length path < fuel
    → visited fuel (new_iterator path) ≡ parts_of path
visited-new_iterator path fuel t h =
    visited-parts fuel (new_iterator path) path t (new_iterator-Stands path) h
