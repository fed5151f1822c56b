-- ===== src/DynArray/Contents.antt =====
-- The elements of a growing array, and what an insertion that stays in place does to them.
use yay_os.Base.{
  ℕ, zero, suc, ◌+◌, ◌-◌, ◌*◌, ◌≤◌, ◌<◌, ◌≡◌, refl, true, Option, some, List, [], ◌∷◌, arith, ◌==◌,
  if◌then◌else◌, length, set, get_elem?, length-set,
}
use yay_os.DynArray.{DynArray, copy_bytes, push_back, at}

-- There is always room for one more element.
pub record IsValid {A : Type 0} (a : DynArray A) : Type 0 where
  pub allocated : length a.items ≡ a.capacity
  pub room : a.size < a.capacity

pub get_elem?-set :
    {A : Type 0} (xs : List A) (i j : ℕ) (v : A)
    → i < length xs
    → get_elem? (set xs i v) j ≡ (if i == j then some v else get_elem? xs j)
get_elem?-set [] i j v h = absurd (omega arith)
get_elem?-set (x ∷ xs) zero zero v h = refl
get_elem?-set (x ∷ xs) zero (suc j) v h = ground arith
get_elem?-set (x ∷ xs) (suc i) zero v h = ground arith
get_elem?-set (x ∷ xs) (suc i) (suc j) v h = ground (arith, get_elem?-set xs i j v)

module _ {A : Type 0} (width : ℕ) (blend : ℕ → A → A → A) where
  pub length-copy_bytes :
      (n : ℕ) (ds ss : List A) → length (copy_bytes width blend n ds ss) ≡ length ds
  unfolding copy_bytes
  length-copy_bytes n [] ss = refl
  length-copy_bytes n (d ∷ ds) [] = refl
  length-copy_bytes n (d ∷ ds) (s ∷ ss) = ground (arith, length-copy_bytes (n - width) ds ss)

  -- An element whose bytes are all counted is copied.
  pub copied :
      (n : ℕ) (ds ss : List A) (i : ℕ)
      → 0 < width
      → suc i * width ≤ n
      → i < length ds
      → i < length ss
      → get_elem? (copy_bytes width blend n ds ss) i ≡ get_elem? ss i
  unfolding copy_bytes
  copied n [] ss i w h k l = absurd (omega arith)
  copied n (d ∷ ds) [] i w h k l = absurd (omega arith)
  copied n (d ∷ ds) (s ∷ ss) zero w h k l = ground arith
  copied n (d ∷ ds) (s ∷ ss) (suc i) w h k l =
      let fits : width ≤ n = omega arith in
      ground (arith, copied (n - width) ds ss i w (omega arith) (omega arith) (omega arith))

  -- An element that no counted byte reaches keeps what the destination held.
  pub not_copied :
      (n : ℕ) (ds ss : List A) (i : ℕ)
      → 0 < width
      → n ≤ i * width
      → get_elem? (copy_bytes width blend n ds ss) i ≡ get_elem? ds i
  unfolding copy_bytes
  not_copied n [] ss i w h = refl
  not_copied n (d ∷ ds) [] i w h = refl
  not_copied n (d ∷ ds) (s ∷ ss) zero w h = ground arith
  not_copied n (d ∷ ds) (s ∷ ss) (suc i) w h =
      ground (arith, not_copied (n - width) ds ss i w (omega arith))

  module _ (new_array : ℕ → Option (List A)) (a : DynArray A) (v : IsValid a) (x : A) where
    pub push_back-in_place :
        a.size + 1 < a.capacity
        → push_back width blend new_array x a
          ≡ (record a { items = set a.items a.size x; size = a.size + 1 }, true)
    unfolding push_back
    push_back-in_place h = ground arith

    -- In an array with room for two more elements, which does not grow, `pushBack` appends: the new element is read back behind the
    -- old ones, which stay, and room for another is left.
    pub at-push_back :
        a.size + 1 < a.capacity
        → IsValid (push_back width blend new_array x a).0
          × ((push_back width blend new_array x a).1 ≡ true)
          × ((i : ℕ)
              → at (push_back width blend new_array x a).0 i
                ≡ (if i == a.size then some x else at a i))
    unfolding at
    at-push_back h = rw (push_back-in_place h) (
      record { allocated = omega (arith, length-set a.items a.size x, v.allocated); room = h },
      refl,
      λ i. ground (arith, get_elem?-set a.items a.size i x, v.allocated, v.room),
    )
