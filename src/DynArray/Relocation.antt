-- ===== src/DynArray/Relocation.antt =====
-- An insertion that fills the array moves it. `memcpy` is given the number of elements where it
-- wants the number of bytes, so all is well for elements of one byte only.
use yay_os.Base.{
  ℕ, ◌+◌, ◌*◌, ◌^◌, ◌≤◌, ◌<◌, ◌≡◌, true, false, Option, none, some, List, arith, ◌==◌,
  if◌then◌else◌, length, set, get_elem?, length-set,
}
use yay_os.DynArray.{DynArray, calculate_capacity, copy_bytes, relocate, push_back, at}
use yay_os.DynArray.Capacity.{calculate_capacity_lem}
use yay_os.DynArray.Contents.{IsValid, get_elem?-set, length-copy_bytes, copied, not_copied}

module _ {A : Type 0} (width : ℕ) (blend : ℕ → A → A → A) (new_array : ℕ → Option (List A))
    (a : DynArray A) (v : IsValid a) (x : A) (last : a.size + 1 ≡ a.capacity) where
  -- If no memory is to be had, `pushBack` says so and the array reads as before.
  pub push_back_failed :
      new_array (calculate_capacity (a.size + 1)) ≡ none
      → ((push_back width blend new_array x a).1 ≡ false)
        × ((i : ℕ) → at (push_back width blend new_array x a).0 i ≡ at a i)
  unfolding push_back relocate at
  push_back_failed failed =
      (ground arith, λ i. ground (arith, get_elem?-set a.items a.size i x, v.allocated))

  module _ (fresh : List A) (got : new_array (calculate_capacity (a.size + 1)) ≡ some fresh)
      (sized : length fresh ≡ calculate_capacity (a.size + 1)) (small : a.size + 1 < 2 ^ 63)
      (some_width : 0 < width) where
    grown : DynArray A
    grown = record a {
      items = copy_bytes width blend (a.size + 1) fresh (set a.items a.size x);
      size = a.size + 1;
      capacity = calculate_capacity (a.size + 1);
    }

    push_back-grown : push_back width blend new_array x a ≡ (grown, true)
    unfolding push_back relocate grown
    push_back-grown = ground arith

    pub push_back_grown-IsValid : IsValid (push_back width blend new_array x a).0
    unfolding grown
    push_back_grown-IsValid = rw push_back-grown (record {
      allocated =
          omega (arith, length-copy_bytes width blend (a.size + 1) fresh (set a.items a.size x));
      room = omega (arith, calculate_capacity_lem (a.size + 1));
    })

    at-grown :
        (i : ℕ)
        → i ≤ a.size
        → at (push_back width blend new_array x a).0 i
          ≡ get_elem? (copy_bytes width blend (a.size + 1) fresh (set a.items a.size x)) i
    unfolding grown at
    at-grown i h = rw push_back-grown (ground arith)

    -- For elements of one byte an insertion that fills the array keeps every element and appends
    -- the new one, when the fresh memory is to be had.
    pub at-push_back_bytes :
        width ≡ 1
        → (i : ℕ) → i ≤ a.size
        → at (push_back width blend new_array x a).0 i ≡ (if i == a.size then some x else at a i)
    unfolding at
    at-push_back_bytes one i h = ground (
      arith,
      at-grown i h,
      copied width blend (a.size + 1) fresh (set a.items a.size x) i,
      get_elem?-set a.items a.size i x,
      length-set a.items a.size x,
      calculate_capacity_lem (a.size + 1),
      v.allocated,
    )

    -- After an insertion that fills the array, when the fresh memory is to be had, the array holds, from the first element that starts behind the number of
    -- elements counted as bytes, what the fresh memory held, the element just pushed included.
    pub push_back_loses :
        (i : ℕ)
        → i ≤ a.size
        → a.size + 1 ≤ i * width
        → at (push_back width blend new_array x a).0 i ≡ get_elem? fresh i
    push_back_loses i h lost = ground (
      arith,
      at-grown i h,
      not_copied width blend (a.size + 1) fresh (set a.items a.size x) i some_width lost,
    )
