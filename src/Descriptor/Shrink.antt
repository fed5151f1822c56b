-- ===== src/Descriptor/Shrink.antt =====
-- Closing a descriptor shrinks the table, which moves it.
use yay_os.Base.{
  ℕ, zero, suc, ◌*◌, ◌^◌, ◌≤◌, ◌<◌, ◌≡◌, ◌≢◌, ◌⊎◌, refl, Option-cases, inl, inr, true, false,
  Option, none, some, List, arith, ◌==◌, if◌then◌else◌, Bool-cases, get_elem?, is_some, subst, sym,
  ℕ_discrete,
}
use yay_os.Base.Int.{pos}
use yay_os.DynArray.{at, calculate_capacity, relocate, resize}
use yay_os.DynArray.Contents.{IsValid, not_copied}
use yay_os.Descriptor.{
  LocalDescriptorHandle, handle_width, Handles, handle_at, write_at, shrunk_size, shrink_to_fit,
  free_descriptor, get_descriptor, is_bad,
}
use yay_os.Descriptor.Access.{handle_at-write}

-- The size that `shrinkToFit` finds: the handles behind it are null, the one in front of it is not.
pub record IsShrunk (t : Handles) (n m : ℕ) : Type 0 where
  pub within : m ≤ n
  pub empty : (j : ℕ) → m ≤ j → j < n → is_some (handle_at t j) ≡ false
  pub last : (j : ℕ) → m ≡ suc j → is_some (handle_at t j) ≡ true

pub shrunk_size_lem : (n : ℕ) (t : Handles) → IsShrunk t n (shrunk_size n t)
unfolding shrunk_size
shrunk_size_lem zero t = record {
  within = omega arith;
  empty = λ j h k. absurd (omega arith);
  last = λ j e. absurd (omega arith);
}
shrunk_size_lem (suc n) t = elim (Bool-cases (is_some (handle_at t n))) [
  | inl used ↦ rw used (record {
    within = omega arith;
    empty = λ j h k. absurd (omega arith);
    last = λ j e. let same : j ≡ n = omega arith in rw same used;
  })
  | inr null ↦
      let ih = shrunk_size_lem n t in
      rw null (record {
        within = omega (arith, ih.within);
        empty = λ j h k. elim (ℕ_discrete j n) [
          | yes same ↦ rw same null
          | no below ↦ ih.empty j h (omega arith)
        ];
        last = ih.last;
      })
]

shrunk_size-used :
    (t : Handles) (m : ℕ) → is_some (handle_at t m) ≡ true → shrunk_size (suc m) t ≡ suc m
unfolding shrunk_size
shrunk_size-used t m h = rw h

-- A table whose last descriptor is open is left alone.
shrink_to_fit-whole :
    (blend : ℕ → LocalDescriptorHandle → LocalDescriptorHandle → LocalDescriptorHandle)
    (new_array : ℕ → Option (List LocalDescriptorHandle)) (t : Handles)
    → shrunk_size t.size t ≡ t.size
    → shrink_to_fit blend new_array t ≡ t
unfolding shrink_to_fit resize
shrink_to_fit-whole blend new_array t h = ground arith

shrunk_size-null : (t : Handles) (m : ℕ) → handle_at t m ≡ none → shrunk_size (suc m) t ≤ m
unfolding shrunk_size
shrunk_size-null t m h = rw h ((shrunk_size_lem m t).within)

get_descriptor-null : (t : Handles) (k : ℕ) → handle_at t k ≡ none → get_descriptor (pos k) t ≡ none
unfolding get_descriptor
get_descriptor-null t k h = elim (Bool-cases (is_bad (pos k) t)) [
  | inl bad ↦ rw bad refl
  | inr good ↦ rw (good, h) refl
]

get_descriptor-beyond :
    (t : Handles) (k : ℕ) → t.size ≤ k → k < 2 ^ 63 → get_descriptor (pos k) t ≡ none
unfolding get_descriptor
get_descriptor-beyond t k h small =
    let bad : is_bad (pos k) t ≡ true = ground (arith, h, small) in rw bad refl

module _ (blend : ℕ → LocalDescriptorHandle → LocalDescriptorHandle → LocalDescriptorHandle)
    (new_array : ℕ → Option (List LocalDescriptorHandle)) (m : ℕ) (t : Handles) where
  resize-moved :
      (fresh : List LocalDescriptorHandle)
      → m < t.size
      → new_array (calculate_capacity m) ≡ some fresh
      → (resize handle_width blend new_array m t).0.size ≡ m
  unfolding resize relocate
  resize-moved fresh h got = ground (arith, got)

  resize-kept :
      m < t.size
      → new_array (calculate_capacity m) ≡ none
      → (resize handle_width blend new_array m t).0 ≡ t
  unfolding resize relocate
  resize-kept h missing = ground (arith, missing)

  -- An entry that was null is null in a smaller table too, if the smaller size leaves it out.
  resized-null :
      (k : ℕ)
      → m ≤ k
      → k < t.size
      → t.size < 2 ^ 63
      → handle_at t k ≡ none
      → get_descriptor (pos k) (resize handle_width blend new_array m t).0 ≡ none
  resized-null k h l small null = elim (Option-cases (new_array (calculate_capacity m))) [
    | inl missing ↦ rw (resize-kept (omega (arith, h, l)) missing) (get_descriptor-null t k null)
    | inr (fresh, got) ↦
        get_descriptor-beyond _ k (omega (arith, h, resize-moved fresh (omega (arith, h, l)) got))
          (omega (arith, l, small))
  ]

module _ (blend : ℕ → LocalDescriptorHandle → LocalDescriptorHandle → LocalDescriptorHandle)
    (new_array : ℕ → Option (List LocalDescriptorHandle)) (t : Handles) (k : ℕ) (v : IsValid t)
    (inside : k < t.size) (small : t.size < 2 ^ 63) where
  abbrev pub closed : Handles
  closed = write_at t k (λ e. record e { handle = none })

  free-shrinks :
      free_descriptor blend new_array (pos k) t ≡ (shrink_to_fit blend new_array closed, pos 1)
  unfolding free_descriptor
  free-shrinks = ground arith

  -- While the last descriptor of the table is open and another one is closed, the closed one
  -- reads as null and every other one stays.
  pub free_descriptor-inner :
      (j : ℕ)
      → t.size ≡ suc j
      → k ≢ j
      → is_some (handle_at t j) ≡ true
      → (i : ℕ)
      → handle_at (free_descriptor blend new_array (pos k) t).0 i
        ≡ (if k == i then none else handle_at t i)
  free_descriptor-inner j last ne used i =
      let still : is_some (handle_at closed j) ≡ true =
        ground (arith, handle_at-write t k j none v inside) in
      let whole : shrunk_size t.size closed ≡ t.size =
        subst (λ n. shrunk_size n closed ≡ n) (sym last) (shrunk_size-used closed j still) in
      rw (free-shrinks, shrink_to_fit-whole blend new_array closed whole)
        (ground (arith, handle_at-write t k i none v inside))

  -- Closing a descriptor such that the table shrinks moves the table, when the fresh memory is to be had, and the descriptors from number 1 on that
  -- stay open then hold whatever the fresh memory held, as far as its size, counted as bytes, ends.
  pub free_descriptor_loses :
      (fresh : List LocalDescriptorHandle)
      → shrunk_size t.size closed < t.size
      → new_array (calculate_capacity (shrunk_size t.size closed)) ≡ some fresh
      → (i : ℕ) → i < shrunk_size t.size closed
      → shrunk_size t.size closed ≤ i * handle_width
      → handle_at (free_descriptor blend new_array (pos k) t).0 i
        ≡ (elim (get_elem? fresh i) [ none ↦ none | some e ↦ e.handle ])
  unfolding shrink_to_fit resize relocate at
  free_descriptor_loses fresh shrinks got i h lost = rw free-shrinks (
      ground (
        arith,
        not_copied handle_width blend (shrunk_size t.size closed) fresh closed.items i (omega arith)
            lost,
      ))

  -- Closing the last descriptor leaves it null, whether or not the table moves.
  free_last : t.size ≡ suc k → get_descriptor (pos k) (shrink_to_fit blend new_array closed) ≡ none
  unfolding shrink_to_fit
  free_last last =
      let null : handle_at closed k ≡ none = ground (arith, handle_at-write t k k none v inside) in
      let shrunk : shrunk_size t.size closed ≤ k =
        subst (λ n. shrunk_size n closed ≤ k) (sym last) (shrunk_size-null closed k null) in
      resized-null blend new_array (shrunk_size t.size closed) closed k shrunk (omega (arith, last))
        small null

  pub free_descriptor-null :
      (t.size ≡ suc k) ⊎ ((j : ℕ) × (t.size ≡ suc j) × (k ≢ j) × (is_some (handle_at t j) ≡ true))
      → get_descriptor (pos k) (free_descriptor blend new_array (pos k) t).0 ≡ none
  free_descriptor-null (inl last) = rw free-shrinks (free_last last)
  free_descriptor-null (inr (j, last, ne, used)) =
      let here = free_descriptor-inner j last ne used k in
      get_descriptor-null (free_descriptor blend new_array (pos k) t).0 k (ground (arith, here))
