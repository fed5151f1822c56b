-- ===== src/Descriptor/Alloc.antt =====
-- Descriptor allocation.
use yay_os.Base.{
  ℕ, zero, suc, ◌+◌, ◌^◌, ◌≤◌, ◌<◌, ◌≡◌, inl, inr, Bool, true, false, Option, none, some, List,
  arith, Bool-cases, ◌∙◌, is_some, set, length-set, max, ℕ_discrete, Option-cases, subst,
}
use yay_os.Base.Int.{pos}
use yay_os.DynArray.{at}
use yay_os.DynArray.Contents.{IsValid, get_elem?-set, push_back-in_place}
use yay_os.Descriptor.{
  LocalDescriptorHandle, empty_handle, handle_width, Handles, handle_at, write_at, find_free,
  alloc_descriptor,
}
use yay_os.Descriptor.Access.{get_elem?-modify, write_at-IsValid}

abbrev pub FirstFree : ℕ → ℕ → Handles → Option ℕ → Type 0
FirstFree i end t none = (j : ℕ) → i ≤ j → j < end → is_some (handle_at t j) ≡ true
FirstFree i end t (some k) =
    (i ≤ k)
    × (k < end)
    × (is_some (handle_at t k) ≡ false)
    × ((j : ℕ) → i ≤ j → j < k → is_some (handle_at t j) ≡ true)

FirstFree-cons :
    (i end : ℕ) (t : Handles) (r : Option ℕ)
    → is_some (handle_at t i) ≡ true
    → FirstFree (i + 1) end t r
    → FirstFree i end t r
FirstFree-cons i end t none here rest =
    λ j h k. elim (ℕ_discrete i j) [ yes e ↦ rw (← e) here | no ne ↦ rest j (omega arith) k ]
FirstFree-cons i end t (some m) here (a, b, c, d) = (
  omega arith,
  b,
  c,
  λ j h k. elim (ℕ_discrete i j) [ yes e ↦ rw (← e) here | no ne ↦ d j (omega arith) k ],
)

find_free-FirstFree : (n i : ℕ) (t : Handles) → FirstFree i (i + n) t (find_free n i t)
unfolding find_free
find_free-FirstFree zero i t = λ j h k. absurd (omega arith)
find_free-FirstFree (suc n) i t = elim (Bool-cases (is_some (handle_at t i))) [
  | inl taken ↦
      let e : i + suc n ≡ i + 1 + n = omega arith in
      rw (taken, e)
        (FirstFree-cons i (i + 1 + n) t (find_free n (i + 1) t) taken
          (find_free-FirstFree n (i + 1) t))
  | inr free ↦ rw free (omega arith, omega arith, free, λ j h k. absurd (omega arith))
]

-- The writes of `closeOnExec` leave every handle.
handle_at-flag :
    (t : Handles) (i j : ℕ) (flag : Bool)
    → handle_at (write_at t i (λ e. record e { close_on_exec = flag })) j ≡ handle_at t j
unfolding at
handle_at-flag t i j flag =
    ground (arith, get_elem?-modify t.items i j (λ e. record e { close_on_exec = flag }))

handle_at-pushed :
    (t : Handles) (j : ℕ)
    → IsValid t
    → handle_at (record t { items = set t.items t.size empty_handle; size = t.size + 1 }) j
      ≡ handle_at t j
unfolding at
handle_at-pushed t j v =
    ground (arith, get_elem?-set t.items t.size j empty_handle, v.allocated, v.room)

-- `allocDescriptor` returned the number `k` and the table `t'`.
pub record Allocated (t : Handles) (k : ℕ) (t' : Handles) : Type 0 where
  pub valid : IsValid t'
  pub grown : t'.size ≡ max t.size (k + 1)
  pub in_table : k < t'.size
  pub is_null : handle_at t' k ≡ none
  pub lowest : (j : ℕ) → j < k → is_some (handle_at t j) ≡ true
  pub kept : (j : ℕ) → handle_at t' j ≡ handle_at t j

handle_at-none : (t : Handles) (j : ℕ) → is_some (handle_at t j) ≡ false → handle_at t j ≡ none
handle_at-none t j h = ground arith

module _ (blend : ℕ → LocalDescriptorHandle → LocalDescriptorHandle → LocalDescriptorHandle)
    (new_array : ℕ → Option (List LocalDescriptorHandle)) (t : Handles) (v : IsValid t)
    (space : t.size + 1 < t.capacity) (small : t.size + 1 < 2 ^ 63) where
  alloc_free :
      (k : ℕ)
      → find_free t.size 0 t ≡ some k
      → FirstFree 0 t.size t (some k)
      → (alloc_descriptor blend new_array t
          ≡ (write_at t k (λ e. record e { close_on_exec = false }), pos k))
        × Allocated t k (write_at t k (λ e. record e { close_on_exec = false }))
  unfolding alloc_descriptor
  alloc_free k found (_, inside, free, before) = (
    rw (found, alloc_descriptor) (ground arith),
    record {
      valid = write_at-IsValid t k (λ e. record e { close_on_exec = false }) v;
      grown = omega (arith, inside);
      in_table = inside;
      is_null = handle_at-flag t k k false ∙ handle_at-none t k free;
      lowest = λ j h. before j (omega arith) h;
      kept = λ j. handle_at-flag t k j false;
    },
  )

  pushed : Handles
  pushed = record t { items = set t.items t.size empty_handle; size = t.size + 1 }

  alloc_new :
      find_free t.size 0 t ≡ none
      → FirstFree 0 t.size t none
      → (alloc_descriptor blend new_array t
          ≡ (write_at pushed t.size (λ e. record e { close_on_exec = false }), pos t.size))
        × Allocated t t.size (write_at pushed t.size (λ e. record e { close_on_exec = false }))
  unfolding alloc_descriptor pushed at
  alloc_new missing full = (
    rw
        (
          alloc_descriptor,
          missing,
          push_back-in_place handle_width blend new_array t v empty_handle space,
        )
        (ground arith),
    record {
      valid =
          write_at-IsValid pushed t.size (λ e. record e { close_on_exec = false })
            (record {
              allocated = omega (arith, length-set t.items t.size empty_handle, v.allocated);
              room = omega (arith, space);
            });
      grown = omega arith;
      in_table = omega arith;
      is_null =
          handle_at-flag pushed t.size t.size false ∙ handle_at-pushed t t.size v ∙ (ground arith);
      lowest = λ j h. full j (omega arith) h;
      kept = λ j. handle_at-flag pushed t.size j false ∙ handle_at-pushed t j v;
    },
  )

  -- While the table has room for two more elements and is smaller than 2^63 - 1, `allocDescriptor` returns the lowest number whose handle is null,
  -- a new one if there is none, leaves every handle as it was, and grows the table only as far as
  -- that number.
  pub alloc_descriptor-lowest :
      (k : ℕ) × ((alloc_descriptor blend new_array t).1 ≡ pos k)
      × Allocated t k (alloc_descriptor blend new_array t).0
  alloc_descriptor-lowest =
      let first : FirstFree 0 t.size t (find_free t.size 0 t) =
        subst (λ e. FirstFree 0 e t (find_free t.size 0 t)) (omega arith)
          (find_free-FirstFree t.size 0 t) in
      elim (Option-cases (find_free t.size 0 t)) [
        | inl missing ↦
            let (e, is) = alloc_new missing (subst (FirstFree 0 t.size t) missing first) in
            (t.size, rw e, rw e is)
        | inr (k, found) ↦
            let (e, is) = alloc_free k found (subst (FirstFree 0 t.size t) found first) in
            (k, rw e, rw e is)
      ]
