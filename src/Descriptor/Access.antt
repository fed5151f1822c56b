-- ===== src/Descriptor/Access.antt =====
-- Reads and writes of table entries.
use yay_os.Base.{
  ℕ, zero, suc, ◌^◌, ◌<◌, ◌≡◌, refl, inl, inr, Option, none, some, List, [], ◌∷◌, arith, ◌==◌,
  if◌then◌else◌, Bool-cases, length, modify, get_elem?, length-modify, not, ◌&&◌,
}
use yay_os.Base.Int.{ℤ, pos_part}
use yay_os.DynArray.{at}
use yay_os.DynArray.Contents.{IsValid}
use yay_os.Descriptor.{
  LocalDescriptorHandle, Handles, is_bad, handle_at, write_at, get_descriptor, set_descriptor,
}

pub get_elem?-modify {ℓ} :
    {A : Type ℓ} (xs : List A) (i j : ℕ) (f : A → A)
    → get_elem? (modify xs i f) j ≡ (
        if i == j
        then elim (get_elem? xs j) [ none ↦ none | some x ↦ some (f x) ]
        else get_elem? xs j)
get_elem?-modify [] i j f = ground arith
get_elem?-modify (x ∷ xs) zero zero f = refl
get_elem?-modify (x ∷ xs) zero (suc j) f = ground arith
get_elem?-modify (x ∷ xs) (suc i) zero f = ground arith
get_elem?-modify (x ∷ xs) (suc i) (suc j) f = ground (arith, get_elem?-modify xs i j f)

pub write_at-IsValid :
    (t : Handles) (i : ℕ) (f : LocalDescriptorHandle → LocalDescriptorHandle)
    → IsValid t
    → IsValid (write_at t i f)
write_at-IsValid t i f v = record {
  allocated = omega (arith, length-modify t.items i f, v.allocated);
  room = v.room;
}

pub get_elem?-eq-some :
    {A : Type 0} (xs : List A) (i : ℕ) → i < length xs → (x : A) × (get_elem? xs i ≡ some x)
get_elem?-eq-some [] i h = absurd (omega arith)
get_elem?-eq-some (x ∷ xs) zero h = (x, refl)
get_elem?-eq-some (x ∷ xs) (suc i) h = get_elem?-eq-some xs i (omega arith)

pub handle_at-write :
    (t : Handles) (i j : ℕ) (desc : Option ℕ)
    → IsValid t
    → i < t.size
    → handle_at (write_at t i (λ e. record e { handle = desc })) j
      ≡ (if i == j then desc else handle_at t j)
unfolding at
handle_at-write t i j desc v h =
    let (e, found) = get_elem?-eq-some t.items i (omega (arith, v.allocated, v.room)) in
    ground (arith, found, get_elem?-modify t.items i j (λ e. record e { handle = desc }))

-- In a table that is smaller than 2^63, a descriptor that is set reads back, and no other descriptor changes; numbers that are negative
-- or not below the size of the table are refused and read as null.
pub get_descriptor-set_descriptor :
    (t : Handles) (fd other : ℤ) (desc : Option ℕ)
    → IsValid t
    → t.size < 2 ^ 63
    → ((set_descriptor fd desc t).1 ≡ not (is_bad fd t))
      × (get_descriptor other (set_descriptor fd desc t).0 ≡ (
          if is_bad other t
          then none
          else if not (is_bad fd t) && (pos_part fd == pos_part other)
          then desc
          else handle_at t (pos_part other)))
unfolding get_descriptor set_descriptor
get_descriptor-set_descriptor t fd other desc v small = elim (Bool-cases (is_bad fd t)) [
  | inl bad ↦ rw bad (ground arith)
  | inr good ↦
      let here : pos_part fd < t.size = ground arith in
      let e = handle_at-write t (pos_part fd) (pos_part other) desc v here in
      rw good (ground (arith, e))
]
