-- ===== src/DynArray.antt =====
-- The growing array of YYSloth/include/core/dynarray.hpp, core::DynArray<T>.
-- `width` is `sizeof(T)`. `new_array n` is what `new T[n]` gives: `none` for a null pointer, else
-- the contents of the fresh memory. `memcpy` counts bytes, so a copy may end inside an element:
-- `blend k d s` is the element whose first `k` bytes are those of `s` and whose rest is `d`.
pub mod Capacity
pub mod Contents
pub mod Relocation
mod Tests
use yay_os.Base.{
  ℕ, zero, suc, ◌+◌, ◌-◌, ◌*◌, Bool, true, false, Option, none, some, List, [], ◌∷◌, leb, ltb, ◌==◌,
  if◌then◌else◌, set, get_elem?, not, u64_mod, sub64,
}

pub record DynArray (A : Type 0) : Type 0 where
  pub items : List A
  pub size : ℕ
  pub capacity : ℕ
  pub disposed : Bool

-- `result = 16; while (result <= size) result *= 2;` on fuel.
unfoldable pub capacity_loop : ℕ → ℕ → ℕ → ℕ
capacity_loop zero result size = result
capacity_loop (suc fuel) result size =
    let rest = capacity_loop fuel (result * 2) size in if leb result size then rest else result

-- 60 rounds reach 2 ^ 64.
unfoldable pub calculate_capacity : ℕ → ℕ
unfolding capacity_loop
calculate_capacity size = capacity_loop 60 16 size

module _ {A : Type 0} (width : ℕ) (blend : ℕ → A → A → A) where
  -- `memcpy(dst, src, count)`, with `count` in bytes.
  unfoldable pub copy_bytes : ℕ → List A → List A → List A
  copy_bytes count [] ss = []
  copy_bytes count (d ∷ ds) [] = d ∷ ds
  copy_bytes count (d ∷ ds) (s ∷ ss) =
      if leb width count
      then s ∷ copy_bytes (count - width) ds ss
      else if count == 0
      then d ∷ ds
      else blend count d s ∷ ds

  module _ (new_array : ℕ → Option (List A)) where
    unfoldable pub relocate : ℕ → DynArray A → DynArray A × Bool
    unfolding copy_bytes
    relocate new_capacity a = elim (new_array new_capacity) [
      | none ↦ (a, false)
      | some fresh ↦
          (record a { items = copy_bytes a.size fresh a.items; capacity = new_capacity }, true)
    ]

    unfoldable pub push_back : A → DynArray A → DynArray A × Bool
    push_back elem a =
        let b : DynArray A = record a { items = set a.items a.size elem; size = a.size + 1 } in
        if b.size == b.capacity
        then (let (c, moved) = relocate (calculate_capacity b.size) b in
            if moved then (c, true) else (record c { size = c.size - 1 }, false))
        else (b, true)

    unfoldable pub pop_back : DynArray A → DynArray A
    pop_back a =
        let b : DynArray A = record a { size = sub64 a.size 1 } in
        if b.capacity == calculate_capacity b.size
        then b
        else (relocate (calculate_capacity b.size) b).0

    -- Growth ignores a failed relocation.
    unfoldable pub resize : ℕ → DynArray A → DynArray A × Bool
    resize size a =
        let b : DynArray A = record a { size = size } in
        let (c, moved) = relocate (calculate_capacity size) b in
        if a.size == size
        then (a, true)
        else if ltb a.size size
        then (c, true)
        else if moved
        then (c, true)
        else (record c { size = a.size }, false)

unfoldable pub at : {A : Type 0} → DynArray A → ℕ → Option A
at a index = if leb a.size index then none else get_elem? a.items index
