-- ===== src/DynArray/Capacity.antt =====
-- `calculcateCapacity`: the loop ends, above the size, and no more than double of it.
use native.Mathlib.Nat.{pow-suc}
use yay_os.Base.{
  ℕ, zero, suc, ◌*◌, ◌^◌, ◌≤◌, ◌<◌, ◌≡◌, refl, inl, inr, ◌⊎◌, arith, ap, leb, Bool-cases,
}
use yay_os.DynArray.{capacity_loop, calculate_capacity}

capacity_loop_lem :
    (fuel result size : ℕ)
    → 0 < result
    → size < result * 2 ^ fuel
    → (size < capacity_loop fuel result size)
      × (result ≤ capacity_loop fuel result size)
      × ((capacity_loop fuel result size ≡ result) ⊎ (capacity_loop fuel result size ≤ 2 * size))
unfolding capacity_loop
capacity_loop_lem zero result size h k = (omega arith, omega arith, inl refl)
capacity_loop_lem (suc fuel) result size h k =
    let more : size < result * 2 * 2 ^ fuel =
      omega (arith, ap (λ (t : ℕ). result * t) (pow-suc 2 fuel)) in
    elim (Bool-cases (leb result size)) [
      | inl small ↦
          let (a, b, c) = capacity_loop_lem fuel (result * 2) size (omega arith) more in
          ground arith
      | inr done ↦ rw done (ground arith, omega arith, inl refl)
    ]

-- For a size below 2^63 the loop ends within its rounds: the capacity is above the size, at least
-- 16, and 16 or at most twice the size.
pub calculate_capacity_lem :
    (size : ℕ)
    → size < 2 ^ 63
    → (size < calculate_capacity size)
      × (16 ≤ calculate_capacity size)
      × ((calculate_capacity size ≡ 16) ⊎ (calculate_capacity size ≤ 2 * size))
unfolding calculate_capacity
calculate_capacity_lem size h = capacity_loop_lem 60 16 size (omega arith) (omega arith)
