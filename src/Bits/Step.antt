-- ===== src/Bits/Step.antt =====
-- The native bit operations by their lowest digit.
use Prim.Native.Nat.{bit_and, bit_or, digits, bitwise, bit_and-bitwise, bit_or-bitwise}
use yay_os.Base.{ℕ, zero, suc, ◌+◌, ◌*◌, ◌/◌, ◌%◌, ◌≤◌, ◌≡◌, refl, min, max, arith}

module _ (rest : ℕ → ℕ) (digit : ℕ → ℕ → ℕ) where
  -- Any two amounts of fuel that suffice agree.
  same_digits : (x y a b : ℕ) → a ≤ x → a ≤ y → digits rest digit x a b ≡ digits rest digit y a b
  same_digits zero zero a b h k = refl
  same_digits zero (suc y) zero b h k = refl
  same_digits (suc x) zero zero b h k = refl
  same_digits (suc x) (suc y) zero b h k = refl
  same_digits zero y (suc a) b h k = absurd (omega arith)
  same_digits (suc x) zero (suc a) b h k = absurd (omega arith)
  same_digits (suc x) (suc y) (suc a) b h k =
      let ih = same_digits x y (suc a / 2) (b / 2) (omega arith) (omega arith) in rw ih

  lowest_digit :
      (a b : ℕ)
      → bitwise rest digit (suc a) b
        ≡ bitwise rest digit (suc a / 2) (b / 2) * 2 + digit (suc a % 2) (b % 2)
  lowest_digit a b =
      let fuel = same_digits a (suc a / 2) (suc a / 2) (b / 2) (omega arith) (omega arith) in
      omega (arith, fuel)

pub or_digit : (a b : ℕ) → bit_or a b ≡ bit_or (a / 2) (b / 2) * 2 + max (a % 2) (b % 2)
or_digit zero b = simp bit_or-bitwise (omega arith)
or_digit (suc a) b = simp bit_or-bitwise (lowest_digit (λ y. y) max a b)

pub and_digit : (a b : ℕ) → bit_and a b ≡ bit_and (a / 2) (b / 2) * 2 + min (a % 2) (b % 2)
and_digit zero b = simp bit_and-bitwise (omega arith)
and_digit (suc a) b = simp bit_and-bitwise (lowest_digit (λ y. 0) min a b)
