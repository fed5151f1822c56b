-- ===== src/UserMemory/Areas.antt =====
-- Which addresses the areas hold.
use yay_os.Base.{
  ℕ, ◌+◌, ◌-◌, ◌^◌, ◌≤◌, ◌<◌, ◌≡◌, refl, Bool, false, List, [], ◌∷◌, ltb, leb, ◌&&◌, ◌||◌, arith,
}
use yay_os.UserMemory.{Area, add64, sub64}

-- The addresses from one on.
abbrev pub in_range : ℕ → ℕ → ℕ → Bool
in_range start size p = leb start p && ltb p (start + size)

abbrev pub is_free : List Area → ℕ → Bool
is_free [] p = false
is_free (a ∷ areas) p = in_range a.start a.size p || is_free areas p

-- The areas lie between the two addresses, in order and apart.
abbrev pub Sorted : ℕ → ℕ → List Area → Type 0
Sorted lo hi [] = lo ≤ hi
Sorted lo hi (a ∷ areas) = (lo ≤ a.start) × Sorted (a.start + a.size) hi areas

pub Sorted-bounds : (lo hi : ℕ) (areas : List Area) → Sorted lo hi areas → lo ≤ hi
Sorted-bounds lo hi [] s = s
Sorted-bounds lo hi (a ∷ areas) (s, t) =
    omega (arith, s, Sorted-bounds (a.start + a.size) hi areas t)

pub is_free_below :
    (lo hi : ℕ) (areas : List Area) (p : ℕ) → Sorted lo hi areas → p < lo → is_free areas p ≡ false
is_free_below lo hi [] p s h = refl
is_free_below lo hi (a ∷ areas) p (s, t) h =
    ground (arith, s, is_free_below (a.start + a.size) hi areas p t (omega (arith, s, h)))

pub Sorted-lower :
    (lo lo' hi : ℕ) (areas : List Area) → lo ≤ lo' → Sorted lo' hi areas → Sorted lo hi areas
Sorted-lower lo lo' hi [] h s = omega (arith, h, s)
Sorted-lower lo lo' hi (a ∷ areas) h (s, t) = (omega (arith, h, s), t)

pub add64_lem : (a b : ℕ) → a + b < 2 ^ 64 → add64 a b ≡ a + b
unfolding add64
add64_lem a b h = omega arith

pub sub64_lem : (a b : ℕ) → b ≤ a → sub64 a b ≡ a - b
unfolding sub64
sub64_lem a b h = ground arith
