-- ===== src/Logging/Digits.antt =====
-- The digits that are printed spell the number.
use native.Mathlib.Nat.{pow-suc}
use yay_os.Base.{
  ℕ, zero, suc, ◌+◌, ◌-◌, ◌*◌, ◌/◌, ◌%◌, ◌^◌, ◌≤◌, ◌<◌, ◌≡◌, refl, ◌∙◌, sym, Bool, true, false,
  List, [], ◌∷◌, ◌++◌, ◌==◌, leb, if◌then◌else◌, arith, Bool-cases, inl, inr, u64_mod, length,
  length-append,
}
use yay_os.Logging.{get_char_from_digit, print_rec, print_uint64, print_pointer}

abbrev pub digit_of : ℕ → ℕ
digit_of c = if leb b'A' c then c - b'A' + 10 else c - b'0'

-- The number that digits spell behind another one.
abbrev pub value : ℕ → ℕ → List ℕ → ℕ
value base acc [] = acc
value base acc (c ∷ cs) = value base (acc * base + digit_of c) cs

digit_of-char : (d : ℕ) → d < 16 → digit_of (get_char_from_digit d) ≡ d
unfolding get_char_from_digit
digit_of-char d h = ground (arith, h)

value-last :
    (base acc c : ℕ) (cs : List ℕ)
    → value base acc (cs ++ (c ∷ [])) ≡ value base acc cs * base + digit_of c
value-last base acc c [] = refl
value-last base acc c (d ∷ cs) = value-last base (acc * base + digit_of d) c cs

quotient : (n base : ℕ) → 0 < base → n / base * base + n % base ≡ n
quotient n base h = grind arith

shorter : (n base k : ℕ) → 2 ≤ base → n < 2 * k → n / base < k
shorter n base k h l = grind arith

remainder : (n base : ℕ) → 0 < base → n % base < base
remainder n base h = grind arith

value-print_rec :
    (fuel num base : ℕ)
    → 2 ≤ base
    → base ≤ 16
    → num < 2 ^ fuel
    → value base 0 (print_rec fuel num base) ≡ num
unfolding print_rec
value-print_rec zero num base h k l = omega (arith, l)
value-print_rec (suc fuel) num base h k l = elim (Bool-cases (num == 0)) [
  | inl none_left ↦ rw none_left (ground (arith, none_left))
  | inr some_left ↦
      let digit = remainder num base (omega (arith, h)) in
      let front =
        value-print_rec fuel (num / base) base h k
          (shorter num base (2 ^ fuel) h (omega (arith, l, pow-suc 2 fuel))) in
      rw
        (
          some_left,
          value-last base 0 (get_char_from_digit (num % base)) (print_rec fuel (num / base) base),
          front,
          digit_of-char (num % base) (omega (arith, digit, k)),
        )
        (quotient num base (omega (arith, h)))
]

-- What `printUint64` sends for a number below 2^64 in a base from 2 to 16 reads back as the number.
pub value-print_uint64 :
    (val base : ℕ)
    → val < u64_mod
    → 2 ≤ base
    → base ≤ 16
    → value base 0 (print_uint64 val base) ≡ val
unfolding print_uint64
value-print_uint64 val base h k l =
    either (val == 0) (print_rec 64 val base) (value-print_rec 64 val base k l h)
      (λ e. ground (arith, e))
  where
    either :
        (null : Bool) (digits : List ℕ)
        → value base 0 digits ≡ val
        → (null ≡ true → val ≡ 0)
        → value base 0 (if null then b'0' ∷ [] else digits) ≡ val
    either true digits v z = let e : 0 * base + 0 ≡ 0 = grind arith in e ∙ sym (z refl)
    either false digits v z = v

-- `printPointer` sends as many characters as it is asked for, and they spell the pointer when it
-- fits that many hexadecimal digits.
pub value-print_pointer :
    (depth pointer : ℕ)
    → pointer < 16 ^ depth
    → (length (print_pointer depth pointer) ≡ depth)
      × (value 16 0 (print_pointer depth pointer) ≡ pointer)
unfolding print_pointer
value-print_pointer zero pointer h = (refl, omega (arith, h))
value-print_pointer (suc depth) pointer h =
    let (n, v) = value-print_pointer depth (pointer / 16) (omega (arith, h, pow-suc 16 depth)) in
    let last = get_char_from_digit (pointer % 16) in
    (
      length-append (print_pointer depth (pointer / 16)) (last ∷ []) ∙ (omega (arith, n)),
      value-last 16 0 last (print_pointer depth (pointer / 16))
          ∙ (rw (v, digit_of-char (pointer % 16) (omega arith)) (omega arith)),
    )
