-- ===== src/Bits/Laws.antt =====
-- What the bit operations do to each bit of a word.
use Prim.Native.Nat.{bit_and, bit_or}
use native.Mathlib.Nat.{pow-suc, one-le-pow}
use yay_os.Base.{
  ℕ, zero, suc, ◌-◌, ◌/◌, ◌^◌, ◌≤◌, ◌<◌, ◌≡◌, refl, true, false, not, ◌&&◌, ◌||◌, arith, ◌==◌, ◌+◌,
  ◌*◌, ◌%◌, ap, ◌∙◌, dec_lt, if◌then◌else◌, u64_mod,
}
use yay_os.Bits.{test_bit, set_bit, clear_bit, bit_not}
use yay_os.Bits.Step.{or_digit, and_digit}

pub test_bit-or : (a b i : ℕ) → test_bit (bit_or a b) i ≡ (test_bit a i || test_bit b i)
unfolding test_bit
test_bit-or a b zero = ground (arith, or_digit a b)
test_bit-or a b (suc i) =
    let half : bit_or a b / 2 ≡ bit_or (a / 2) (b / 2) = omega (arith, or_digit a b) in
    rw half (test_bit-or (a / 2) (b / 2) i)

pub test_bit-and : (a b i : ℕ) → test_bit (bit_and a b) i ≡ (test_bit a i && test_bit b i)
unfolding test_bit
test_bit-and a b zero = ground (arith, and_digit a b)
test_bit-and a b (suc i) =
    let half : bit_and a b / 2 ≡ bit_and (a / 2) (b / 2) = omega (arith, and_digit a b) in
    rw half (test_bit-and (a / 2) (b / 2) i)

test_bit-zero : (i : ℕ) → test_bit 0 i ≡ false
unfolding test_bit
test_bit-zero zero = refl
test_bit-zero (suc i) = test_bit-zero i

test_bit-shifted_one : (b i : ℕ) → test_bit (2 ^ b) i ≡ (b == i)
unfolding test_bit
test_bit-shifted_one zero zero = refl
test_bit-shifted_one zero (suc i) = ground (arith, test_bit-zero i)
test_bit-shifted_one (suc b) zero = ground (arith, pow-suc 2 b)
test_bit-shifted_one (suc b) (suc i) =
    let half : 2 ^ suc b / 2 ≡ 2 ^ b = omega (arith, pow-suc 2 b) in
    rw half (ground (arith, test_bit-shifted_one b i))

one_le_pow : (k : ℕ) → 1 ≤ 2 ^ k
one_le_pow k = one-le-pow k 2 (omega arith)

-- Powers of two grow.
pow_lt : (b k : ℕ) → b < k → 2 ^ b < 2 ^ k
pow_lt b zero h = absurd (omega arith)
pow_lt zero (suc k) h = omega (arith, pow-suc 2 k, one_le_pow k)
pow_lt (suc b) (suc k) h = omega (arith, pow-suc 2 k, pow-suc 2 b, pow_lt b k (omega arith))

-- The complement within `k` bits.
test_bit-complement :
    (k x i : ℕ) → x < 2 ^ k → i < k → test_bit (2 ^ k - 1 - x) i ≡ not (test_bit x i)
unfolding test_bit
test_bit-complement zero x i h k = absurd (omega arith)
test_bit-complement (suc k) x zero h l = ground (arith, pow-suc 2 k)
test_bit-complement (suc k) x (suc i) h l =
    let half : (2 ^ suc k - 1 - x) / 2 ≡ 2 ^ k - 1 - x / 2 = omega (arith, pow-suc 2 k) in
    rw half (test_bit-complement k (x / 2) i (omega (arith, pow-suc 2 k)) (omega arith))

pub test_bit-not : (x i : ℕ) → x < u64_mod → i < 64 → test_bit (bit_not x) i ≡ not (test_bit x i)
test_bit-not x i = test_bit-complement 64 x i

-- `setBit` sets its bit and leaves the others.
pub test_bit-set_bit :
    (num bit i : ℕ) → test_bit (set_bit num bit) i ≡ (if bit == i then true else test_bit num i)
unfolding set_bit
test_bit-set_bit num bit i =
    rw (test_bit-or num (2 ^ bit) i, test_bit-shifted_one bit i) (ground arith)

-- `clearBit` clears its bit and leaves the others.
pub test_bit-clear_bit :
    (num bit i : ℕ)
    → bit < 64
    → i < 64
    → test_bit (clear_bit num bit) i ≡ (if bit == i then false else test_bit num i)
unfolding clear_bit
test_bit-clear_bit num bit i hb hi =
    rw
      (
        test_bit-and num (bit_not (2 ^ bit)) i,
        test_bit-not (2 ^ bit) i (pow_lt bit 64 hb) hi,
        test_bit-shifted_one bit i,
      )
      (ground arith)

pub bit_or-lt : (k a b : ℕ) → a < 2 ^ k → b < 2 ^ k → bit_or a b < 2 ^ k
bit_or-lt zero a b ha hb =
    let a0 : a ≡ 0 = omega arith in let b0 : b ≡ 0 = omega arith in rw (a0, b0) (omega arith)
bit_or-lt (suc k) a b ha hb = omega (
  arith,
  or_digit a b,
  pow-suc 2 k,
  bit_or-lt k (a / 2) (b / 2) (omega (arith, pow-suc 2 k)) (omega (arith, pow-suc 2 k)),
)

pub bit_and-lt : (k a b : ℕ) → a < 2 ^ k → b < 2 ^ k → bit_and a b < 2 ^ k
bit_and-lt zero a b ha hb =
    let a0 : a ≡ 0 = omega arith in let b0 : b ≡ 0 = omega arith in rw (a0, b0) (omega arith)
bit_and-lt (suc k) a b ha hb = omega (
  arith,
  and_digit a b,
  pow-suc 2 k,
  bit_and-lt k (a / 2) (b / 2) (omega (arith, pow-suc 2 k)) (omega (arith, pow-suc 2 k)),
)

-- Both operations keep a word a word.
pub set_bit-lt : (num bit : ℕ) → num < u64_mod → bit < 64 → set_bit num bit < u64_mod
unfolding set_bit
set_bit-lt num bit h k = bit_or-lt 64 num (2 ^ bit) h (pow_lt bit 64 k)

pub clear_bit-lt : (num bit : ℕ) → num < u64_mod → clear_bit num bit < u64_mod
unfolding clear_bit
clear_bit-lt num bit h = bit_and-lt 64 num (bit_not (2 ^ bit)) h (omega arith)

-- The words 0 and UINT64_MAX.
pub test_bit-none : (i : ℕ) → test_bit 0 i ≡ false
test_bit-none i = test_bit-zero i

pub test_bit-all : (i : ℕ) → i < 64 → test_bit (u64_mod - 1) i ≡ true
test_bit-all i h = ground (arith, test_bit-not 0 i (omega arith) h, test_bit-zero i)

-- Two words with the same bits are the same.
bits-eq :
    (k a b : ℕ) → a < 2 ^ k → b < 2 ^ k → ((i : ℕ) → i < k → test_bit a i ≡ test_bit b i) → a ≡ b
unfolding test_bit
bits-eq zero a b ha hb same = omega (arith, ha, hb)
bits-eq (suc k) a b ha hb same =
    let low = same 0 (omega arith) in
    let high : a / 2 ≡ b / 2 =
      bits-eq k (a / 2) (b / 2) (omega (arith, pow-suc 2 k)) (omega (arith, pow-suc 2 k))
        (λ i h. same (suc i) (omega (arith, h))) in
    ground (arith, low, high)

pub word-eq :
    (a b : ℕ) → a < u64_mod → b < u64_mod → ((i : ℕ) → i < 64 → test_bit a i ≡ test_bit b i) → a ≡ b
word-eq a b = bits-eq 64 a b

bit_or-zero : (n a : ℕ) → a ≤ n → bit_or a 0 ≡ a
bit_or-zero zero a h = let e : a ≡ 0 = omega (arith, h) in rw e refl
bit_or-zero (suc n) a h = elim (dec_lt 0 a) [
  | yes pos ↦ omega (arith, or_digit a 0, bit_or-zero n (a / 2) (omega (arith, h, pos)))
  | no h0 ↦ bit_or-zero n a (omega (arith, h0))
]

-- Joining two words that have no bit in common adds them.
pub bit_or-add : (k a b : ℕ) → b < 2 ^ k → bit_or (a * 2 ^ k) b ≡ a * 2 ^ k + b
bit_or-add zero a b h =
    let e : b ≡ 0 = omega (arith, h) in
    rw e (bit_or-zero (a * 2 ^ 0) (a * 2 ^ 0) (omega arith) ∙ omega arith)
bit_or-add (suc k) a b h =
    let e : a * 2 ^ suc k / 2 ≡ a * 2 ^ k = omega (arith, ap (λ (n : ℕ). a * n) (pow-suc 2 k)) in
    let z : a * 2 ^ suc k % 2 ≡ 0 = omega (arith, ap (λ (n : ℕ). a * n) (pow-suc 2 k)) in
    or_digit (a * 2 ^ suc k) b
    ∙ rw (e, bit_or-add k a (b / 2) (omega (arith, h, pow-suc 2 k)))
        (omega (arith, z, ap (λ (n : ℕ). a * n) (pow-suc 2 k)))
