-- ===== src/Shell/Buffer.antt =====
-- `insertChar` and `removeChar` edit the text in the front part of the buffer.
use yay_os.Base.{
  ℕ, zero, suc, ◌+◌, ◌-◌, ◌≤◌, ◌<◌, ◌≡◌, refl, ap, subst, List, [], ◌∷◌, arith, length, set, take,
  length-set,
}
use yay_os.Shell.{byte_at, insert_loop, insert_char, remove_loop, remove_char}

-- The list with an element more, or less, at an index.
unfoldable pub insert_at {ℓ} : {A : Type ℓ} → ℕ → A → List A → List A
insert_at zero c xs = c ∷ xs
insert_at (suc i) c [] = c ∷ []
insert_at (suc i) c (x ∷ xs) = x ∷ insert_at i c xs

unfoldable pub delete_at {ℓ} : {A : Type ℓ} → ℕ → List A → List A
delete_at i [] = []
delete_at zero (x ∷ xs) = xs
delete_at (suc i) (x ∷ xs) = x ∷ delete_at i xs

insert_loop-cons :
    (n i ex b : ℕ) (bs : List ℕ) → insert_loop n (suc i) ex (b ∷ bs) ≡ b ∷ insert_loop n i ex bs
unfolding insert_loop
insert_loop-cons zero i ex b bs = refl
insert_loop-cons (suc n) i ex b bs =
    let next : suc i + 1 ≡ suc (i + 1) = omega arith in
    rw next (insert_loop-cons n (i + 1) (byte_at bs i) b (set bs i ex))

take-insert_loop :
    (n c : ℕ) (bs : List ℕ)
    → n < length bs
    → take (suc n) (insert_loop (suc n) 0 c bs) ≡ c ∷ take n bs
unfolding insert_loop
take-insert_loop n c [] h = absurd (omega arith)
take-insert_loop zero c (b ∷ bs) h = refl
take-insert_loop (suc n) c (b ∷ bs) h =
    let one : 0 + 1 ≡ suc 0 = omega arith in
    rw (one, insert_loop-cons (suc n) 0 b c bs) (ap (◌∷◌ c) (take-insert_loop n b bs (omega arith)))

-- For a position in the text and a buffer that is longer than the text, `insertChar` puts the character at its place of the text and moves the rest up by one.
pub take-insert_char :
    (buf : List ℕ) (pos len c : ℕ)
    → pos ≤ len
    → len < length buf
    → take (len + 1) (insert_char buf pos len c) ≡ insert_at pos c (take len buf)
unfolding insert_char insert_at
take-insert_char [] pos len c h k = absurd (omega arith)
take-insert_char (b ∷ bs) zero len c h k =
    let up : len + 1 ≡ suc len = omega arith in
    let rounds : suc len - 0 ≡ suc len = omega arith in
    rw (up, rounds) (take-insert_loop len c (b ∷ bs) k)
take-insert_char (b ∷ bs) (suc pos) zero c h k = absurd (omega arith)
take-insert_char (b ∷ bs) (suc pos) (suc len) c h k =
    let up : suc len + 1 ≡ suc (len + 1) = omega arith in
    let rounds : suc (len + 1) - suc pos ≡ len + 1 - pos = omega arith in
    rw (up, rounds, insert_loop-cons (len + 1 - pos) pos c b bs)
      (ap (◌∷◌ b) (take-insert_char bs pos len c (omega arith) (omega arith)))

remove_loop-cons :
    (n i b : ℕ) (bs : List ℕ) → remove_loop n (suc i) (b ∷ bs) ≡ b ∷ remove_loop n i bs
unfolding remove_loop
remove_loop-cons zero i b bs = refl
remove_loop-cons (suc n) i b bs =
    let next : suc i + 1 ≡ suc (i + 1) = omega arith in
    rw next (remove_loop-cons n (i + 1) b (set bs i (byte_at bs (i + 1))))

take-remove_loop :
    (n b : ℕ) (bs : List ℕ) → n ≤ length bs → take n (remove_loop n 0 (b ∷ bs)) ≡ take n bs
unfolding remove_loop
take-remove_loop zero b bs h = refl
take-remove_loop (suc n) b [] h = absurd (omega arith)
take-remove_loop (suc n) b (x ∷ bs) h =
    let one : 0 + 1 ≡ suc 0 = omega arith in
    rw (one, remove_loop-cons n 0 x (x ∷ bs)) (ap (◌∷◌ x) (take-remove_loop n x bs (omega arith)))

-- For a position in the text and a buffer that holds the text, `removeChar` takes the character out of the text and moves the rest down by one.
pub take-remove_char :
    (buf : List ℕ) (pos len : ℕ)
    → pos < len
    → len ≤ length buf
    → take (len - 1) (remove_char buf pos len) ≡ delete_at pos (take len buf)
unfolding remove_char delete_at
take-remove_char [] pos len h k = absurd (omega arith)
take-remove_char (b ∷ bs) pos zero h k = absurd (omega arith)
take-remove_char (b ∷ bs) zero (suc len) h k =
    let down : suc len - 1 ≡ len = omega arith in
    let rounds : len - 0 ≡ len = omega arith in
    rw (down, rounds) (take-remove_loop len b bs (omega arith))
take-remove_char (b ∷ bs) (suc pos) (suc zero) h k = absurd (omega arith)
take-remove_char (b ∷ bs) (suc pos) (suc (suc len)) h k =
    let down : suc (suc len) - 1 ≡ suc len = omega arith in
    let rounds : suc len - suc pos ≡ suc len - 1 - pos = omega arith in
    let less : suc len - 1 ≡ len = omega arith in
    rw (down, rounds, remove_loop-cons (suc len - 1 - pos) pos b bs)
      (ap (◌∷◌ b) (
        subst
          (λ t. take t (remove_loop (suc len - 1 - pos) pos bs) ≡ delete_at pos (take (suc len) bs))
          less (take-remove_char bs pos (suc len) (omega arith) (omega arith))))

length-insert_loop : (n i ex : ℕ) (buf : List ℕ) → length (insert_loop n i ex buf) ≡ length buf
unfolding insert_loop
length-insert_loop zero i ex buf = refl
length-insert_loop (suc n) i ex buf =
    omega (arith, length-insert_loop n (i + 1) (byte_at buf i) (set buf i ex), length-set buf i ex)

-- The buffer keeps its size.
pub length-insert_char :
    (buf : List ℕ) (pos len c : ℕ) → length (insert_char buf pos len c) ≡ length buf
unfolding insert_char
length-insert_char buf pos len c = length-insert_loop (len + 1 - pos) pos c buf

length-remove_loop : (n i : ℕ) (buf : List ℕ) → length (remove_loop n i buf) ≡ length buf
unfolding remove_loop
length-remove_loop zero i buf = refl
length-remove_loop (suc n) i buf = omega (
  arith,
  length-remove_loop n (i + 1) (set buf i (byte_at buf (i + 1))),
  length-set buf i (byte_at buf (i + 1)),
)

pub length-remove_char :
    (buf : List ℕ) (pos len : ℕ) → length (remove_char buf pos len) ≡ length buf
unfolding remove_char
length-remove_char buf pos len = length-remove_loop (len - 1 - pos) pos buf
