-- ===== src/Heap/Pool.antt =====
-- The free objects of one pool of the kernel heap.
use yay_os.Base.{
  ℕ, zero, suc, ◌+◌, ◌≤◌, ◌<◌, ◌≡◌, refl, sym, ap, subst, ◌∙◌, true, false, Option, none, some,
  List, [], ◌∷◌, arith, length,
}
use yay_os.Pools.Chains.{has}
use yay_os.Utils.{align_down}
use yay_os.Heap.{
  ObjectHeader, header_at, max_count, link_headers, set_next_object, metadata_size, header_size,
}

-- The headers that the pointers `next` lead through.
abbrev pub Objects : (ℕ → ObjectHeader) → Option ℕ → List ℕ → Type 0
Objects f cur [] = cur ≡ none
Objects f cur (x ∷ xs) = (cur ≡ some x) × Objects f (f x).next xs

pub Objects-frame :
    (f f' : ℕ → ObjectHeader) (cur : Option ℕ) (xs : List ℕ)
    → ((a : ℕ) → has a xs ≡ true → (f' a).next ≡ (f a).next)
    → Objects f cur xs
    → Objects f' cur xs
Objects-frame f f' cur [] same o = o
Objects-frame f f' cur (x ∷ xs) same (e, o) = (
  e,
  Objects-frame f f' ((f' x).next) xs (λ a h. same a (ground (arith, h)))
      (rw (same x (ground arith)) o),
)

-- All headers lie in the page of the pool.
abbrev pub InPage : ℕ → List ℕ → Type 0
InPage p xs = (a : ℕ) → has a xs ≡ true → align_down a 4096 ≡ p

-- The headers of a pool from an index on.
abbrev pub headers_from : ℕ → ℕ → ℕ → ℕ → List ℕ
headers_from zero pool size i = []
headers_from (suc n) pool size i = header_at pool size i ∷ headers_from n pool size (suc i)

-- An object of `size` bytes with its header fits in front of the next header.
header_at-suc :
    (pool size i : ℕ) → header_at pool size (suc i) ≡ header_at pool size i + header_size + size
unfolding header_at
header_at-suc pool size i = grind arith

header_at-lt : (pool size i j : ℕ) → i < j → header_at pool size i < header_at pool size j
unfolding header_at
header_at-lt pool size i j h = grind arith

-- Writes to headers below leave the ones above alone.
link_headers-below :
    (n pool size i : ℕ) (f : ℕ → ObjectHeader) (a : ℕ)
    → a < header_at pool size i
    → link_headers n pool size i f a ≡ f a
unfolding link_headers
link_headers-below zero pool size i f a h = refl
link_headers-below (suc n) pool size i f a h =
    link_headers-below n pool size (suc i)
      (set_next_object (header_at pool size i) (some (header_at pool size (suc i))) f) a
      (omega (arith, header_at-suc pool size i))
    ∙ ground (arith, h)

link_headers-next :
    (n pool size i : ℕ) (f : ℕ → ObjectHeader)
    → (link_headers (suc n) pool size i f (header_at pool size i)).next
      ≡ some (header_at pool size (suc i))
unfolding link_headers
link_headers-next n pool size i f =
    rw
      (link_headers-below n pool size (suc i)
        (set_next_object (header_at pool size i) (some (header_at pool size (suc i))) f)
        (header_at pool size i) (omega (arith, header_at-suc pool size i)))
      (ground arith)

has-headers_from :
    (n pool size i a : ℕ) → has a (headers_from n pool size i) ≡ true → header_at pool size i ≤ a
has-headers_from zero pool size i a h = absurd (ground (arith, h))
has-headers_from (suc n) pool size i a h =
    ground (arith, h, has-headers_from n pool size (suc i) a, header_at-suc pool size i)

-- A pool that was set up has all its objects free, in the order of their addresses.
pub headers-Objects :
    (n pool size i k : ℕ) (f : ℕ → ObjectHeader)
    → k ≡ i + n
    → Objects
        (set_next_object (header_at pool size k) none (link_headers n pool size i f))
        (some (header_at pool size i))
        (headers_from (suc n) pool size i)
unfolding link_headers
headers-Objects zero pool size i k f e =
    let e' : k ≡ i = omega (arith, e) in (refl, rw e' (ground arith))
headers-Objects (suc n) pool size i k f e =
    let f' = set_next_object (header_at pool size i) (some (header_at pool size (suc i))) f in
    let g = link_headers n pool size (suc i) f' in
    let step : (set_next_object (header_at pool size k) none g (header_at pool size i)).next
        ≡ some (header_at pool size (suc i)) =
      ground
        (arith, header_at-lt pool size i k (omega (arith, e)), link_headers-next n pool size i f) in
    (
      refl,
      subst
          (λ o.
            Objects (set_next_object (header_at pool size k) none g) o
              (headers_from (suc n) pool size (suc i)))
          (sym step) (headers-Objects n pool size (suc i) k f' (omega (arith, e))),
    )

pub link_headers-same :
    (n pool size i : ℕ) (f : ℕ → ObjectHeader) (a : ℕ)
    → has a (headers_from n pool size i) ≡ false
    → link_headers n pool size i f a ≡ f a
unfolding link_headers
link_headers-same zero pool size i f a out = refl
link_headers-same (suc n) pool size i f a out =
    link_headers-same n pool size (suc i)
      (set_next_object (header_at pool size i) (some (header_at pool size (suc i))) f) a
      (ground (arith, out))
    ∙ ground (arith, out)

pub length-headers_from : (n pool size i : ℕ) → length (headers_from n pool size i) ≡ n
length-headers_from zero pool size i = refl
length-headers_from (suc n) pool size i = ap suc (length-headers_from n pool size (suc i))

-- Every object of a pool, with its header, ends inside the pool's page.
pub header_at_bounds :
    (pool size i : ℕ)
    → i < max_count size
    → (pool + metadata_size ≤ header_at pool size i)
      × (header_at pool size i + header_size + size ≤ pool + 4096)
unfolding header_at max_count
header_at_bounds pool size i h = (grind arith, grind arith)

pub header_at-page :
    (pool size i : ℕ)
    → align_down pool 4096 ≡ pool
    → i < max_count size
    → align_down (header_at pool size i) 4096 ≡ pool
unfolding align_down
header_at-page pool size i al h = omega (arith, al, header_at_bounds pool size i h)

pub headers-InPage :
    (n pool size i : ℕ)
    → align_down pool 4096 ≡ pool
    → i + n ≤ max_count size
    → InPage pool (headers_from n pool size i)
unfolding align_down
headers-InPage zero pool size i al h a m = absurd (ground (arith, m))
headers-InPage (suc n) pool size i al h a m = ground (
  arith,
  m,
  headers-InPage n pool size (suc i) al (omega (arith, h)) a,
  header_at_bounds pool size i (omega (arith, h)),
)
