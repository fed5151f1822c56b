-- ===== src/Pools/Chains.antt =====
-- The lists of pools that the links make, and what cutting and inserting do to them.
use yay_os.Base.{
  ℕ, ◌≡◌, refl, ap, ◌∙◌, Bool, true, false, ◌||◌, Option, none, some, List, [], ◌∷◌, ◌++◌, arith,
  ◌==◌, if◌then◌else◌,
}
use yay_os.Pools.{Links, set_prev?, set_next?, unlink, cut_head, push_front}

abbrev pub has : ℕ → List ℕ → Bool
has a [] = false
has a (x ∷ xs) = a == x || has a xs

abbrev pub front : List ℕ → Option ℕ
front [] = none
front (x ∷ xs) = some x

abbrev pub Distinct : List ℕ → Type 0
Distinct [] = Unit
Distinct (x ∷ xs) = (has x xs ≡ false) × Distinct xs

-- The pools behind `before`, linked both ways.
abbrev pub Chain : Links → Option ℕ → List ℕ → Type 0
Chain l before [] = Unit
Chain l before (x ∷ xs) = (l.prev x ≡ before) × (l.next x ≡ front xs) × Chain l (some x) xs

-- The list that starts at a head.
abbrev pub IsPools : Links → Option ℕ → List ℕ → Type 0
IsPools l head xs = (head ≡ front xs) × Chain l none xs × Distinct xs

-- A chain survives changes elsewhere.
pub Chain-frame :
    (l l' : Links) (before : Option ℕ) (xs : List ℕ)
    → ((a : ℕ) → has a xs ≡ true → (l'.prev a ≡ l.prev a) × (l'.next a ≡ l.next a))
    → Chain l before xs
    → Chain l' before xs
Chain-frame l l' before [] same c = tt
Chain-frame l l' before (x ∷ xs) same (p, n, c) = (
  (same x (ground arith)).0 ∙ p,
  (same x (ground arith)).1 ∙ n,
  Chain-frame l l' (some x) xs (λ a h. same a (ground (arith, h))) c,
)

pub IsPools-frame :
    (l l' : Links) (head : Option ℕ) (xs : List ℕ)
    → ((a : ℕ) → has a xs ≡ true → (l'.prev a ≡ l.prev a) × (l'.next a ≡ l.next a))
    → IsPools l head xs
    → IsPools l' head xs
IsPools-frame l l' head xs same (e, c, d) = (e, Chain-frame l l' none xs same c, d)

-- What a cut does to the links of each pool.
abbrev pub same_pool : Option ℕ → ℕ → Bool
same_pool none a = false
same_pool (some b) a = a == b

set_next?-next :
    (o : Option ℕ) (v : Option ℕ) (l : Links) (a : ℕ)
    → (set_next? o v l).next a ≡ (if same_pool o a then v else l.next a)
set_next?-next none v l a = refl
set_next?-next (some b) v l a = refl

set_next?-prev : (o v : Option ℕ) (l : Links) → (set_next? o v l).prev ≡ l.prev
set_next?-prev none v l = refl
set_next?-prev (some b) v l = refl

set_prev?-prev :
    (o : Option ℕ) (v : Option ℕ) (l : Links) (a : ℕ)
    → (set_prev? o v l).prev a ≡ (if same_pool o a then v else l.prev a)
set_prev?-prev none v l a = refl
set_prev?-prev (some b) v l a = refl

set_prev?-next : (o v : Option ℕ) (l : Links) → (set_prev? o v l).next ≡ l.next
set_prev?-next none v l = refl
set_prev?-next (some b) v l = refl

unlink-next :
    (p a : ℕ) (l : Links)
    → (unlink p l).next a ≡ (if same_pool (l.prev p) a then l.next p else l.next a)
unfolding unlink
unlink-next p a l =
    let l' = set_next? (l.prev p) (l.next p) l in
    ap (λ f. f a) (set_prev?-next (l'.next p) (l'.prev p) l')
    ∙ set_next?-next (l.prev p) (l.next p) l a

unlink-prev :
    (p a : ℕ) (l : Links)
    → same_pool (l.prev p) p ≡ false
    → (unlink p l).prev a ≡ (if same_pool (l.next p) a then l.prev p else l.prev a)
unfolding unlink
unlink-prev p a l h =
    let l' = set_next? (l.prev p) (l.next p) l in
    let n : l'.next p ≡ l.next p = set_next?-next (l.prev p) (l.next p) l p ∙ rw h refl in
    set_prev?-prev (l'.next p) (l'.prev p) l' a
    ∙ rw (n, set_next?-prev (l.prev p) (l.next p) l) refl

-- The last of a list, or the pool before it.
abbrev pub last : Option ℕ → List ℕ → Option ℕ
last before [] = before
last before (x ∷ xs) = last (some x) xs

-- The links at a pool within a chain.
pub Chain-at :
    (l : Links) (before : Option ℕ) (xs ys : List ℕ) (p : ℕ)
    → Chain l before (xs ++ p ∷ ys)
    → (l.prev p ≡ last before xs) × (l.next p ≡ front ys)
Chain-at l before [] ys p (e, n, c) = (e, n)
Chain-at l before (x ∷ xs) ys p (e, n, c) = Chain-at l (some x) xs ys p c

abbrev Relinked : Links → Links → Option ℕ → Option ℕ → Type 0
Relinked l l' q n =
    (a : ℕ)
    → (l'.next a ≡ (if same_pool q a then n else l.next a))
      × (l'.prev a ≡ (if same_pool n a then q else l.prev a))

pub has-append : (a : ℕ) (xs ys : List ℕ) → has a (xs ++ ys) ≡ (has a xs || has a ys)
has-append a [] ys = refl
has-append a (x ∷ xs) ys = ground (arith, has-append a xs ys)

-- The part behind the pool that is cut out.
Chain-behind :
    (l l' : Links) (q : Option ℕ) (p : ℕ) (ys : List ℕ)
    → ((a : ℕ) → has a ys ≡ true → same_pool q a ≡ false)
    → Distinct ys
    → Relinked l l' q (front ys)
    → Chain l (some p) ys
    → Chain l' q ys
Chain-behind l l' q p [] apart d r c = tt
Chain-behind l l' q p (y ∷ ys) apart d r (e, n, c) = (
  ground (arith, r y),
  ground (arith, r y, apart y),
  Chain-frame l l' (some y) ys (λ a h. ground (arith, r a, apart a, h, d)) c,
)

last-has : (a x : ℕ) (xs : List ℕ) → same_pool (last (some x) xs) a ≡ true → has a (x ∷ xs) ≡ true
last-has a x [] h = ground arith
last-has a x (y ∷ ys) h = ground (arith, last-has a y ys h)

-- A pool in front of a cut keeps its links, but for the one to the pool cut out.
cut-front :
    (l l' : Links) (before : Option ℕ) (x : ℕ) (xs ys : List ℕ) (p : ℕ)
    → has x (xs ++ p ∷ ys) ≡ false
    → Relinked l l' (last (some x) xs) (front ys)
    → (l.prev x ≡ before)
    → (l.next x ≡ front (xs ++ p ∷ ys))
    → (l'.prev x ≡ before) × (l'.next x ≡ front (xs ++ ys))
cut-front l l' before x [] [] p d r e n = (ground (arith, r x), ground (arith, r x))
cut-front l l' before x [] (y ∷ ys) p d r e n = (ground (arith, r x), ground (arith, r x))
cut-front l l' before x (z ∷ zs) [] p d r e n =
    (ground (arith, r x), ground (arith, r x, last-has x z zs, has-append x zs (p ∷ [])))
cut-front l l' before x (z ∷ zs) (y ∷ ys) p d r e n = (
  ground (arith, r x, has-append x zs (p ∷ y ∷ ys)),
  ground (arith, r x, last-has x z zs, has-append x zs (p ∷ y ∷ ys)),
)

cut-chain :
    (l l' : Links) (before : Option ℕ) (xs ys : List ℕ) (p : ℕ)
    → ((a : ℕ) → has a (xs ++ p ∷ ys) ≡ true → same_pool before a ≡ false)
    → Distinct (xs ++ p ∷ ys)
    → Relinked l l' (last before xs) (front ys)
    → Chain l before (xs ++ p ∷ ys)
    → Chain l' before (xs ++ ys)
cut-chain l l' before [] ys p apart (dp, d) r (e, n, c) =
    Chain-behind l l' before p ys (λ a h. apart a (ground (arith, h))) d r c
cut-chain l l' before (x ∷ xs) ys p apart (dx, d) r (e, n, c) =
    let (e', n') = cut-front l l' before x xs ys p dx r e n in
    (e', n', cut-chain l l' (some x) xs ys p (λ a h. ground (arith, h, dx)) d r c)

pub Distinct-cut :
    (xs ys : List ℕ) (p : ℕ)
    → Distinct (xs ++ p ∷ ys)
    → Distinct (xs ++ ys) × (has p (xs ++ ys) ≡ false)
Distinct-cut [] ys p (h, d) = (d, h)
Distinct-cut (x ∷ xs) ys p (h, d) =
    let (d', h') = Distinct-cut xs ys p d in
    (
      (ground (arith, h, has-append x xs (p ∷ ys), has-append x xs ys), d'),
      ground (arith, h, h', has-append x xs (p ∷ ys)),
    )

-- No pool of a list is its own neighbour.
last-ne :
    (before : Option ℕ) (xs ys : List ℕ) (p : ℕ)
    → same_pool before p ≡ false
    → Distinct (xs ++ p ∷ ys)
    → same_pool (last before xs) p ≡ false
last-ne before [] ys p h d = h
last-ne before (x ∷ xs) ys p h (dx, d) =
    last-ne (some x) xs ys p (ground (arith, dx, has-append x xs (p ∷ ys))) d

last-some : (x : ℕ) (xs : List ℕ) → (b : ℕ) × (last (some x) xs ≡ some b)
last-some x [] = (x, refl)
last-some x (y ∷ ys) = last-some y ys

cut_head-front :
    (l : Links) (head : Option ℕ) (xs ys : List ℕ) (p : ℕ)
    → head ≡ front (xs ++ p ∷ ys)
    → l.prev p ≡ last none xs
    → l.next p ≡ front ys
    → cut_head p l head ≡ front (xs ++ ys)
unfolding cut_head
cut_head-front l head [] ys p e before after = rw (before, cut_head) after
cut_head-front l head (x ∷ xs) ys p e before after =
    let (b, h) = last-some x xs in rw (before, h, cut_head) e

-- What a cut knows of the pool it cuts out.
cut-Relinked :
    (l : Links) (xs ys : List ℕ) (p : ℕ)
    → Chain l none (xs ++ p ∷ ys)
    → Distinct (xs ++ p ∷ ys)
    → Relinked l (unlink p l) (last none xs) (front ys)
cut-Relinked l xs ys p c d a =
    let (before, after) = Chain-at l none xs ys p c in
    let own : same_pool (l.prev p) p ≡ false = rw before (last-ne none xs ys p refl d) in
    (rw (← before, ← after) (unlink-next p a l), rw (← before, ← after) (unlink-prev p a l own))

-- A cut takes the pool out of its list.
pub unlink-IsPools :
    (l : Links) (head : Option ℕ) (xs ys : List ℕ) (p : ℕ)
    → IsPools l head (xs ++ p ∷ ys)
    → IsPools (unlink p l) (cut_head p l head) (xs ++ ys)
unlink-IsPools l head xs ys p (e, c, d) =
    let (before, after) = Chain-at l none xs ys p c in
    (
      cut_head-front l head xs ys p e before after,
      cut-chain l (unlink p l) none xs ys p (λ a h. refl) d (cut-Relinked l xs ys p c d) c,
      (Distinct-cut xs ys p d).0,
    )

last-member :
    (a : ℕ) (xs ys : List ℕ) (p : ℕ)
    → same_pool (last none xs) a ≡ true
    → has a (xs ++ p ∷ ys) ≡ true
last-member a [] ys p h = cc
last-member a (x ∷ xs) ys p h = ground (arith, last-has a x xs h, has-append a (x ∷ xs) (p ∷ ys))

front-member :
    (a : ℕ) (xs ys : List ℕ) (p : ℕ) → same_pool (front ys) a ≡ true → has a (xs ++ p ∷ ys) ≡ true
front-member a xs [] p h = cc
front-member a xs (y ∷ ys) p h = ground (arith, h, has-append a xs (p ∷ y ∷ ys))

-- It leaves the links of other pools as they were.
pub unlink-same :
    (l : Links) (xs ys : List ℕ) (p a : ℕ)
    → Chain l none (xs ++ p ∷ ys)
    → Distinct (xs ++ p ∷ ys)
    → has a (xs ++ p ∷ ys) ≡ false
    → ((unlink p l).prev a ≡ l.prev a) × ((unlink p l).next a ≡ l.next a)
unlink-same l xs ys p a c d out = (
  ground (arith, cut-Relinked l xs ys p c d a, front-member a xs ys p),
  ground (arith, cut-Relinked l xs ys p c d a, last-member a xs ys p),
)

-- Putting a pool in front of a list.
pub push_front-IsPools :
    (l : Links) (head : Option ℕ) (xs : List ℕ) (p : ℕ)
    → has p xs ≡ false
    → IsPools l head xs
    → IsPools (push_front p head l) (some p) (p ∷ xs)
unfolding push_front
push_front-IsPools l head [] p out (e, c, d) =
    (refl, (rw e (ground arith), rw e (ground arith), tt), (refl, tt))
push_front-IsPools l head (x ∷ xs) p out (e, (b, n, c), (dx, d)) = (
  refl,
  (
    rw e (ground (arith, out)),
    rw e (ground (arith, out)),
    (
      rw e (ground (arith, out)),
      rw e (ground (arith, out, n)),
      Chain-frame l (push_front p head l) (some x) xs
          (λ a h. (rw e (ground (arith, h, out, dx)), rw e (ground (arith, h, out, dx)))) c,
    ),
  ),
  (out, (dx, d)),
)

pub push_front-same :
    (l : Links) (head : Option ℕ) (xs : List ℕ) (p a : ℕ)
    → head ≡ front xs
    → has a (p ∷ xs) ≡ false
    → ((push_front p head l).prev a ≡ l.prev a) × ((push_front p head l).next a ≡ l.next a)
unfolding push_front
push_front-same l head [] p a e out = (rw e (ground arith), rw e (ground arith))
push_front-same l head (x ∷ xs) p a e out = (rw e (ground arith), rw e (ground arith))
