-- ===== src/Heap/Moving.antt =====
-- Taking a pool of the kernel heap out of its list and putting it into another one: the pairs of
-- cutPoolFrom and insertPoolTo in YYSloth/src/memory/kheap.cpp.
use yay_os.Base.{
  ℕ, ◌≡◌, refl, subst, ◌⊎◌, true, false, ◌&&◌, List, ◌∷◌, ◌++◌, arith, ◌==◌, Bool-cases, inl, inr,
  ==_iff,
}
use yay_os.Pools.Chains.{has, has-append}
use yay_os.Heap.{KernelHeap, set_entry, cut_pool_from, insert_pool_to}
use yay_os.Heap.Lists.{View, Holds, IsApart, cut_pool_from-Holds, insert_pool_to-Holds}

-- The view after a pool has gone from one list to another of the same size.
abbrev pub moved : View → ℕ → ℕ → ℕ → ℕ → List ℕ → View
moved v p s c c' rest = let w = set_entry v s c rest in set_entry w s c' (p ∷ w s c')

-- An entry after one was rewritten.
pub entry-cases :
    {A : Type 0} (f : ℕ → ℕ → A) (s c : ℕ) (x : A) (s' c' : ℕ)
    → ((s' ≡ s) × (c' ≡ c) × (set_entry f s c x s' c' ≡ x))
      ⊎ ((((s' == s) && (c' == c)) ≡ false) × (set_entry f s c x s' c' ≡ f s' c'))
entry-cases f s c x s' c' = elim (Bool-cases (s' == s)) [
  | inr ne ↦ inr (rw ne refl, rw ne refl)
  | inl es ↦ elim (Bool-cases (c' == c)) [
    | inr ne ↦ inr (rw (es, ne) refl, rw (es, ne) refl)
    | inl ec ↦ inl ((==_iff s' s).0 es, (==_iff c' c).0 ec, rw (es, ec) refl)
  ]
]

eq_self : (p : ℕ) → (p == p) ≡ true
eq_self p = ground arith

has-of_eq : (a p : ℕ) (xs : List ℕ) → (a == p) ≡ true → has a xs ≡ true → has p xs ≡ true
has-of_eq a p xs e m = subst (λ x. has x xs ≡ true) ((==_iff a p).0 e) m

has-rest : (a p : ℕ) (xs ys : List ℕ) → has a (xs ++ ys) ≡ true → has a (xs ++ p ∷ ys) ≡ true
has-rest a p xs ys m = ground (arith, has-append a xs ys, has-append a xs (p ∷ ys))

has_self : (p : ℕ) (xs ys : List ℕ) → has p (xs ++ p ∷ ys) ≡ true
has_self p xs ys = ground (arith, has-append p xs (p ∷ ys))

module _ (v : View) (apart : IsApart v) (p s c : ℕ) (xs ys : List ℕ) (e : v s c ≡ xs ++ p ∷ ys)
    (once : has p (xs ++ ys) ≡ false) where
  here : has p (v s c) ≡ true
  here = rw e (has_self p xs ys)

  not_once : (a : ℕ) → has a (xs ++ ys) ≡ true → (a == p) ≡ false
  not_once a m = elim (Bool-cases (a == p)) [
    | inr ne ↦ ne
    | inl eq ↦ cc (has-of_eq a p (xs ++ ys) eq m, once)
  ]

  -- What is left in the lists once the pool is cut out.
  pub cut-member :
      (s' c' a : ℕ)
      → has a (set_entry v s c (xs ++ ys) s' c') ≡ true
      → (has a (v s' c') ≡ true) × ((a == p) ≡ false)
  cut-member s' c' a m = elim (entry-cases v s c (xs ++ ys) s' c') [
    | inl (es, ec, h) ↦
        let m' : has a (xs ++ ys) ≡ true = rw (← h) m in
        (rw (es, ec, e) (has-rest a p xs ys m'), not_once a m')
    | inr (ne, h) ↦
        let m' : has a (v s' c') ≡ true = rw (← h) m in
        (
          m',
          elim (Bool-cases (a == p)) [
            | inr na ↦ na
            | inl eq ↦
                let (ds, dc) = apart s' c' s c p (has-of_eq a p (v s' c') eq m') here in
                ground (arith, ne, ds, dc)
          ],
        )
  ]

  -- The pool that is cut out is in no list.
  pub cut-out : (s' c' : ℕ) → has p (set_entry v s c (xs ++ ys) s' c') ≡ false
  cut-out s' c' = elim (Bool-cases (has p (set_entry v s c (xs ++ ys) s' c'))) [
    | inr out ↦ out
    | inl m ↦ cc ((cut-member s' c' p m).1, eq_self p)
  ]

  cut-IsApart : IsApart (set_entry v s c (xs ++ ys))
  cut-IsApart s1 c1 s2 c2 a m m' =
      apart s1 c1 s2 c2 a (cut-member s1 c1 a m).0 (cut-member s2 c2 a m').0

  -- A member of a list is the pool that moved, or was in the list before.
  pub moved-member :
      (t s' c' a : ℕ)
      → has a (moved v p s c t (xs ++ ys) s' c') ≡ true
      → ((a ≡ p) × (s' ≡ s) × (c' ≡ t)) ⊎ (((a == p) ≡ false) × (has a (v s' c') ≡ true))
  moved-member t s' c' a m =
      let w : View = set_entry v s c (xs ++ ys) in
      elim (entry-cases w s t (p ∷ w s t) s' c') [
        | inl (es, ec, h) ↦ elim (Bool-cases (a == p)) [
          | inl eq ↦ inl ((==_iff a p).0 eq, es, ec)
          | inr ne ↦
              let m' : has a (p ∷ w s t) ≡ true = subst (λ l. has a l ≡ true) h m in
              let k = cut-member s t a (ground (arith, m', ne)) in inr (ne, rw (es, ec) k.0)
        ]
        | inr (ne, h) ↦ let k = cut-member s' c' a (rw (← h) m) in inr (k.1, k.0)
      ]

  -- Cutting the pool out and putting it into another list, with any change in between that leaves
  -- the links and the heads alone.
  pub moved-Holds :
      (h g : KernelHeap) (t : ℕ)
      → Holds h v
      → g.links ≡ (cut_pool_from p s c h).links
      → g.pool_heads ≡ (cut_pool_from p s c h).pool_heads
      → Holds (insert_pool_to p s t g) (moved v p s c t (xs ++ ys))
  moved-Holds h g t holds el eh =
      let cut = cut_pool_from-Holds h v holds apart p s c xs ys e in
      let cut' : Holds g (set_entry v s c (xs ++ ys)) = λ s' c'. rw (el, eh) (cut s' c') in
      insert_pool_to-Holds g (set_entry v s c (xs ++ ys)) cut' cut-IsApart p s t cut-out
