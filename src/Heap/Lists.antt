-- ===== src/Heap/Lists.antt =====
-- The lists of pools of the kernel heap: what cutPoolFrom and insertPoolTo of
-- YYSloth/src/memory/kheap.cpp do to all of them.
use yay_os.Base.{
  ℕ, ◌≡◌, true, false, ◌&&◌, some, List, ◌∷◌, ◌++◌, arith, ◌==◌, Bool-cases, inl, inr,
}
use yay_os.Pools.{unlink, push_front, cut_head}
use yay_os.Pools.Chains.{
  has, IsPools, IsPools-frame, unlink-IsPools, unlink-same, push_front-IsPools, push_front-same,
}
use yay_os.Heap.{KernelHeap, set_entry, cut_pool_from, insert_pool_to}

-- The pools of each list, by the index of the size and the number of free objects.
abbrev pub View : Type 0
View = ℕ → ℕ → List ℕ

abbrev pub Holds : KernelHeap → View → Type 0
Holds h v = (s c : ℕ) → IsPools h.links (h.pool_heads s c) (v s c)

-- No pool stands in two lists.
abbrev pub IsApart : View → Type 0
IsApart v =
    (s c s' c' a : ℕ)
    → has a (v s c) ≡ true
    → has a (v s' c') ≡ true
    → ((s == s') ≡ true) × ((c == c') ≡ true)

-- A statement about every entry after one is rewritten.
entries :
    {A B : Type 0} (P : A → B → Type 0) (f : ℕ → ℕ → A) (g : ℕ → ℕ → B) (s c : ℕ) (x : A) (y : B)
    → P x y
    → ((s' c' : ℕ) → ((s' == s) && (c' == c)) ≡ false → P (f s' c') (g s' c'))
    → (s' c' : ℕ) → P (set_entry f s c x s' c') (set_entry g s c y s' c')
entries P f g s c x y here other s' c' = elim (Bool-cases (s' == s)) [
  | inr ne ↦ rw ne (other s' c' (ground (arith, ne)))
  | inl es ↦ elim (Bool-cases (c' == c)) [
    | inr ne ↦ rw (es, ne) (other s' c' (ground (arith, ne)))
    | inl ec ↦ rw (es, ec) here
  ]
]

module _ (h : KernelHeap) (v : View) (holds : Holds h v) (apart : IsApart v) (p s c : ℕ) where
  -- Cutting a pool takes it out of its list and leaves the other lists alone.
  pub cut_pool_from-Holds :
      (xs ys : List ℕ)
      → v s c ≡ xs ++ p ∷ ys
      → Holds (cut_pool_from p s c h) (set_entry v s c (xs ++ ys))
  unfolding cut_pool_from
  cut_pool_from-Holds xs ys e =
      let list : IsPools h.links (h.pool_heads s c) (xs ++ p ∷ ys) = rw (← e) (holds s c) in
      entries (IsPools (unlink p h.links)) h.pool_heads v s c
        (cut_head p h.links (h.pool_heads s c)) (xs ++ ys)
        (unlink-IsPools h.links (h.pool_heads s c) xs ys p list)
        (λ s' c' ne.
          IsPools-frame h.links (unlink p h.links) (h.pool_heads s' c') (v s' c')
            (λ a m.
              unlink-same h.links xs ys p a list.1 list.2
                (rw (← e) (ground (arith, apart s' c' s c a m, ne, m))))
            (holds s' c'))

  -- Inserting a pool that stands in no list puts it in front of its list.
  pub insert_pool_to-Holds :
      ((s' c' : ℕ) → has p (v s' c') ≡ false)
      → Holds (insert_pool_to p s c h) (set_entry v s c (p ∷ v s c))
  unfolding insert_pool_to
  insert_pool_to-Holds out =
      let l' = push_front p (h.pool_heads s c) h.links in
      entries (IsPools l') h.pool_heads v s c (some p) (p ∷ v s c)
        (push_front-IsPools h.links (h.pool_heads s c) (v s c) p (out s c) (holds s c))
        (λ s' c' ne.
          IsPools-frame h.links l' (h.pool_heads s' c') (v s' c')
            (λ a m.
              push_front-same h.links (h.pool_heads s c) (v s c) p a (holds s c).0
                (ground (arith, apart s' c' s c a m, ne, m, out s' c')))
            (holds s' c'))
