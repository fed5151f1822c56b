-- ===== src/KernelMemory/Merging.antt =====
-- `freeMapping` gives back exactly the range it is told, and keeps the list in order.
use yay_os.Base.{
  ℕ, ◌+◌, ◌^◌, ◌≤◌, ◌<◌, ◌≡◌, refl, subst, ◌∙◌, inl, inr, Bool, true, false, List, [], ◌∷◌, ◌==◌,
  ltb, leb, ◌&&◌, ◌||◌, arith, Bool-cases, add64,
}
use yay_os.KernelMemory.{MemoryArea, merge_right, merge_adjacent, insert_behind, free_mapping}

abbrev pub holds : MemoryArea → ℕ → Bool
holds a p = leb a.offset p && ltb p (a.offset + a.size)

abbrev pub is_free : List MemoryArea → ℕ → Bool
is_free [] p = false
is_free (a ∷ areas) p = holds a p || is_free areas p

-- Areas that are not empty, in order and apart, between two addresses.
abbrev pub Sorted : ℕ → ℕ → List MemoryArea → Type 0
Sorted lo hi [] = lo ≤ hi
Sorted lo hi (a ∷ areas) = (lo ≤ a.offset) × (0 < a.size) × Sorted (a.offset + a.size) hi areas

Sorted-bounds : (lo hi : ℕ) (areas : List MemoryArea) → Sorted lo hi areas → lo ≤ hi
Sorted-bounds lo hi [] s = s
Sorted-bounds lo hi (a ∷ areas) (s, k, t) =
    omega (arith, s, Sorted-bounds (a.offset + a.size) hi areas t)

-- The list after an area is given back.
pub record IsFreed (lo hi : ℕ) (area : MemoryArea) (before after : List MemoryArea) : Type 0 where
  pub frees : (p : ℕ) → is_free after p ≡ (holds area p || is_free before p)
  pub sorted : Sorted lo hi after

module _ (hi : ℕ) (h : hi < 2 ^ 64) where
  merge_right-IsFreed :
      (lo : ℕ) (area : MemoryArea) (areas : List MemoryArea)
      → lo ≤ area.offset
      → 0 < area.size
      → Sorted (area.offset + area.size) hi areas
      → IsFreed lo hi area areas (merge_right area areas)
  unfolding merge_right
  merge_right-IsFreed lo area [] l k s = record { frees = λ p. refl; sorted = (l, k, s) }
  merge_right-IsFreed lo area (n ∷ after) l k (s, m, t) =
      let end = Sorted-bounds (n.offset + n.size) hi after t in
      let sum : add64 area.offset area.size ≡ area.offset + area.size = omega (arith, s, end, h) in
      let both : add64 area.size n.size ≡ area.size + n.size = omega (arith, s, end, h) in
      elim (Bool-cases (area.offset + area.size == n.offset)) [
        | inl y ↦
            let meet : n.offset + n.size ≡ area.offset + (area.size + n.size) = ground (arith, y) in
            rw (sum, y, both)
              (record {
                frees = λ p. ground (arith, y);
                sorted = (l, omega (arith, k), subst (λ e. Sorted e hi after) meet t);
              })
        | inr d ↦ rw (sum, d) (record { frees = λ p. refl; sorted = (l, k, (s, m, t)) })
      ]

  merge_adjacent-IsFreed :
      (lo : ℕ) (prev area : MemoryArea) (after : List MemoryArea)
      → lo ≤ prev.offset
      → 0 < prev.size
      → prev.offset + prev.size ≤ area.offset
      → 0 < area.size
      → Sorted (area.offset + area.size) hi after
      → IsFreed lo hi area (prev ∷ after) (merge_adjacent prev area after)
  unfolding merge_adjacent
  merge_adjacent-IsFreed lo prev area after l m d k s =
      let end = Sorted-bounds (area.offset + area.size) hi after s in
      let sum : add64 prev.offset prev.size ≡ prev.offset + prev.size = omega (arith, d, end, h) in
      let both : add64 area.size prev.size ≡ area.size + prev.size = omega (arith, d, end, h) in
      elim (Bool-cases (prev.offset + prev.size == area.offset)) [
        | inl y ↦
            let joined : MemoryArea = record {
              offset = prev.offset;
              size = area.size + prev.size;
            } in
            let meet : area.offset + area.size ≡ prev.offset + (area.size + prev.size) =
              ground (arith, y) in
            let f =
              merge_right-IsFreed lo joined after l (omega (arith, k))
                (subst (λ e. Sorted e hi after) meet s) in
            rw (sum, y, both)
              (record { frees = λ p. f.frees p ∙ (ground (arith, y)); sorted = f.sorted })
        | inr n ↦
            let f = merge_right-IsFreed (prev.offset + prev.size) area after d k s in
            rw (sum, n)
              (record { frees = λ p. rw (f.frees p) (ground arith); sorted = (l, m, f.sorted) })
      ]

  -- An area that starts in front of another one and has no address of it ends in front of it.
  ends_before :
      (area c : MemoryArea) (areas : List MemoryArea)
      → 0 < c.size
      → ((p : ℕ) → holds area p ≡ true → is_free (c ∷ areas) p ≡ false)
      → area.offset < c.offset
      → area.offset + area.size ≤ c.offset
  ends_before area c areas k apart l = elim (Bool-cases (holds area c.offset)) [
    | inl y ↦ ground (arith, apart c.offset y, k)
    | inr n ↦ ground (arith, n, l)
  ]

  starts_behind :
      (area c : MemoryArea) (areas : List MemoryArea)
      → 0 < area.size
      → ((p : ℕ) → holds area p ≡ true → is_free (c ∷ areas) p ≡ false)
      → c.offset ≤ area.offset
      → c.offset + c.size ≤ area.offset
  starts_behind area c areas k apart l =
      let here : holds area area.offset ≡ true = ground (arith, k) in
      ground (arith, apart area.offset here, l)

  insert_behind-IsFreed :
      (lo : ℕ) (prev area : MemoryArea) (areas : List MemoryArea)
      → lo ≤ prev.offset
      → 0 < prev.size
      → prev.offset + prev.size ≤ area.offset
      → 0 < area.size
      → area.offset + area.size ≤ hi
      → Sorted (prev.offset + prev.size) hi areas
      → ((p : ℕ) → holds area p ≡ true → is_free areas p ≡ false)
      → IsFreed lo hi area (prev ∷ areas) (insert_behind prev area areas)
  unfolding insert_behind
  insert_behind-IsFreed lo prev area [] l m d k e s apart =
      merge_adjacent-IsFreed lo prev area [] l m d k e
  insert_behind-IsFreed lo prev area (c ∷ areas) l m d k e (s, n, t) apart =
      elim (Bool-cases (ltb area.offset c.offset)) [
        | inl y ↦ rw y (
            merge_adjacent-IsFreed lo prev area (c ∷ areas) l m d k
              (ends_before area c areas n apart (ground (arith, y)), n, t))
        | inr b ↦
            let f =
              insert_behind-IsFreed (prev.offset + prev.size) c area areas s n
                (starts_behind area c areas k apart (ground (arith, b))) k e t
                (λ p q. ground (arith, apart p q)) in
            rw b (record { frees = λ p. rw (f.frees p) (ground arith); sorted = (l, m, f.sorted) })
      ]

-- On non-empty areas in order between two addresses below 2^64, `freeMapping` of a non-empty area
-- between these addresses of which no address is free makes exactly its addresses free besides
-- those that were, and leaves the list in order, with no empty area.
pub free_mapping-IsFreed :
    (lo hi : ℕ) (area : MemoryArea) (areas : List MemoryArea)
    → hi < 2 ^ 64
    → Sorted lo hi areas
    → lo ≤ area.offset
    → 0 < area.size
    → area.offset + area.size ≤ hi
    → ((p : ℕ) → holds area p ≡ true → is_free areas p ≡ false)
    → IsFreed lo hi area areas (free_mapping area areas)
unfolding free_mapping
free_mapping-IsFreed lo hi area [] h s l k e apart = record {
  frees = λ p. refl;
  sorted = (l, k, e);
}
free_mapping-IsFreed lo hi area (c ∷ areas) h (s, n, t) l k e apart =
    elim (Bool-cases (ltb area.offset c.offset)) [
      | inl y ↦ rw y (
          merge_right-IsFreed hi h lo area (c ∷ areas) l k
            (ends_before hi h area c areas n apart (ground (arith, y)), n, t))
      | inr b ↦ rw b (
          insert_behind-IsFreed hi h lo c area areas s n
            (starts_behind hi h area c areas k apart (ground (arith, b))) k e t
            (λ p q. ground (arith, apart p q)))
    ]
