-- ===== src/UserMemory/Taking.antt =====
-- `alloc` and `reserve` take a range out of the free addresses.
use yay_os.Base.{
  ◌≢◌, ℕ, zero, suc, ◌+◌, ◌-◌, ◌^◌, ◌≤◌, ◌<◌, ◌≡◌, refl, sym, subst, Bool, true, false, Option,
  none, some, List, [], ◌∷◌, ◌==◌, ltb, if◌then◌else◌, ◌&&◌, arith, Bool-cases, inl, inr, ◌⊎◌, ◌∙◌,
  set,
}
use yay_os.UserMemory.{
  Area, add64, sub64, area, find_best_fit, cut, alloc, is_in, cut_from, reserve,
}
use yay_os.UserMemory.Areas.{
  in_range, is_free, Sorted, Sorted-bounds, is_free_below, add64_lem, sub64_lem,
}

-- The area stands at the index.
abbrev pub At : ℕ → Area → List Area → Type 0
At i a [] = ⊥
At zero a (b ∷ areas) = a ≡ b
At (suc i) a (b ∷ areas) = At i a areas

-- What the search from index `i` on can find: the result so far, or a large enough area.
abbrev Found : ℕ → ℕ → Option (ℕ × Area) → List Area → Option (ℕ × Area) → Type 0
Found size i result areas none = Unit
Found size i result areas (some (j, r)) =
    (result ≡ some (j, r)) ⊎ ((k : ℕ) × (j ≡ i + k) × At k r areas × (size < r.size))

later :
    (size i : ℕ) (result result' : Option (ℕ × Area)) (a : Area) (areas : List Area)
    → (result' ≡ result) ⊎ ((result' ≡ some (i, a)) × (size < a.size))
    → (p : Option (ℕ × Area)) → Found size (i + 1) result' areas p
    → Found size i result (a ∷ areas) p
later size i result result' a areas c none f = tt
later size i result result' a areas (inl e) (some (j, r)) (inl f) = inl (sym e ∙ f)
later size i result result' a areas (inr (e, h)) (some (j, r)) (inl f) =
    let same : some (i, a) ≡ some (j, r) = sym e ∙ f in
    inr (0, ground (arith, same), ground (arith, same), ground (arith, same))
later size i result result' a areas c (some (j, r)) (inr (k, e, at, h)) =
    inr (suc k, omega (arith, e), at, h)

find_best_fit-Found :
    (size i : ℕ) (result : Option (ℕ × Area)) (areas : List Area)
    → Found size i result areas (find_best_fit size i result areas)
unfolding find_best_fit
find_best_fit-Found size i none [] = tt
find_best_fit-Found size i (some q) [] = inl refl
find_best_fit-Found size i none (a ∷ areas) =
    later size i none (if ltb size a.size then some (i, a) else none) a areas
      (elim (Bool-cases (ltb size a.size)) [
        | inl y ↦ inr (rw y refl, ground (arith, y))
        | inr n ↦ inl (rw n refl)
      ])
      (find_best_fit size (i + 1) (if ltb size a.size then some (i, a) else none) areas)
      (find_best_fit-Found size (i + 1) (if ltb size a.size then some (i, a) else none) areas)
find_best_fit-Found size i (some (j, r)) (a ∷ areas) =
    later size i (some (j, r))
      (if ltb size a.size && ltb a.size r.size then some (i, a) else some (j, r)) a areas
      (elim (Bool-cases (ltb size a.size && ltb a.size r.size)) [
        | inl y ↦ inr (rw y refl, ground (arith, y))
        | inr n ↦ inl (rw n refl)
      ])
      (find_best_fit size (i + 1)
        (if ltb size a.size && ltb a.size r.size then some (i, a) else some (j, r)) areas)
      (find_best_fit-Found size (i + 1)
        (if ltb size a.size && ltb a.size r.size then some (i, a) else some (j, r)) areas)

-- A range is taken: it was free, it is not free any more, and nothing else changes.
pub record IsTaken (addr size : ℕ) (before after : List Area) : Type 0 where
  pub was_free : (p : ℕ) → in_range addr size p ≡ true → is_free before p ≡ true
  pub is_used : (p : ℕ) → in_range addr size p ≡ true → is_free after p ≡ false
  pub others : (p : ℕ) → in_range addr size p ≡ false → is_free after p ≡ is_free before p

module _ (lo hi : ℕ) (b : Area) (areas : List Area) (s : Sorted (b.start + b.size) hi areas) where
  none_below : (p : ℕ) → p < b.start + b.size → is_free areas p ≡ false
  none_below p h = is_free_below (b.start + b.size) hi areas p s h

  IsTaken-front :
      (n : ℕ) → n ≤ b.size → IsTaken b.start n (b ∷ areas) (area (b.start + n) (b.size - n) ∷ areas)
  IsTaken-front n h = record {
    was_free = λ p k. ground (arith, h, k);
    is_used = λ p k. ground (arith, h, k, none_below p (ground (arith, h, k)));
    others = λ p k. ground (arith, h, k);
  }

  IsTaken-back :
      (start n : ℕ)
      → b.start ≤ start
      → start + n ≡ b.start + b.size
      → IsTaken start n (b ∷ areas) (area b.start (start - b.start) ∷ areas)
  IsTaken-back start n h e = record {
    was_free = λ p k. ground (arith, h, k, e);
    is_used = λ p k. ground (arith, h, k, none_below p (ground (arith, e, k)));
    others = λ p k. ground (arith, h, k, e);
  }

  IsTaken-middle :
      (start n : ℕ)
      → b.start ≤ start
      → start + n ≤ b.start + b.size
      → IsTaken start n (b ∷ areas) (
          area b.start (start - b.start)
          ∷ area (start + n) (b.start + b.size - (start + n))
          ∷ areas)
  IsTaken-middle start n h e = record {
    was_free = λ p k. ground (arith, h, k, e);
    is_used = λ p k. ground (arith, h, k, none_below p (ground (arith, e, k)));
    others = λ p k. ground (arith, h, k, e);
  }

  IsTaken-behind :
      (start n : ℕ) (areas' : List Area)
      → IsTaken start n areas areas'
      → IsTaken start n (b ∷ areas) (b ∷ areas')
  IsTaken-behind start n areas' t = record {
    was_free = λ p k. ground (arith, t.was_free p k);
    is_used = λ p k. elim (Bool-cases (ltb p (b.start + b.size))) [
      | inl y ↦
          let free = t.was_free p k in
          let used = none_below p (ground (arith, y)) in ground (arith, free, used)
      | inr n ↦ ground (arith, t.is_used p k, n)
    ];
    others = λ p k. rw (t.others p k) refl;
  }

At-lower :
    (lo hi i : ℕ) (a : Area) (areas : List Area) → Sorted lo hi areas → At i a areas → lo ≤ a.start
At-lower lo hi i a [] s at = absurd at
At-lower lo hi zero a (b ∷ areas) (s, t) at = rw at s
At-lower lo hi (suc i) a (b ∷ areas) (s, t) at =
    omega (arith, s, At-lower (b.start + b.size) hi i a areas t at)

shorter :
    (lo hi i size : ℕ) (a : Area) (areas : List Area)
    → Sorted lo hi areas
    → At i a areas
    → size ≤ a.size
    → IsTaken a.start size areas (set areas i (area (a.start + size) (a.size - size)))
      × Sorted lo hi (set areas i (area (a.start + size) (a.size - size)))
shorter lo hi i size a [] s at h = absurd at
shorter lo hi zero size a (b ∷ areas) (s, t) at h =
    let end : a.start + size + (a.size - size) ≡ b.start + b.size =
      rw (sym at) (omega (arith, h)) in
    (
      subst (λ c. IsTaken a.start size (c ∷ areas) (area (a.start + size) (a.size - size) ∷ areas))
          at (IsTaken-front lo hi a areas (rw at t) size h),
      (omega (arith, s, subst (λ c. b.start ≤ c.start + size) (sym at) (omega arith)), rw end t),
    )
shorter lo hi (suc i) size a (b ∷ areas) (s, t) at h =
    let (taken, sorted) = shorter (b.start + b.size) hi i size a areas t at h in
    (
      IsTaken-behind lo hi b areas t a.start size
          (set areas i (area (a.start + size) (a.size - size))) taken,
      (s, sorted),
    )

keeps_found :
    (size i : ℕ) (q : ℕ × Area) (areas : List Area) → find_best_fit size i (some q) areas ≢ none
unfolding find_best_fit
keeps_found size i q [] = λ e. ground (arith, e)
keeps_found size i (j, r) (a ∷ areas) = elim (Bool-cases (ltb size a.size && ltb a.size r.size)) [
  | inl y ↦ rw y (keeps_found size (i + 1) (i, a) areas)
  | inr n ↦ rw n (keeps_found size (i + 1) (j, r) areas)
]

finds :
    (size i k : ℕ) (a : Area) (areas : List Area)
    → At k a areas
    → size < a.size
    → find_best_fit size i none areas ≢ none
unfolding find_best_fit
finds size i k a [] at h = absurd at
finds size i zero a (b ∷ areas) at h =
    let fits : ltb size b.size ≡ true = rw (sym at) (ground (arith, h)) in
    rw fits (keeps_found size (i + 1) (i, b) areas)
finds size i (suc k) a (b ∷ areas) at h = elim (Bool-cases (ltb size b.size)) [
  | inl y ↦ rw y (keeps_found size (i + 1) (i, b) areas)
  | inr n ↦ rw n (finds size (i + 1) k a areas at h)
]

-- What `alloc` promises: 0 and no change, with every area too short, or a range that is taken.
abbrev pub Allocated : ℕ → ℕ → ℕ → List Area → ℕ × List Area → Type 0
Allocated lo hi size areas (addr, areas') =
    ((addr ≡ 0) × (areas' ≡ areas) × ((k : ℕ) (a : Area) → At k a areas → a.size ≤ size))
    ⊎ ((lo ≤ addr) × IsTaken addr size areas areas' × Sorted lo hi areas')

At-upper :
    (lo hi i : ℕ) (a : Area) (areas : List Area)
    → Sorted lo hi areas
    → At i a areas
    → a.start + a.size ≤ hi
At-upper lo hi i a [] s at = absurd at
At-upper lo hi zero a (b ∷ areas) (s, t) at = rw at (Sorted-bounds (b.start + b.size) hi areas t)
At-upper lo hi (suc i) a (b ∷ areas) (s, t) at = At-upper (b.start + b.size) hi i a areas t at

-- On areas in order between two addresses below 2^64, `alloc` either gives 0, changes nothing and
-- no area is longer than the size asked for, or it gives an address from which on that many
-- addresses were free, are free no more, with no change elsewhere and the areas in order.
pub alloc-Allocated :
    (lo hi size : ℕ) (areas : List Area)
    → Sorted lo hi areas
    → hi < 2 ^ 64
    → Allocated lo hi size areas (alloc size areas)
unfolding alloc
alloc-Allocated lo hi size areas s h =
    outcome (find_best_fit size 0 none areas) refl (find_best_fit-Found size 0 none areas)
  where
    outcome :
        (p : Option (ℕ × Area))
        → find_best_fit size 0 none areas ≡ p
        → Found size 0 none areas p
        → Allocated lo hi size areas (elim p [
          | none ↦ (0, areas)
          | some (i, a) ↦
              let areas' = set areas i (area (add64 a.start size) (sub64 a.size size)) in
              (a.start, if sub64 a.size size == 0 then cut i areas' else areas')
        ])
    outcome none e f = inl (
      refl,
      refl,
      λ k a at. elim (Bool-cases (ltb size a.size)) [
        | inl y ↦ absurd (finds size 0 k a areas at (ground (arith, y)) e)
        | inr n ↦ ground (arith, n)
      ],
    )
    outcome (some (i, a)) e (inl f) = ground (arith, f)
    outcome (some (i, a)) e (inr (k, g, at, fits)) =
        let same : i ≡ k = omega (arith, g) in
        let upper = At-upper lo hi k a areas s at in
        let sum = add64_lem a.start size (omega (arith, upper, fits, h)) in
        let rest = sub64_lem a.size size (omega (arith, fits)) in
        let positive : (a.size - size == 0) ≡ false = ground (arith, fits) in
        let (taken, sorted) = shorter lo hi k size a areas s at (omega (arith, fits)) in
        inr (
          At-lower lo hi k a areas s at,
          rw (same, sum, rest, positive) taken,
          rw (same, sum, rest, positive) sorted,
        )

-- What `reserve` promises: the range is taken; without success there was no room on the heap, or no
-- area holds the first address and also the one behind the range.
abbrev pub Reserved : ℕ → ℕ → Bool → ℕ → ℕ → List Area → Option (List Area) → Type 0
Reserved lo hi room addr size areas none =
    (room ≡ false)
    ⊎ ((k : ℕ) (a : Area)
        → At k a areas
        → in_range a.start a.size addr ≡ true
        → in_range a.start a.size (addr + size) ≡ false)
Reserved lo hi room addr size areas (some areas') =
    IsTaken addr size areas areas' × Sorted lo hi areas'

is_in_lem : (a : Area) (p : ℕ) → a.start + a.size < 2 ^ 64 → is_in a p ≡ in_range a.start a.size p
unfolding is_in
is_in_lem a p h = rw (add64_lem a.start a.size h) refl

module _ (lo hi addr size : ℕ) (a : Area) (areas : List Area) (s : lo ≤ a.start)
    (t : Sorted (a.start + a.size) hi areas) (h : hi < 2 ^ 64) (k : addr + size < 2 ^ 64) where
  cut_from-Reserved :
      (room : Bool)
      → in_range a.start a.size addr ≡ true
      → in_range a.start a.size (addr + size) ≡ true
      → Reserved lo hi room addr size (a ∷ areas) (cut_from room a areas addr size)
  unfolding cut_from
  cut_from-Reserved room i j =
      let end = Sorted-bounds (a.start + a.size) hi areas t in
      let sum = add64_lem addr size k in
      let whole = add64_lem a.start a.size (omega (arith, end, h)) in
      let moved = add64_lem a.start size (ground (arith, j, i, k)) in
      let less = sub64_lem a.size size (ground (arith, i, j)) in
      let front = sub64_lem addr a.start (ground (arith, i)) in
      let back = sub64_lem (a.start + a.size) (addr + size) (ground (arith, j)) in
      elim (Bool-cases (addr == a.start)) [
        | inl y ↦
            let same : addr ≡ a.start = ground (arith, y) in
            rw (y, moved, less)
              (
                subst
                    (λ x.
                      IsTaken x size (a ∷ areas) (area (a.start + size) (a.size - size) ∷ areas))
                    (sym same) (IsTaken-front lo hi a areas t size (ground (arith, i, j))),
                (omega (arith, s), subst (λ x. Sorted x hi areas) (ground (arith, i, j)) t),
              )
        | inr n ↦
            let inside : (addr + size == a.start + a.size) ≡ false = ground (arith, j) in
            elim (Bool-cases room) [
              | inr e ↦ rw (n, sum, whole, inside, e) (inl refl)
              | inl e ↦
                  rw (e, n, sum, whole, inside, front, back)
                    (
                      IsTaken-middle lo hi a areas t addr size (ground (arith, i))
                          (ground (arith, j)),
                      (
                        s,
                        (ground (arith, i), subst (λ x. Sorted x hi areas) (ground (arith, j)) t),
                      ),
                    )
            ]
      ]

-- On areas in order between two addresses below 2^64, `reserve` of a range that ends below 2^64
-- either takes exactly the range, all of it free before and in use after, with the areas in order,
-- or gives up because the heap has no room for a node or no area holds both the first address
-- and the one behind the range.
pub reserve-Reserved :
    (lo hi addr size : ℕ) (areas : List Area)
    → Sorted lo hi areas
    → hi < 2 ^ 64
    → addr + size < 2 ^ 64
    → (room : Bool) → Reserved lo hi room addr size areas (reserve room addr size areas)
unfolding reserve
reserve-Reserved lo hi addr size [] s h k room = inr (λ i a at. absurd at)
reserve-Reserved lo hi addr size (a ∷ areas) (s, t) h k room =
    let end = Sorted-bounds (a.start + a.size) hi areas t in
    let first = is_in_lem a addr (omega (arith, end, h)) in
    let last : is_in a (add64 addr size) ≡ in_range a.start a.size (addr + size) =
      rw (add64_lem addr size k) (is_in_lem a (addr + size) (omega (arith, end, h))) in
    elim (Bool-cases (in_range a.start a.size addr)) [
      | inl y ↦ elim (Bool-cases (in_range a.start a.size (addr + size))) [
        | inl z ↦
            subst (Reserved lo hi room addr size (a ∷ areas)) (sym (inside first y last z))
              (cut_from-Reserved lo hi addr size a areas s t h k room y z)
        | inr z ↦
            subst (Reserved lo hi room addr size (a ∷ areas)) (sym (across first y last z))
              (inr (only_first y z))
      ]
      | inr n ↦ subst (Reserved lo hi room addr size (a ∷ areas)) (sym (behind first n)) (
          next n (reserve room addr size areas)
            (reserve-Reserved (a.start + a.size) hi addr size areas t h k room))
    ]
  where
    only_first :
        in_range a.start a.size addr ≡ true
        → in_range a.start a.size (addr + size) ≡ false
        → (i : ℕ) (b : Area) → At i b (a ∷ areas)
        → in_range b.start b.size addr ≡ true
        → in_range b.start b.size (addr + size) ≡ false
    only_first y z zero b at r = rw at z
    only_first y z (suc i) b at r =
        ground (arith, At-lower (a.start + a.size) hi i b areas t at, y, r)

    only_later :
        in_range a.start a.size addr ≡ false
        → ((i : ℕ) (b : Area)
            → At i b areas
            → in_range b.start b.size addr ≡ true
            → in_range b.start b.size (addr + size) ≡ false)
        → (i : ℕ) (b : Area) → At i b (a ∷ areas)
        → in_range b.start b.size addr ≡ true
        → in_range b.start b.size (addr + size) ≡ false
    only_later n f zero b at r =
        ground (arith, subst (λ c. in_range c.start c.size addr ≡ true) at r, n)
    only_later n f (suc i) b at r = f i b at r

    inside :
        (is_in a addr ≡ in_range a.start a.size addr)
        → in_range a.start a.size addr ≡ true
        → (is_in a (add64 addr size) ≡ in_range a.start a.size (addr + size))
        → in_range a.start a.size (addr + size) ≡ true
        → reserve room addr size (a ∷ areas) ≡ cut_from room a areas addr size
    inside e f g h = cc

    across :
        (is_in a addr ≡ in_range a.start a.size addr)
        → in_range a.start a.size addr ≡ true
        → (is_in a (add64 addr size) ≡ in_range a.start a.size (addr + size))
        → in_range a.start a.size (addr + size) ≡ false
        → reserve room addr size (a ∷ areas) ≡ none
    across e f g h = cc

    behind :
        (is_in a addr ≡ in_range a.start a.size addr)
        → in_range a.start a.size addr ≡ false
        → reserve room addr size (a ∷ areas)
          ≡ elim (reserve room addr size areas) [ none ↦ none | some areas' ↦ some (a ∷ areas') ]
    behind e f = cc

    next :
        in_range a.start a.size addr ≡ false
        → (q : Option (List Area)) → Reserved (a.start + a.size) hi room addr size areas q
        → Reserved lo hi room addr size
            (a ∷ areas)
            (elim q [ none ↦ none | some areas' ↦ some (a ∷ areas') ])
    next n none (inl e) = inl e
    next n none (inr f) = inr (only_later n f)
    next n (some areas') (taken, sorted) =
        (IsTaken-behind lo hi a areas t addr size areas' taken, (s, sorted))
