-- ===== src/Mapper/Ranges.antt =====
-- Which operations on pages the loops of YYSloth/src/memory/vmmap.cpp make, and in which order.
use yay_os.Base.{
  ℕ, zero, suc, ◌+◌, ◌*◌, ◌≤◌, ◌<◌, ◌≡◌, refl, ap, Bool, true, false, ◌==◌, ltb, arith,
  if◌then◌else◌, add64, sub64, u64_mod, Bool-cases, inl, inr, ◌⊎◌, lt→ltb, subst, ℕ_discrete,
}
use yay_os.Paging.{page_size}
use yay_os.Mapper.{PageMapper, rounds, free_loop, map_loop, finish, map_pages}

module _ {M : Type 0} (mapper : PageMapper M) (start : ℕ) where
  -- The memory once the first `n` pages from `start` on were freed, the first one first.
  abbrev pub freed : ℕ → M → M
  freed zero m = m
  freed (suc n) m = mapper.free_page_at (start + n * page_size) (freed n m)

  module _ (phys flags : ℕ) (m : M) where
    -- The physical address for a page.
    abbrev pub page_phys : ℕ → ℕ
    page_phys i = if phys == 0 then 0 else add64 (i * page_size) phys

    -- The memory once the first `n` pages from `start` on were tried in turn.
    abbrev pub tried : ℕ → M
    tried zero = m
    tried (suc n) = (mapper.map_new_page_at (start + n * page_size) (page_phys n) flags (tried n)).0

    -- The page `n` can be mapped behind those in front of it.
    abbrev pub succeeds : ℕ → Bool
    succeeds n = (mapper.map_new_page_at (start + n * page_size) (page_phys n) flags (tried n)).1

    -- Of `n` pages the first `k` were mapped, and either those are all, or the page `k` could not
    -- be mapped and the first `k` were freed again.
    pub record Attempted (n k : ℕ) (result : M × Bool) : Type 0 where
      pub mapped : (i : ℕ) → i < k → succeeds i ≡ true
      pub outcome :
          ((k ≡ n) × (result ≡ (tried n, true)))
          ⊎ ((k < n) × (succeeds k ≡ false) × (result ≡ (freed k (tried (suc k)), false)))

  free_loop-freed :
      (fuel i n end : ℕ) (m : M)
      → i + fuel ≡ n
      → end ≡ start + n * page_size
      → end < u64_mod
      → free_loop mapper fuel (start + i * page_size) end (freed i m) ≡ freed n m
  unfolding free_loop
  free_loop-freed zero i n end m k e h =
      let same : i ≡ n = omega (arith, k) in subst (λ k. freed i m ≡ freed k m) same refl
  free_loop-freed (suc fuel) i n end m k e h =
      let more : ltb (start + i * page_size) end ≡ true = lt→ltb _ _ (omega (arith, k, e)) in
      let next : add64 (start + i * page_size) page_size ≡ start + suc i * page_size =
        omega (arith, k, e, h) in
      let rest = free_loop-freed fuel (suc i) n end m (omega (arith, k)) e h in rw (more, next) rest

  module _ (end phys flags : ℕ) (m : M) (high : end + page_size ≤ u64_mod) where
    -- The address and the physical address of the page `i` as the loop computes them.
    loop_phys :
        (i : ℕ)
        → start + i * page_size < end
        → (if phys == 0 then 0 else add64 (sub64 (start + i * page_size) start) phys)
          ≡ page_phys phys flags m i
    loop_phys i h =
        let same : sub64 (start + i * page_size) start ≡ i * page_size = omega (arith, h, high) in
        rw same refl

    -- The first `k` pages are freed after the page `k` could not be mapped.
    rolled_back :
        (k : ℕ) (m' : M)
        → start + k * page_size < u64_mod
        → finish mapper start (m', false, start + k * page_size) ≡ (freed k m', false)
    unfolding finish
    rolled_back k m' h =
        let count : rounds start (start + k * page_size) ≡ k = omega arith in
        let first : start + 0 * page_size ≡ start = omega arith in
        let all = free_loop-freed k 0 k (start + k * page_size) m' (omega arith) refl h in
        rw (count, rw first at all) refl

    -- A round in which the page is mapped.
    loop_more :
        (fuel i : ℕ)
        → start + i * page_size < end
        → succeeds phys flags m i ≡ true
        → map_loop mapper
            (suc fuel)
            (start + i * page_size)
            start
            end
            phys
            flags
            (tried phys flags m i)
          ≡ map_loop mapper fuel
              (start + suc i * page_size)
              start
              end
              phys
              flags
              (tried phys flags m (suc i))
    unfolding map_loop
    loop_more fuel i below done =
        let more : ltb (start + i * page_size) end ≡ true = lt→ltb _ _ below in
        let next : add64 (start + i * page_size) page_size ≡ start + suc i * page_size =
          omega (arith, below, high) in
        rw (more, next, loop_phys i below, done) refl

    looped :
        (fuel i n : ℕ)
        → i + fuel ≡ n
        → rounds start end ≡ n
        → ((j : ℕ) → j < i → succeeds phys flags m j ≡ true)
        → (k : ℕ) × Attempted phys flags m n k (
            finish mapper start (
              map_loop mapper fuel
                (start + i * page_size)
                start
                end
                phys
                flags
                (tried phys flags m i)))
    unfolding map_loop finish
    looped zero i n e r before =
        let same : i ≡ n = omega (arith, e) in
        (
          i,
          record {
            mapped = before;
            outcome = inl (same, ap (λ k. (tried phys flags m k, true)) same);
          },
        )
    looped (suc fuel) i n e r before =
        let below : start + i * page_size < end = omega (arith, e, r) in
        let more : ltb (start + i * page_size) end ≡ true = lt→ltb _ _ below in
        elim (Bool-cases (succeeds phys flags m i)) [
          | inl done ↦ rw (loop_more fuel i below done) (
              looped fuel (suc i) n (omega (arith, e)) r (λ j h. elim (ℕ_discrete j i) [
                | yes at ↦ rw at done
                | no ne ↦ before j (omega (arith, h, ne))
              ]))
          | inr failed ↦ (
            i,
            rw (more, loop_phys i below, failed, rolled_back i _ (omega (arith, below, high)))
                (record { mapped = before; outcome = inr (omega (arith, e), failed, refl) }),
          )
        ]

    -- `mapPages` on a range that ends a page below 2^64 maps its pages in turn, from the first one
    -- on, each to the physical address at the same distance from the one given or to a new page for
    -- the address 0. When all of them are mapped it returns true; when a page cannot be mapped, it
    -- frees those in front of that page, the first one first, and returns false.
    pub map_pages_lem :
        (n : ℕ)
        → rounds start end ≡ n
        → (k : ℕ) × Attempted phys flags m n k (map_pages mapper start end phys flags m)
    unfolding map_pages
    map_pages_lem n e =
        let first : start + 0 * page_size ≡ start = omega arith in
        let all =
          looped (rounds start end) 0 n (omega (arith, e)) e (λ j h. absurd (omega (arith, h))) in
        rw first at all
