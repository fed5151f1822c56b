-- ===== src/Heap/Taking.antt =====
-- The invariant of the kernel heap of YYSloth/src/memory/kheap.cpp, and what `allocFromSlubs` does
-- to it.
use yay_os.Base.{
  ℕ, zero, suc, ◌+◌, ◌-◌, ◌*◌, ◌/◌, ◌≤◌, ◌<◌, ◌≡◌, refl, sym, subst, ◌∙◌, true, false, Option, none,
  some, List, [], ◌∷◌, arith, ◌==◌, if◌then◌else◌, length, sub64, add64, u64_mod, inl, inr, lt→ltb,
}
use yay_os.Pools.{update}
use yay_os.Pools.Chains.{has, Distinct, Distinct-cut}
use yay_os.Heap.{
  KernelHeap, cut_pool_from, insert_pool_to, pool_alloc, take_object, alloc_loop, set_last_checked,
  alloc_from_slubs,
}
use yay_os.Heap.Pool.{Objects, Objects-frame, InPage}
use yay_os.Heap.Moving.{moved, moved-member, moved-Holds}
use yay_os.Heap.Lists.{View, Holds, IsApart}

-- What is known of a pool with `c` free objects of 16 times `s` bytes.
pub record IsPool (h : KernelHeap) (s c p : ℕ) (free : List ℕ) : Type 0 where
  pub counted : (h.pools p).objects_count ≡ c
  pub sized : (h.pools p).object_size ≡ 16 * s
  pub objects : Objects h.headers (h.pools p).first free
  pub as_many : length free ≡ c
  pub inside : InPage p free

-- The lists of pools, and the free objects of each pool.
pub record IsValid (h : KernelHeap) (v : View) (free : ℕ → List ℕ) : Type 0 where
  pub holds : Holds h v
  pub pool : (s c p : ℕ) → has p (v s c) ≡ true → IsPool h s c p (free p)

pub IsValid-IsApart : (h : KernelHeap) (v : View) (free : ℕ → List ℕ) → IsValid h v free → IsApart v
IsValid-IsApart h v free i s c s' c' a m m' =
    let x = i.pool s c a m in
    let y = i.pool s' c' a m' in
    let e : 16 * s ≡ 16 * s' = sym x.sized ∙ y.sized in
    let d : c ≡ c' = sym x.counted ∙ y.counted in (ground (arith, e), ground (arith, d))

pub IsValid-last :
    (h : KernelHeap) (v : View) (free : ℕ → List ℕ) (i n : ℕ)
    → IsValid h v free
    → IsValid (set_last_checked i n h) v free
IsValid-last h v free i n valid = record {
  holds = valid.holds;
  pool = λ s c p m.
      let x = valid.pool s c p m in
      record {
        counted = x.counted;
        sized = x.sized;
        objects = x.objects;
        as_many = x.as_many;
        inside = x.inside;
      };
}

-- A pool that nothing is written to.
pub IsPool-same :
    (h g : KernelHeap) (s c p : ℕ) (free : List ℕ)
    → g.pools p ≡ h.pools p
    → ((a : ℕ) → has a free ≡ true → (g.headers a).next ≡ (h.headers a).next)
    → IsPool h s c p free
    → IsPool g s c p free
IsPool-same h g s c p free e same x = record {
  counted = rw e x.counted;
  sized = rw e x.sized;
  objects = rw e (Objects-frame h.headers g.headers (h.pools p).first free same x.objects);
  as_many = x.as_many;
  inside = x.inside;
}

-- A pool without its first free object.
abbrev shorter : ℕ → ℕ → KernelHeap → KernelHeap
shorter p x h = record h {
  pools = update h.pools p (record (h.pools p) {
    first = (h.headers x).next;
    objects_count = sub64 (h.pools p).objects_count 1;
  });
}

pool_alloc-eq :
    (h : KernelHeap) (p x : ℕ)
    → (h.pools p).first ≡ some x
    → pool_alloc p h ≡ (shorter p x h, some x)
unfolding pool_alloc
pool_alloc-eq h p x e = rw (e, pool_alloc) refl

pub update_self : {A : Type 0} (f : ℕ → A) (a : ℕ) (v : A) → update f a v a ≡ v
update_self f a v = ground arith

pub update-other :
    {A : Type 0} (f : ℕ → A) (a b : ℕ) (v : A) → (b == a) ≡ false → update f a v b ≡ f b
update-other f a b v ne = rw ne refl

sub64-one : (a b : ℕ) → a ≡ b → 0 < b → b < u64_mod → sub64 a 1 ≡ b - 1
sub64-one a b e pos small = omega (arith, e)

-- A pool with free objects gives its first one.
shorter-IsPool :
    (h : KernelHeap) (s c p x : ℕ) (xs : List ℕ)
    → c < u64_mod
    → IsPool h s c p (x ∷ xs)
    → IsPool (shorter p x h) s (c - 1) p xs
shorter-IsPool h s c p x xs small i =
    let e = update_self h.pools p (record (h.pools p) {
      first = (h.headers x).next;
      objects_count = sub64 (h.pools p).objects_count 1;
    }) in
    record {
      counted =
          rw e (sub64-one (h.pools p).objects_count c i.counted (omega (arith, i.as_many)) small);
      sized = rw e i.sized;
      objects = rw e i.objects.1;
      as_many = omega (arith, i.as_many);
      inside = λ a m. i.inside a (ground (arith, m));
    }

-- The heap after `allocFromSlubs` took an object of a pool, but for the index last checked.
abbrev before : ℕ → KernelHeap → ℕ
before s h =
    let checked = sub64 (h.pools_last_checked_indices s) 1 in if checked == 0 then 1 else checked

abbrev taken : ℕ → ℕ → ℕ → ℕ → KernelHeap → KernelHeap
taken s c p x h = insert_pool_to p s (c - 1) (shorter p x (cut_pool_from p s c h))

module _ (h : KernelHeap) (v : View) (free : ℕ → List ℕ) (valid : IsValid h v free) (s c p x : ℕ)
    (ps xs : List ℕ) (e : v s c ≡ p ∷ ps) (some_free : free p ≡ x ∷ xs) (small : c < u64_mod) where
  first_pool : IsPool h s c p (x ∷ xs)
  first_pool = rw (← some_free) (valid.pool s c p (rw e (ground arith)))

  cut_pool : IsPool (cut_pool_from p s c h) s c p (x ∷ xs)
  unfolding cut_pool_from
  cut_pool = IsPool-same h (cut_pool_from p s c h) s c p (x ∷ xs) refl (λ a m. refl) first_pool

  take_object-eq :
      take_object s p h
      ≡ (set_last_checked s (before s (taken s c p x h)) (taken s c p x h), some x)
  unfolding take_object
  take_object-eq =
      let g = cut_pool_from p s c h in
      let eq = pool_alloc-eq g p x cut_pool.objects.0 in
      let count = (shorter-IsPool g s c p x xs small cut_pool).counted in
      rw (first_pool.counted, eq, count) refl

  taken-IsValid : IsValid (taken s c p x h) (moved v p s c (c - 1) ps) (update free p xs)
  unfolding cut_pool_from insert_pool_to
  taken-IsValid =
      let apart = IsValid-IsApart h v free valid in
      let once = (Distinct-cut [] ps p (subst Distinct e (valid.holds s c).2)).1 in
      let g = shorter p x (cut_pool_from p s c h) in
      let left = shorter-IsPool (cut_pool_from p s c h) s c p x xs small cut_pool in
      record {
        holds = moved-Holds v apart p s c [] ps e once h g (c - 1) valid.holds refl refl;
        pool = λ s' c' a m. elim (moved-member v apart p s c [] ps e once (c - 1) s' c' a m) [
          | inl (ea, es, ec) ↦
              rw (ea, es, ec, update_self free p xs)
                (IsPool-same g (taken s c p x h) s (c - 1) p xs refl (λ b n. refl) left)
          | inr (ne, m') ↦ rw (update-other free p a xs ne) (
              IsPool-same h (taken s c p x h) s' c' a (free a) (rw ne refl) (λ b n. refl)
                (valid.pool s' c' a m'))
        ];
      }

-- What is left once an object was taken from the first pool of a list.
abbrev pub Took :
    View → (ℕ → List ℕ) → ℕ → ℕ → ℕ → ℕ → List ℕ → List ℕ → KernelHeap × Option ℕ → Type 0
Took v free s c p x ps xs r =
    (r.1 ≡ some x) × IsValid r.0 (moved v p s c (c - 1) ps) (update free p xs)

take_object-IsValid :
    (h : KernelHeap) (v : View) (free : ℕ → List ℕ) (s c p x : ℕ) (ps xs : List ℕ)
    → v s c ≡ p ∷ ps
    → free p ≡ x ∷ xs
    → c < u64_mod
    → IsValid h v free
    → Took v free s c p x ps xs (take_object s p h)
take_object-IsValid h v free s c p x ps xs e f small valid =
    rw (take_object-eq h v free valid s c p x ps xs e f small) (
      refl,
      IsValid-last (taken s c p x h) (moved v p s c (c - 1) ps) (update free p xs) s
          (before s (taken s c p x h)) (taken-IsValid h v free valid s c p x ps xs e f small),
    )

-- A round of the loop in front of an index without pools, and one that finds a pool.
alloc_loop-on :
    (fuel s : ℕ) (h : KernelHeap)
    → h.pools_last_checked_indices s < add64 (h.pools_max_count s) 1
    → h.pool_heads s (h.pools_last_checked_indices s) ≡ none
    → alloc_loop (suc fuel) s h
      ≡ alloc_loop fuel s (set_last_checked s (add64 (h.pools_last_checked_indices s) 1) h)
unfolding alloc_loop
alloc_loop-on fuel s h l e = rw (alloc_loop, lt→ltb _ _ l, e) refl

alloc_loop-stops :
    (fuel s p : ℕ) (h : KernelHeap)
    → h.pools_last_checked_indices s < add64 (h.pools_max_count s) 1
    → h.pool_heads s (h.pools_last_checked_indices s) ≡ some p
    → alloc_loop (suc fuel) s h ≡ take_object s p h
unfolding alloc_loop
alloc_loop-stops fuel s p h l e = rw (alloc_loop, lt→ltb _ _ l, e) refl

module _ (v : View) (free : ℕ → List ℕ) (s k p x : ℕ) (ps xs : List ℕ) (e : v s k ≡ p ∷ ps)
    (f : free p ≡ x ∷ xs) (small : k < u64_mod) where
  -- Behind lists that are empty, the loop of allocFromSlubs takes the first free object of the first
  -- pool of the first list that is not.
  alloc_loop-IsValid :
      (fuel d : ℕ) (h : KernelHeap)
      → h.pools_last_checked_indices s + d ≡ k
      → d < fuel
      → k ≤ h.pools_max_count s
      → h.pools_max_count s + 1 < u64_mod
      → ((j : ℕ) → h.pools_last_checked_indices s ≤ j → j < k → v s j ≡ [])
      → IsValid h v free
      → Took v free s k p x ps xs (alloc_loop fuel s h)
  alloc_loop-IsValid zero d h at few m b empty valid = absurd (omega (arith, few))
  alloc_loop-IsValid (suc fuel) zero h at few m b empty valid =
      let at' : h.pools_last_checked_indices s ≡ k = omega (arith, at) in
      rw
        (alloc_loop-stops fuel s p h (omega (arith, at, m, b))
          (rw (at', (valid.holds s k).0, e) refl))
        (take_object-IsValid h v free s k p x ps xs e f small valid)
  alloc_loop-IsValid (suc fuel) (suc d) h at few m b empty valid =
      let i = h.pools_last_checked_indices s in
      let next : add64 i 1 ≡ suc i = omega (arith, at, m, b) in
      let h' = set_last_checked s (add64 i 1) h in
      let at' : h'.pools_last_checked_indices s ≡ suc i =
        update_self h.pools_last_checked_indices s (add64 i 1) ∙ next in
      rw
        (alloc_loop-on fuel s h (omega (arith, at, m, b))
          (rw ((valid.holds s i).0, empty i (omega arith) (omega (arith, at))) refl))
        (alloc_loop-IsValid fuel d h' (omega (arith, at, at')) (omega (arith, few)) m b
          (λ j l. empty j (omega (arith, l, at'))) (IsValid-last h v free s (add64 i 1) valid))

  -- allocFromSlubs finds the first pool of the first list from the index last checked on.
  pub alloc_from_slubs-Took :
      (h : KernelHeap) (size : ℕ)
      → size / 16 ≡ s
      → 0 < h.pools_last_checked_indices s
      → h.pools_last_checked_indices s ≤ k
      → k ≤ h.pools_max_count s
      → h.pools_max_count s + 1 < u64_mod
      → ((j : ℕ) → h.pools_last_checked_indices s ≤ j → j < k → v s j ≡ [])
      → IsValid h v free
      → (r : KernelHeap × Option ℕ) × (alloc_from_slubs size h ≡ some r)
        × Took v free s k p x ps xs r
  unfolding alloc_from_slubs
  alloc_from_slubs-Took h size es pos low m b empty valid =
      let i = h.pools_last_checked_indices s in
      let n = h.pools_max_count s + 2 - i in
      (
        alloc_loop n s h,
        rw es (ground (arith, pos)),
        alloc_loop-IsValid n (k - i) h (omega (arith, low)) (omega (arith, low, m)) m b empty valid,
      )
