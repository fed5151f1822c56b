-- ===== src/Heap/Fresh.antt =====
-- A new pool of the kernel heap: `getNewPool` of YYSloth/src/memory/kheap.cpp.
use yay_os.Base.{
  ℕ, suc, ◌+◌, ◌*◌, ◌/◌, ◌<◌, ◌≡◌, ◌≢◌, refl, sym, ap, subst, ◌∙◌, true, false, none, some, List,
  ◌∷◌, arith, ◌==◌, sub64, u64_mod, Bool-cases, inl, inr, ==_iff,
}
use yay_os.Utils.{align_down}
use yay_os.Pools.{update}
use yay_os.Pools.Chains.{has}
use yay_os.Heap.{
  KernelHeap, ObjectHeader, set_entry, insert_pool_to, pool_init, get_new_pool, header_at,
  max_count, link_headers, set_next_object,
}
use yay_os.Heap.Pool.{
  Objects, headers_from, headers-Objects, headers-InPage, header_at-page, link_headers-same,
  length-headers_from,
}
use yay_os.Heap.Lists.{View, Holds, insert_pool_to-Holds}
use yay_os.Heap.Moving.{entry-cases}
use yay_os.Heap.Taking.{
  IsPool, IsValid, IsValid-IsApart, IsValid-last, IsPool-same, update_self, update-other,
}

ne→== : (a b : ℕ) → a ≢ b → (a == b) ≡ false
ne→== a b h = ground (arith, h)

pool_init-pools :
    (h : KernelHeap) (size page a : ℕ)
    → (a == page) ≡ false
    → (pool_init page size h).pools a ≡ h.pools a
unfolding pool_init
pool_init-pools h size page a ne = rw ne refl

pool_init-headers :
    (h : KernelHeap) (size c page : ℕ)
    → max_count size ≡ suc c
    → c + 1 < u64_mod
    → (pool_init page size h).headers
      ≡ set_next_object (header_at page size c) none (link_headers c page size 0 h.headers)
unfolding pool_init
pool_init-headers h size c page e small =
    let c' : sub64 (max_count size) 1 ≡ c = omega (arith, e, small) in
    ap (λ n. set_next_object (header_at page size n) none (link_headers n page size 0 h.headers)) c'

-- What `init` makes of the page of a pool.
pool_init-IsPool :
    (h : KernelHeap) (s c page : ℕ)
    → align_down page 4096 ≡ page
    → max_count (16 * s) ≡ suc c
    → c + 1 < u64_mod
    → IsPool (pool_init page (16 * s) h) s (suc c) page (headers_from (suc c) page (16 * s) 0)
unfolding pool_init
pool_init-IsPool h s c page al e small =
    let size = 16 * s in
    let u = update_self h.pools page (record {
      first = some (header_at page size 0);
      object_size = size;
      objects_count = max_count size;
    }) in
    record {
      counted = rw u e;
      sized = rw u refl;
      objects = rw u (
          subst (λ f. Objects f (some (header_at page size 0)) (headers_from (suc c) page size 0))
            (sym (pool_init-headers h size c page e small))
            (headers-Objects c page size 0 c h.headers (omega arith)));
      as_many = length-headers_from (suc c) page size 0;
      inside = headers-InPage (suc c) page size 0 al (omega (arith, e));
    }

-- A header outside the page is not written to.
pool_init-outside :
    (h : KernelHeap) (size c page b : ℕ)
    → align_down page 4096 ≡ page
    → max_count size ≡ suc c
    → c + 1 < u64_mod
    → align_down b 4096 ≢ page
    → (pool_init page size h).headers b ≡ h.headers b
pool_init-outside h size c page b al e small out =
    let ne : (b == header_at page size c) ≡ false = ne→== b (header_at page size c) (λ q.
      out (ap (λ n. align_down n 4096) q ∙ header_at-page page size c al (omega (arith, e)))) in
    let not_in : has b (headers_from c page size 0) ≡ false =
      elim (Bool-cases (has b (headers_from c page size 0))) [
        | inr n ↦ n
        | inl m ↦ absurd (out (headers-InPage c page size 0 al (omega (arith, e)) b m))
      ] in
    ap (λ f. f b) (pool_init-headers h size c page e small)
    ∙ update-other (link_headers c page size 0 h.headers) (header_at page size c) b _ ne
    ∙ link_headers-same c page size 0 h.headers b not_in

-- A pool elsewhere is not written to.
pool_init-other :
    (h : KernelHeap) (s c d page t a : ℕ) (free : List ℕ)
    → align_down page 4096 ≡ page
    → max_count (16 * s) ≡ suc c
    → c + 1 < u64_mod
    → (a == page) ≡ false
    → IsPool h t d a free
    → IsPool (pool_init page (16 * s) h) t d a free
pool_init-other h s c d page t a free al e small ne i =
    let g = pool_init page (16 * s) h in
    IsPool-same h g t d a free (pool_init-pools h (16 * s) page a ne)
      (λ b m.
        ap (λ (r : ObjectHeader). r.next)
          (pool_init-outside h (16 * s) c page b al e small
            (λ q. cc ((==_iff a page).1 (sym (i.inside b m) ∙ q), ne))))
      i

module _ (h : KernelHeap) (v : View) (free : ℕ → List ℕ) (valid : IsValid h v free) (s c page : ℕ)
    (al : align_down page 4096 ≡ page) (count : max_count (16 * s) ≡ suc c)
    (small : c + 1 < u64_mod) (out : (s' c' : ℕ) → has page (v s' c') ≡ false) where
  fresh_pool : KernelHeap
  fresh_pool = insert_pool_to page s (suc c) (pool_init page (16 * s) h)

  fresh_free : ℕ → List ℕ
  fresh_free = update free page (headers_from (suc c) page (16 * s) 0)

  fresh-Holds : Holds fresh_pool (set_entry v s (suc c) (page ∷ v s (suc c)))
  unfolding fresh_pool pool_init
  fresh-Holds =
      insert_pool_to-Holds (pool_init page (16 * s) h) v valid.holds
        (IsValid-IsApart h v free valid) page s (suc c) out

  fresh-self : IsPool fresh_pool s (suc c) page (fresh_free page)
  unfolding fresh_pool fresh_free insert_pool_to
  fresh-self = rw (update_self free page (headers_from (suc c) page (16 * s) 0)) (
      IsPool-same (pool_init page (16 * s) h) fresh_pool s (suc c) page
        (headers_from (suc c) page (16 * s) 0) refl (λ b m. refl)
        (pool_init-IsPool h s c page al count small))

  fresh-other :
      (s' c' a : ℕ)
      → (a == page) ≡ false
      → has a (v s' c') ≡ true
      → IsPool fresh_pool s' c' a (fresh_free a)
  unfolding fresh_pool fresh_free insert_pool_to
  fresh-other s' c' a ne m = rw (update-other free page a _ ne) (
      IsPool-same (pool_init page (16 * s) h) fresh_pool s' c' a (free a) refl (λ b m. refl)
        (pool_init-other h s c c' page s' a (free a) al count small ne (valid.pool s' c' a m)))

  old-ne : (s' c' a : ℕ) → has a (v s' c') ≡ true → (a == page) ≡ false
  old-ne s' c' a m = elim (Bool-cases (a == page)) [
    | inr ne ↦ ne
    | inl e ↦ cc (subst (λ b. has b (v s' c') ≡ true) ((==_iff a page).0 e) m, out s' c')
  ]

  fresh-IsValid : IsValid fresh_pool (set_entry v s (suc c) (page ∷ v s (suc c))) fresh_free
  fresh-IsValid = record {
    holds = fresh-Holds;
    pool = λ s' c' a m. elim (entry-cases v s (suc c) (page ∷ v s (suc c)) s' c') [
      | inr (ne, e) ↦
          let m' : has a (v s' c') ≡ true = subst (λ l. has a l ≡ true) e m in
          fresh-other s' c' a (old-ne s' c' a m') m'
      | inl (es, ec, e) ↦ elim (Bool-cases (a == page)) [
        | inl eq ↦ rw (es, ec, (==_iff a page).0 eq) fresh-self
        | inr ne ↦
            let m' : has a (page ∷ v s (suc c)) ≡ true = subst (λ l. has a l ≡ true) e m in
            rw (es, ec) (fresh-other s (suc c) a ne (ground (arith, m', ne)))
      ]
    ];
  }

  -- getNewPool with a page from the kernel address allocator puts a pool with all objects free in
  -- front of its list.
  pub get_new_pool-IsValid :
      0 < page
      → h.pools_max_count s ≡ max_count (16 * s)
      → ((get_new_pool page (16 * s) h).1 ≡ true)
        × IsValid
            (get_new_pool page (16 * s) h).0
            (set_entry v s (suc c) (page ∷ v s (suc c)))
            (update free page (headers_from (suc c) page (16 * s) 0))
        × ((get_new_pool page (16 * s) h).0.pools_last_checked_indices s ≡ suc c)
  unfolding get_new_pool fresh_pool fresh_free
  get_new_pool-IsValid pos m =
      let e : 16 * s / 16 ≡ s = omega arith in
      let ne : (page == 0) ≡ false = ground (arith, pos) in
      rw (get_new_pool, e, ne, m, count)
        (
          refl,
          IsValid-last fresh_pool (set_entry v s (suc c) (page ∷ v s (suc c))) fresh_free s (suc c)
              fresh-IsValid,
          ground arith,
        )
