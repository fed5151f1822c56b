-- ===== src/PhysAlloc/FreePage.antt =====
-- `freePage` and the reference counts.
use yay_os.Base.{
  ℕ, ◌+◌, ◌*◌, ◌/◌, ◌%◌, ◌≤◌, ◌<◌, ◌≡◌, refl, ◌≢◌, ap, inl, inr, true, false, arith, ◌==◌,
  if◌then◌else◌, length, get_or-modify, length-modify, u64_mod, Bool-cases, sub64,
}
use yay_os.Bits.{clear_bit}
use yay_os.PhysAlloc.{
  PhysAllocator, no_info, info, drop_reference, free_page, copy_on_write, new_page,
}
use yay_os.Bits.Bitmap.{used_in-write, clear_bit-WritesBit, clear_bit-words}
use yay_os.PhysAlloc.Pages.{is_used}
use yay_os.PhysAlloc.NewPage.{IsValid, new_page-free}

-- The page has its counters and its bit within the arrays.
pub record IsPage (a : PhysAllocator) (page : ℕ) : Type 0 where
  pub counted : page < length a.page_info
  pub mapped : page < 64 * length a.bitmap

module _ (a : PhysAllocator) (addr : ℕ) (h : IsPage a (addr / 4096)) where
  info-drop :
      info (drop_reference (addr / 4096) a) (addr / 4096)
      ≡ record (info a (addr / 4096)) { ref_count = sub64 (info a (addr / 4096)).ref_count 1 }
  unfolding drop_reference
  info-drop = ground (
    arith,
    get_or-modify a.page_info (addr / 4096) (addr / 4096)
        (λ p. record p { ref_count = sub64 p.ref_count 1 }) no_info h.counted,
  )

  -- `freePage` of a page within the arrays that has one reference makes that page free and no
  -- other, sets its count to 0, and the search starts over.
  pub free_page-last :
      (info a (addr / 4096)).ref_count ≡ 1
      → ((p : ℕ) → is_used (free_page addr a) p ≡ (if addr / 4096 == p then false else is_used a p))
        × ((info (free_page addr a) (addr / 4096)).ref_count ≡ 0)
        × ((free_page addr a).least_unchecked_index ≡ 0)
  unfolding free_page
  free_page-last one =
      let gone : ((info (drop_reference (addr / 4096) a) (addr / 4096)).ref_count == 0) ≡ true =
        ground (arith, info-drop) in
      let place : 64 * (addr / (4096 * 64)) + addr / 4096 % 64 ≡ addr / 4096 = omega arith in
      (
        λ p. rw gone (
            ground (
              arith,
              used_in-write clear_bit false clear_bit-WritesBit a.bitmap (addr / (4096 * 64))
                  (addr / 4096 % 64) p (omega (arith, h.mapped)) (omega arith),
            )),
        rw gone (ground (arith, info-drop)),
        rw gone,
      )

  -- Any other count goes down by one and the bitmap stays.
  pub free_page-shared :
      (info a (addr / 4096)).ref_count ≢ 1
      → (info a (addr / 4096)).ref_count < u64_mod
      → ((free_page addr a).bitmap ≡ a.bitmap)
        × ((info (free_page addr a) (addr / 4096)).ref_count
            ≡ sub64 (info a (addr / 4096)).ref_count 1)
  unfolding free_page
  free_page-shared many small =
      let kept : ((info (drop_reference (addr / 4096) a) (addr / 4096)).ref_count == 0) ≡ false =
        ground (arith, info-drop) in
      (rw kept (bitmap-drop (addr / 4096) a), rw kept (ground (arith, info-drop)))
    where
      bitmap-drop : (page : ℕ) (b : PhysAllocator) → (drop_reference page b).bitmap ≡ b.bitmap
      bitmap-drop page b = refl

-- `freePage` keeps the invariant that `newPage` relies on.
pub free_page-IsValid : (a : PhysAllocator) (addr : ℕ) → IsValid a → IsValid (free_page addr a)
unfolding free_page
free_page-IsValid a addr v =
    elim (Bool-cases ((info (drop_reference (addr / 4096) a) (addr / 4096)).ref_count == 0)) [
      | inl gone ↦ rw gone (record {
        size = omega (
          arith,
          length-modify a.bitmap (addr / (4096 * 64)) (λ w. clear_bit w (addr / 4096 % 64)),
          v.size,
        );
        words = λ j. clear_bit-words a.bitmap (addr / (4096 * 64)) (addr / 4096 % 64) j v.words;
        full = λ j h. absurd (omega arith);
      })
      | inr kept ↦ rw kept (record { size = v.size; words = v.words; full = v.full })
    ]

-- While a page of the bitmap is free and there is a counter for every page of the bitmap, the page
-- that `newPage` hands out can be given back: `freePage` makes the bitmap read as it did before,
-- page by page.
pub free_page-new_page :
    (a : PhysAllocator) (p : ℕ)
    → IsValid a
    → 64 * a.bitmap_size ≤ length a.page_info
    → p < 64 * a.bitmap_size
    → is_used a p ≡ false
    → (q : ℕ) → is_used (free_page (new_page a).1 (new_page a).0) q ≡ is_used a q
free_page-new_page a p v counted h free q =
    let (page, e, low, claims, v') = new_page-free a p v h free in
    let b = (new_page a).0 in
    let at : (new_page a).1 / 4096 ≡ page = omega arith in
    let inside : IsPage b ((new_page a).1 / 4096) = record {
      counted = omega (arith, claims.infos_kept, low.in_bitmap);
      mapped = omega (arith, claims.words_kept, low.in_bitmap, v.size);
    } in
    let one : (info b ((new_page a).1 / 4096)).ref_count ≡ 1 =
      rw (at, claims.counts (omega (arith, low.in_bitmap))) in
    let (pages, _, _) = free_page-last b (new_page a).1 inside one in
    ground (arith, pages q, claims.pages q, low.was_free)

-- `copyOnWrite` keeps the page of a sole owner.
pub copy_on_write_sole :
    (a : PhysAllocator) (addr : ℕ)
    → (info a (addr / 4096)).ref_count ≡ 1
    → copy_on_write addr a ≡ (a, addr)
unfolding copy_on_write
copy_on_write_sole a addr one = ground arith

drop_reference-IsValid :
    (a : PhysAllocator) (page : ℕ) → IsValid a → IsValid (drop_reference page a)
unfolding drop_reference
drop_reference-IsValid a page v = record { size = v.size; words = v.words; full = v.full }

bitmap-drop_reference : (a : PhysAllocator) (page : ℕ) → (drop_reference page a).bitmap ≡ a.bitmap
unfolding drop_reference
bitmap-drop_reference a page = refl

bitmap_size-drop_reference :
    (a : PhysAllocator) (page : ℕ) → (drop_reference page a).bitmap_size ≡ a.bitmap_size
unfolding drop_reference
bitmap_size-drop_reference a page = refl

-- Of a used page within the arrays, with a reference count other than 1, `copyOnWrite` gives up one
-- reference, and while a page is free it hands out a page that was free and is now used.
pub copy_on_write_shared :
    (a : PhysAllocator) (addr p : ℕ)
    → IsValid a
    → IsPage a (addr / 4096)
    → is_used a (addr / 4096) ≡ true
    → (info a (addr / 4096)).ref_count ≢ 1
    → p < 64 * a.bitmap_size
    → is_used a p ≡ false
    → (page : ℕ) × ((copy_on_write addr a).1 ≡ page * 4096)
      × (is_used a page ≡ false)
      × (is_used (copy_on_write addr a).0 page ≡ true)
      × ((info (copy_on_write addr a).0 (addr / 4096)).ref_count
          ≡ sub64 (info a (addr / 4096)).ref_count 1)
unfolding copy_on_write
copy_on_write_shared a addr p v inside used shared h free =
    let d = drop_reference (addr / 4096) a in
    let same = bitmap-drop_reference a (addr / 4096) in
    let size = bitmap_size-drop_reference a (addr / 4096) in
    let (page, e, low, claims, v') =
      new_page-free d p (drop_reference-IsValid a (addr / 4096) v) (omega arith) (rw same free) in
    let branch : ((info a (addr / 4096)).ref_count == 1) ≡ false = ground arith in
    let was : is_used a page ≡ false = rw same at low.was_free in
    let ne : addr / 4096 ≢ page = λ same_page. cc (ap (is_used a) same_page) in
    (
      page,
      rw branch e,
      was,
      rw branch (ground (arith, claims.pages page)),
      rw branch (ground (arith, claims.others (addr / 4096) ne, info-drop a addr inside)),
    )
