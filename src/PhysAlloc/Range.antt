-- ===== src/PhysAlloc/Range.antt =====
-- The range operations write exactly the pages of the range that the bitmap has.
use yay_os.Base.{
  ℕ, zero, suc, ◌+◌, ◌-◌, ◌*◌, ◌/◌, ◌%◌, ◌≤◌, ◌<◌, ◌≡◌, refl, inl, inr, Bool, true, false, List,
  arith, ◌==◌, dec_lt, modify_out_of_range, if◌then◌else◌, length, set, get_or, modify, get_or-set,
  length-set, length-modify, u64_mod, leb, ltb, ◌&&◌, Bool-cases,
}
use yay_os.Bits.{test_bit, set_bit, clear_bit}
use yay_os.Bits.Laws.{test_bit-none, test_bit-all}
use yay_os.PhysAlloc.{
  PhysAllocator, each_bit, fill_words, update_range, index_range, bitmap_clear_index_range,
  bitmap_set_index_range,
}
use yay_os.Bits.Bitmap.{used_in, WritesBit, set_bit-WritesBit, clear_bit-WritesBit, used_in-modify}
use yay_os.PhysAlloc.Pages.{is_used, test_bit-each_bit}

-- The pages from `start` up to `end`.
abbrev pub within : ℕ → ℕ → ℕ → Bool
within start end page = leb start page && ltb page end

pub length-fill_words :
    (value n start : ℕ) (ws : List ℕ) → length (fill_words value n start ws) ≡ length ws
unfolding fill_words
length-fill_words value zero start ws = refl
length-fill_words value (suc n) start ws =
    omega
      (arith, length-fill_words value n (suc start) (set ws start value), length-set ws start value)

pub get_or-fill_words :
    (value n start : ℕ) (ws : List ℕ) (j : ℕ)
    → start + n ≤ length ws
    → get_or (fill_words value n start ws) j 0
      ≡ (if within start (start + n) j then value else get_or ws j 0)
unfolding fill_words
get_or-fill_words value zero start ws j h = ground arith
get_or-fill_words value (suc n) start ws j h = ground (
  arith,
  get_or-fill_words value n (suc start) (set ws start value) j
      (omega (arith, length-set ws start value)),
  get_or-set ws start j value 0,
)

module _ (op : ℕ → ℕ → ℕ) (value : Bool) (writes : WritesBit op value) (fill : ℕ)
    (fills : (i : ℕ) → i < 64 → test_bit fill i ≡ value) where
  used_in-each_bit :
      (ws : List ℕ) (i n start page : ℕ)
      → i < length ws
      → start + n ≤ 64
      → used_in (modify ws i (each_bit op n start)) page
        ≡ (if within (64 * i + start) (64 * i + start + n) page then value else used_in ws page)
  used_in-each_bit ws i n start page h k = ground (
    arith,
    used_in-modify ws i (each_bit op n start) page h,
    test_bit-each_bit op value writes n start (get_or ws (page / 64) 0) (page % 64) k (omega arith),
  )

  -- The same where the last word may be one past the array, of which no bit is then written.
  used_in-part :
      (ws : List ℕ) (i n start page : ℕ)
      → 64 * i + start + n ≤ 64 * length ws
      → start + n ≤ 64
      → used_in (modify ws i (each_bit op n start)) page
        ≡ (if within (64 * i + start) (64 * i + start + n) page then value else used_in ws page)
  used_in-part ws i n start page h k = elim (dec_lt i (length ws)) [
    | yes inside ↦ used_in-each_bit ws i n start page inside k
    | no outside ↦ ground (arith, modify_out_of_range ws i (each_bit op n start) (omega arith))
  ]

  used_in-fill_words :
      (ws : List ℕ) (n start page : ℕ)
      → start + n ≤ length ws
      → used_in (fill_words fill n start ws) page
        ≡ (if within (64 * start) (64 * (start + n)) page then value else used_in ws page)
  used_in-fill_words ws n start page h =
      ground
        (arith, get_or-fill_words fill n start ws (page / 64) h, fills (page % 64) (omega arith))

  used_in-update_range :
      (ws : List ℕ) (start end page : ℕ)
      → start ≤ end
      → end ≤ 64 * length ws
      → used_in (update_range op fill start end ws) page
        ≡ (if within start end page then value else used_in ws page)
  unfolding update_range
  used_in-update_range ws start end page h k = elim (Bool-cases (start / 64 == end / 64)) [
    | inl same ↦ rw same (
        ground (
          arith,
          used_in-part ws (start / 64) (end % 64 - start % 64) (start % 64) page (ground arith)
              (omega arith),
        ))
    | inr apart ↦
        let first = start / 64 in
        let last = end / 64 in
        let far : first < last = ground arith in
        let ws1 = modify ws first (each_bit op (64 - start % 64) (start % 64)) in
        let ws2 = modify ws1 last (each_bit op (end % 64) 0) in
        let l1 = length-modify ws first (each_bit op (64 - start % 64) (start % 64)) in
        let l2 = length-modify ws1 last (each_bit op (end % 64) 0) in
        let e1 =
          used_in-part ws first (64 - start % 64) (start % 64) page (omega arith) (omega arith) in
        let e2 = used_in-part ws1 last (end % 64) 0 page (omega (arith, l1)) (omega arith) in
        let e3 =
          used_in-fill_words ws2 (last - (first + 1)) (first + 1) page (omega (arith, l1, l2)) in
        rw apart (ground (arith, e1, e2, e3))
  ]

-- A bitmap with a word for every 64 pages, or part of 64.
pub record HasBitmap (a : PhysAllocator) : Type 0 where
  pub covers : a.pages_count ≤ 64 * length a.bitmap

-- The pages that a range operation reaches: those of the range that lie below `m_pagesCount`.
abbrev pub in_range : PhysAllocator → ℕ → ℕ → ℕ → Bool
in_range a start end page = within start end page && ltb page a.pages_count

index_range-pages :
    (op : ℕ → ℕ → ℕ) (value : Bool) (writes : WritesBit op value) (fill : ℕ)
    → ((i : ℕ) → i < 64 → test_bit fill i ≡ value)
    → (a : PhysAllocator) (start end page : ℕ) → HasBitmap a
    → start ≤ end
    → is_used (index_range op fill start end a) page
      ≡ (if in_range a start end page then value else is_used a page)
unfolding index_range
index_range-pages op value writes fill fills a start end page b h =
    let last = if ltb a.pages_count end then a.pages_count else end in
    elim (Bool-cases (leb a.pages_count start)) [
      | inl past ↦ rw past (ground arith)
      | inr inside ↦
          let e : used_in (update_range op fill start last a.bitmap) page
              ≡ (if within start last page then value else is_used a page) =
            used_in-update_range op value writes fill fills a.bitmap start last page (ground arith)
              (ground (arith, b.covers)) in
          rw inside (ground (arith, e))
    ]

-- On a bitmap with a bit for every page `bitmapSetIndexRange` marks the pages from `start` up to `end` that lie below the page count as
-- used, and leaves every other page as it was.
pub set_range-pages :
    (a : PhysAllocator) (start end page : ℕ)
    → HasBitmap a
    → start ≤ end
    → is_used (bitmap_set_index_range start end a) page
      ≡ (if in_range a start end page then true else is_used a page)
unfolding bitmap_set_index_range
set_range-pages a start end page b h =
    index_range-pages set_bit true set_bit-WritesBit (u64_mod - 1) test_bit-all a start end page b h

-- `bitmapClearIndexRange` marks the pages from `start` up to `end` that lie below the page count
-- as free, and leaves every other page as it was.
pub clear_range-pages :
    (a : PhysAllocator) (start end page : ℕ)
    → HasBitmap a
    → start ≤ end
    → is_used (bitmap_clear_index_range start end a) page
      ≡ (if in_range a start end page then false else is_used a page)
unfolding bitmap_clear_index_range
clear_range-pages a start end page b h =
    index_range-pages clear_bit false clear_bit-WritesBit 0 (λ i l. test_bit-none i) a start end
      page b h

length-update_range :
    (op : ℕ → ℕ → ℕ) (value start end : ℕ) (ws : List ℕ)
    → length (update_range op value start end ws) ≡ length ws
unfolding update_range
length-update_range op value start end ws =
    let first = start / 64 in
    let last = end / 64 in
    let f = each_bit op (64 - start % 64) (start % 64) in
    let g = each_bit op (end % 64) 0 in
    ground (
      arith,
      length-modify ws first (each_bit op (end % 64 - start % 64) (start % 64)),
      length-modify ws first f,
      length-modify (modify ws first f) last g,
      length-fill_words value (last - (first + 1)) (first + 1) (modify (modify ws first f) last g),
    )

-- The operations keep the size of the bitmap and the number of pages.
pub index_range-sizes :
    (op : ℕ → ℕ → ℕ) (value start end : ℕ) (a : PhysAllocator)
    → (length (index_range op value start end a).bitmap ≡ length a.bitmap)
      × ((index_range op value start end a).pages_count ≡ a.pages_count)
unfolding index_range
index_range-sizes op value start end a = ground (
  arith,
  length-update_range op value start (if ltb a.pages_count end then a.pages_count else end)
      a.bitmap,
)
