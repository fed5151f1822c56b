-- ===== src/PhysAlloc/NewPage.antt =====
-- `newPage`: the invariant of the search index, and what the search finds.
use yay_os.Base.{
  ℕ, zero, suc, ◌+◌, ◌-◌, ◌*◌, ◌≤◌, ◌<◌, ◌≡◌, refl, ◌≢◌, inl, inr, true, false, arith, ◌==◌,
  if◌then◌else◌, length, set, get_or, get_or-set, get_or-modify, length-modify, length-set, u64_mod,
  Bool-cases, get_or-set_ne, sym, ◌⊎◌, dec_lt, ltb, ◌||◌, not,
}
use yay_os.Bits.{set_bit, bit_not, bit_scan_forward}
use yay_os.PhysAlloc.{
  PhysAllocator, PhysicalPageInfo, no_info, word, info, claim, new_page_loop, new_page,
}
use yay_os.Bits.Bitmap.{
  used_in-write, set_bit-WritesBit, set_bit-words, FullBelow, FullBelow-suc, full-used, scan-lowest,
}
use yay_os.PhysAlloc.Pages.{is_used}

-- The bitmap is made of words, and every word in front of the search index is full.
pub record IsValid (a : PhysAllocator) : Type 0 where
  pub size : length a.bitmap ≡ a.bitmap_size
  pub words : (i : ℕ) → word a i < u64_mod
  pub full : FullBelow a.bitmap a.least_unchecked_index

-- The lowest page is free, and all pages in front of it are used.
pub record IsLowestFree (a : PhysAllocator) (page : ℕ) : Type 0 where
  pub in_bitmap : page < 64 * a.bitmap_size
  pub was_free : is_used a page ≡ false
  pub before : (p : ℕ) → p < page → is_used a p ≡ true

-- `page` is taken out of the free pages of `a`, with one reference and one mapping.
pub record Claims (a : PhysAllocator) (page : ℕ) (b : PhysAllocator) : Type 0 where
  pub pages : (p : ℕ) → is_used b p ≡ (if page == p then true else is_used a p)
  pub counts : page < length a.page_info → info b page ≡ record { ref_count = 1; map_count = 1 }
  pub others : (p : ℕ) → p ≢ page → info b p ≡ info a p
  pub overruns : b.overrun ≡ (a.overrun || not (ltb page (length a.page_info)))
  pub words_kept : length b.bitmap ≡ length a.bitmap
  pub infos_kept : length b.page_info ≡ length a.page_info

info-set :
    (a : PhysAllocator) (page p : ℕ) (v : PhysicalPageInfo)
    → p ≢ page
    → get_or (set a.page_info page v) p no_info ≡ info a p
info-set a page p v ne = get_or-set_ne a.page_info page p v no_info (λ e. ne (sym e))

claim-Claims :
    (a : PhysAllocator) (i index : ℕ)
    → i < length a.bitmap
    → index < 64
    → Claims a (64 * i + index) (claim i index a)
unfolding claim
claim-Claims a i index h k = record {
  pages = λ p. used_in-write set_bit true set_bit-WritesBit a.bitmap i index p h k;
  counts = λ l. ground (
    arith,
    get_or-set a.page_info (64 * i + index) (64 * i + index)
        (record { ref_count = 1; map_count = 1 }) no_info l,
  );
  others = λ p ne. info-set a (64 * i + index) p _ ne;
  overruns = refl;
  words_kept = length-modify a.bitmap i (λ w. set_bit w index);
  infos_kept = length-set a.page_info (64 * i + index) _;
}

claim-IsValid :
    (a : PhysAllocator) (i index : ℕ)
    → IsValid a
    → FullBelow a.bitmap i
    → i < length a.bitmap
    → index < 64
    → IsValid (claim i index a)
unfolding claim
claim-IsValid a i index v full h k = record {
  size = omega (arith, length-modify a.bitmap i (λ w. set_bit w index), v.size);
  words = λ j. set_bit-words a.bitmap i index j v.words h k;
  full = λ j l. ground (arith, get_or-modify a.bitmap i j (λ w. set_bit w index) 0 h, full j l);
}

-- A search that starts behind full words and has every word left to look at.
abbrev pub Outcome : PhysAllocator → PhysAllocator × ℕ → Type 0
Outcome a (b, addr) =
    ((b ≡ a) × (addr ≡ 0) × ((p : ℕ) → p < 64 * a.bitmap_size → is_used a p ≡ true))
    ⊎ ((page : ℕ) × (addr ≡ page * 4096) × IsLowestFree a page × Claims a page b × IsValid b)

new_page_loop-Outcome :
    (a : PhysAllocator) (n i addr : ℕ)
    → IsValid a
    → FullBelow a.bitmap i
    → n ≡ a.bitmap_size - i
    → addr ≡ i * 64 * 4096
    → Outcome a (new_page_loop n i addr a)
unfolding new_page_loop
new_page_loop-Outcome a zero i addr v full e f =
    inl (refl, refl, λ p h. full-used a.bitmap i p full (omega arith))
new_page_loop-Outcome a (suc n) i addr v full e f = elim (Bool-cases (bit_not (word a i) == 0)) [
  | inl taken ↦ rw taken (
      new_page_loop-Outcome a n (i + 1) (addr + 64 * 4096) v
        (FullBelow-suc a.bitmap i full (v.words i) taken) (omega arith) (omega arith))
  | inr free ↦
      let bit = bit_scan_forward (bit_not (word a i)) in
      let (l, clear, below) = scan-lowest a.bitmap i full (v.words i) (ground arith) in
      let inside : i < length a.bitmap = omega (arith, v.size) in
      rw free (
        inr (
          64 * i + bit,
          omega arith,
          record { in_bitmap = omega arith; was_free = clear; before = below },
          claim-Claims a i bit inside l,
          claim-IsValid a i bit v full inside l,
        ))
]

pub new_page-Outcome : (a : PhysAllocator) → IsValid a → Outcome a (new_page a)
unfolding new_page
new_page-Outcome a v =
    new_page_loop-Outcome a (a.bitmap_size - a.least_unchecked_index) a.least_unchecked_index
      (a.least_unchecked_index * 64 * 4096) v v.full refl refl

-- While a page of the bitmap of a valid allocator is free, `newPage` takes the lowest one, with its
-- counters if it has some, and keeps the invariant.
pub new_page-free :
    (a : PhysAllocator) (p : ℕ)
    → IsValid a
    → p < 64 * a.bitmap_size
    → is_used a p ≡ false
    → (page : ℕ) × ((new_page a).1 ≡ page * 4096)
      × IsLowestFree a page
      × Claims a page (new_page a).0
      × IsValid (new_page a).0
new_page-free a p v h free = elim (new_page-Outcome a v) [
  | inl (_, _, taken) ↦ cc (taken p h)
  | inr found ↦ found
]

-- While a page of the bitmap of a valid allocator that has a counter is free, `newPage` returns the
-- address of the lowest free page, which then is used and has one reference and one mapping; every
-- other page and counter stays, no counter behind the array is written, and the invariant holds.
pub new_page-lowest :
    (a : PhysAllocator) (p : ℕ)
    → IsValid a
    → p < 64 * a.bitmap_size
    → p < length a.page_info
    → is_used a p ≡ false
    → (page : ℕ) × ((new_page a).1 ≡ page * 4096)
      × IsLowestFree a page
      × (page < length a.page_info)
      × (info (new_page a).0 page ≡ record { ref_count = 1; map_count = 1 })
      × ((new_page a).0.overrun ≡ a.overrun)
      × Claims a page (new_page a).0
      × IsValid (new_page a).0
new_page-lowest a p v h counted free =
    let (page, e, low, claims, valid) = new_page-free a p v h free in
    let has_counter : page < length a.page_info = elim (dec_lt p page) [
      | yes behind ↦ cc (low.before p behind, free)
      | no front ↦ omega (arith, front, counted)
    ] in
    (
      page,
      e,
      low,
      has_counter,
      claims.counts has_counter,
      ground (arith, claims.overruns, has_counter),
      claims,
      valid,
    )

-- Once every page of the bitmap is used, `newPage` returns 0 and changes nothing.
pub new_page-none :
    (a : PhysAllocator)
    → IsValid a
    → ((p : ℕ) → p < 64 * a.bitmap_size → is_used a p ≡ true)
    → new_page a ≡ (a, 0)
new_page-none a v taken = elim (new_page-Outcome a v) [
  | inl (same, zero_addr, _) ↦ ground arith
  | inr (page, _, low, _, _) ↦ cc (taken page low.in_bitmap, low.was_free)
]

-- In a valid allocator with a counter for each page of the machine and no more, whose pages are all
-- used while a page of the bitmap behind them is free, `newPage` hands out an address at or beyond
-- the end of memory and writes counters behind their array.
pub new_page_beyond_memory :
    (a : PhysAllocator) (p : ℕ)
    → IsValid a
    → ((q : ℕ) → q < a.pages_count → is_used a q ≡ true)
    → p < 64 * a.bitmap_size
    → is_used a p ≡ false
    → length a.page_info ≡ a.pages_count
    → (a.pages_count * 4096 ≤ (new_page a).1) × ((new_page a).0.overrun ≡ true)
new_page_beyond_memory a p v taken h free exact =
    let (page, e, low, claims, _) = new_page-free a p v h free in
    elim (dec_lt page a.pages_count) [
      | yes inside ↦ cc (taken page inside, low.was_free)
      | no outside ↦ (omega arith, ground (arith, claims.overruns, exact, outside))
    ]
