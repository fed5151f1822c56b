-- ===== src/SystemCalls/Memory.antt =====
-- The system calls on memory: `YY_VirtualAlloc`, `YY_VirtualFree`, `YY_ConsoleWrite` and
-- `YY_GetSystemTime` of YYSloth/src/proc/userapi.cpp. A call that ends the process gives `none`.
use Prim.Native.Nat.{bit_and, bit_or}
use yay_os.Base.{
  ℕ, ◌+◌, ◌-◌, ◌*◌, ◌/◌, ◌%◌, ◌^◌, ◌≤◌, ◌<◌, ◌≡◌, refl, ◌∙◌, ◌⊎◌, inl, inr, Bool, true, false,
  Option, none, some, List, [], ◌==◌, ltb, if◌then◌else◌, not, ◌||◌, ◌∷◌, add64, u64_mod, arith,
}
use yay_os.Base.Int.{ℤ, pos, minus_one, to_int64}
use yay_os.Paging.{Tables, page_size}
use yay_os.Security.{virtual_range_condition_check}
use yay_os.Mapper.{PageMapper, rounds, map_pages, free_pages, free_loop}
use yay_os.Mapper.Ranges.{Attempted, map_pages_lem}
use yay_os.UserMemory.{Area, alloc, free}
use yay_os.UserMemory.Areas.{is_free, Sorted, Sorted-bounds}
use yay_os.UserMemory.Taking.{IsTaken, Allocated, alloc-Allocated}

-- The address space of the running process.
pub record Space (M : Type 0) : Type 0 where
  pub areas : List Area
  pub memory : M

-- The flags of the pages: present and open to users, writable, not executable.
unfoldable pub page_mask : ℕ → ℕ
page_mask flags =
    let mask = bit_or (2 ^ 0) (2 ^ 2) in
    let mask = if not (bit_and flags (2 ^ 0) == 0) then bit_or mask (2 ^ 1) else mask in
    if bit_and flags (2 ^ 1) == 0 then bit_or mask (2 ^ 63) else mask

abbrev refused : {M : Type 0} → Space M → Option (Space M × ℤ)
refused s = some (s, minus_one)

-- The end of `YY_VirtualFree`.
abbrev given_back : {M : Type 0} → Option (List Area) → M → Option (Space M × ℤ)
given_back none memory = none
given_back (some areas) memory = some (record { areas = areas; memory = memory }, pos 1)

-- `room` tells whether there is memory for a node of the list of areas.
module _ {M : Type 0} (mapper : PageMapper M) (room : Bool) where
  -- The end of `YY_VirtualAlloc`, with what `mapPages` did.
  unfoldable pub mapped : ℕ → ℕ → List Area → M × Bool → Space M × ℤ
  mapped result size areas (m, true) = (record { areas = areas; memory = m }, to_int64 result)
  mapped result size areas (m, false) = (
    record {
      areas = elim (free room result size areas) [ none ↦ areas | some areas' ↦ areas' ];
      memory = m;
    },
    pos 0,
  )

  unfoldable pub virtual_alloc : ℕ → ℕ → Space M → Space M × ℤ
  virtual_alloc size flags s =
      let (result, areas) = alloc (size * 4096 % u64_mod) s.areas in
      if not (size % 4096 == 0)
      then (s, minus_one)
      else if result == 0
      then (record s { areas = areas }, minus_one)
      else mapped result size areas
          (map_pages mapper result (add64 result size) 0 (page_mask flags) s.memory)

  unfoldable pub virtual_free : Tables → ℕ → ℕ → Space M → Option (Space M × ℤ)
  virtual_free tables start size s =
      if (size == 0) || not (size % 4096 == 0)
      then refused s
      else if not (virtual_range_condition_check tables start size false false false)
      then refused s
      else let memory = free_pages mapper start size s.memory in
        given_back (free room start size s.areas) memory

-- The characters that the call gives to the console.
unfoldable pub console_write : Tables → ℕ → List ℕ → ℕ → List ℕ × ℤ
console_write tables location text size =
    if ltb 65536 size
    then ([], minus_one)
    else if not (virtual_range_condition_check tables location size true false false)
    then ([], minus_one)
    else (text, pos 0)

-- `sizeof(buf)` is that of the pointer. The result tells whether the time is read.
unfoldable pub get_system_time : Tables → ℕ → Bool × ℤ
get_system_time tables buf =
    if not (virtual_range_condition_check tables buf 8 true true false)
    then (false, minus_one)
    else (true, pos 0)

is_free-upper :
    (lo hi : ℕ) (areas : List Area) (p : ℕ) → Sorted lo hi areas → is_free areas p ≡ true → p < hi
is_free-upper lo hi [] p s h = cc
is_free-upper lo hi (a ∷ areas) p (s, t) h = ground (
  arith,
  s,
  h,
  Sorted-bounds (a.start + a.size) hi areas t,
  is_free-upper (a.start + a.size) hi areas p t,
)

module _ {M : Type 0} (mapper : PageMapper M) (room : Bool) (size flags : ℕ) where
  -- What `YY_VirtualAlloc` promises: -1 and no change, or `size * 4096` addresses taken from some
  -- address `r` on and the pages of `size` bytes tried there in turn. With all of them mapped the
  -- result is `r`; else it is 0, and `size` addresses are given back to the areas.
  abbrev pub Outcomes : Space M → Space M × ℤ → Type 0
  Outcomes before (after, result) =
      ((result ≡ minus_one) × (after.areas ≡ before.areas) × (after.memory ≡ before.memory))
      ⊎ ((r : ℕ) × (k : ℕ) × (areas : List Area) × (memory : M) × (done : Bool) × (0 < r)
          × IsTaken r (size * page_size) before.areas areas
          × Attempted mapper r 0 (page_mask flags) before.memory (size / page_size) k (memory, done)
          × (after.memory ≡ memory)
          × (result ≡ pos (if done then r else 0))
          × (after.areas ≡ (
              if done
              then areas
              else elim (free room r size areas) [ none ↦ areas | some areas' ↦ areas' ])))

  module _ (lo hi : ℕ) (s : Space M) (sorted : Sorted lo hi s.areas) (low : 0 < lo)
      (high : hi + page_size ≤ 2 ^ 63) (h : 0 < size) (pages : size % page_size ≡ 0) where
    -- The range of an allocation stays below the areas' end.
    range-upper :
        (r : ℕ) (areas : List Area)
        → IsTaken r (size * page_size) s.areas areas
        → r + size * page_size ≤ hi
    range-upper r areas t =
        let p = r + size * page_size - 1 in
        omega (arith, is_free-upper lo hi s.areas p sorted (t.was_free p (ground (arith, h))))

    mapped-Outcomes :
        (r k : ℕ) (areas : List Area) (m : M × Bool)
        → 0 < r
        → r < 2 ^ 63
        → IsTaken r (size * page_size) s.areas areas
        → Attempted mapper r 0 (page_mask flags) s.memory (size / page_size) k m
        → Outcomes s (mapped mapper room r size areas m)
    unfolding mapped
    mapped-Outcomes r k areas (m, true) above below t e =
        inr (r, k, areas, m, true, above, t, e, refl, ground (arith, below), refl)
    mapped-Outcomes r k areas (m, false) above below t e =
        inr (r, k, areas, m, false, above, t, e, refl, refl, refl)

    allocated :
        (p : ℕ × List Area)
        → Allocated lo hi (size * page_size) s.areas p
        → Outcomes s (
            if p.0 == 0
            then (record s { areas = p.1 }, minus_one)
            else mapped mapper room p.0 size p.1
                (map_pages mapper p.0 (add64 p.0 size) 0 (page_mask flags) s.memory))
    allocated (r, areas) (inl (e, same, none_fits)) =
        let test : (r == 0) ≡ true = ground (arith, e) in rw test (inl (refl, same, refl))
    allocated (r, areas) (inr (above, t, sorted')) =
        let upper = range-upper r areas t in
        let test : (r == 0) ≡ false = ground (arith, above, low) in
        let end : add64 r size ≡ r + size = omega (arith, upper, high, h) in
        let count : rounds r (r + size) ≡ size / page_size = omega (arith, pages) in
        let (k, all) =
          map_pages_lem mapper r (r + size) 0 (page_mask flags) s.memory
            (omega (arith, upper, high, h)) (size / page_size) count in
        rw (test, end)
          (mapped-Outcomes r k areas _ (omega (arith, above, low)) (omega (arith, upper, high, h)) t
            all)

  -- With the free areas in order between a positive address and one a page below 2^63, and a size
  -- that is a positive multiple of 4096 and fits 52 bits: `YY_VirtualAlloc` returns -1 and changes
  -- nothing, or takes `size * 4096` addresses and tries to map the pages of `size` bytes there, each
  -- to a new page. With all of them mapped it returns the address; when one cannot be mapped, those
  -- in front of it are freed, it returns 0, and gives back only `size` addresses.
  pub virtual_alloc_lem :
      (lo hi : ℕ) (s : Space M)
      → Sorted lo hi s.areas
      → 0 < lo
      → hi + page_size ≤ 2 ^ 63
      → 0 < size
      → size % page_size ≡ 0
      → size * page_size < u64_mod
      → Outcomes s (virtual_alloc mapper room size flags s)
  unfolding virtual_alloc
  virtual_alloc_lem lo hi s sorted low high h k word =
      let same : size * 4096 % u64_mod ≡ size * page_size = omega (arith, word) in
      let aligned : (size % 4096 == 0) ≡ true = ground (arith, k) in
      rw (same, aligned)
        (allocated lo hi s sorted low high h k (alloc (size * page_size) s.areas)
          (alloc-Allocated lo hi (size * page_size) s.areas sorted (omega (arith, high))))

free_pages-backwards :
    {M : Type 0} (mapper : PageMapper M) (start end : ℕ) (m : M)
    → end ≤ start
    → free_pages mapper start end m ≡ m
unfolding free_pages free_loop
free_pages-backwards mapper start end m h =
    let none_left : end - start + page_size - 1 ≡ page_size - 1 = omega (arith, h) in
    rw none_left refl

-- What a call that returns 1 has done.
returned :
    {M : Type 0} (s s' : Space M) (areas : Option (List Area)) (memory : M) (bad checked : Bool)
    → (if bad then refused s else if checked then refused s else given_back areas memory)
      ≡ some (s', pos 1)
    → (areas ≡ some s'.areas) × (s'.memory ≡ memory)
returned s s' (some areas) memory false false e = (cc, cc)
returned s s' none memory false false e = cc
returned s s' areas memory true checked e = cc
returned s s' areas memory false true e = cc

-- Whenever `YY_VirtualFree` returns 1 for a size that is not above the address, it has given the
-- addresses back to the allocator and unmapped no page: the size is passed on as the end.
pub virtual_free-keeps_pages :
    {M : Type 0} (mapper : PageMapper M) (room : Bool) (tables : Tables) (start size : ℕ)
    (s s' : Space M)
    → size ≤ start
    → virtual_free mapper room tables start size s ≡ some (s', pos 1)
    → (free room start size s.areas ≡ some s'.areas) × (s'.memory ≡ s.memory)
unfolding virtual_free
virtual_free-keeps_pages mapper room tables start size s s' h done =
    let (freed, kept) =
      returned s s' (free room start size s.areas) (free_pages mapper start size s.memory) _ _
        done in
    (freed, kept ∙ free_pages-backwards mapper start size s.memory h)
