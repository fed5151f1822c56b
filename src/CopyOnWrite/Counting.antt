-- ===== src/CopyOnWrite/Counting.antt =====
-- How often the tables below a process refer to a page, and what the allocator's operations do to
-- the number of references of a page: for YYSloth/src/memory/cow.cpp.
use yay_os.Base.{
  ◌∷◌, [], ℕ, zero, suc, ◌+◌, ◌/◌, ◌<◌, ◌≡◌, refl, ap, ◌∙◌, Bool, true, false, List, length, arith,
  ◌==◌, if◌then◌else◌, get_or, modify, length-modify, add64, sub64,
}
use yay_os.PhysAlloc.{
  PhysAllocator, PhysicalPageInfo, info, no_info, increment_ref_count, free_page, drop_reference,
}
use yay_os.Paging.{Tables, present, get_addr, walk_to}

-- The references of an entry to a page, with those of the tables below it.
abbrev pub uses_entry : (ℕ → ℕ) → ℕ → Tables → ℕ → ℕ → ℕ
uses_entry below page t table i =
    if present (t table i)
    then below (walk_to table i) + (if get_addr (t table i) / 4096 == page then 1 else 0)
    else 0

abbrev pub uses_entries : (ℕ → ℕ) → ℕ → Tables → ℕ → ℕ → ℕ → ℕ
uses_entries below page t zero i table = 0
uses_entries below page t (suc n) i table =
    uses_entry below page t table i + uses_entries below page t n (suc i) table

-- The references of a table with `level` levels below.
unfoldable pub uses : ℕ → ℕ → Tables → ℕ → ℕ
uses zero page t table = 0
uses (suc level) page t table = uses_entries (uses level page t) page t 512 0 table

-- Tables that agree on what is present and where.
abbrev pub SameShape : Tables → Tables → Type 0
SameShape t t' =
    (a j : ℕ) → (present (t' a j) ≡ present (t a j)) × (get_addr (t' a j) ≡ get_addr (t a j))

uses_entry-same :
    (below below' : ℕ → ℕ) (page : ℕ) (t t' : Tables) (table i : ℕ)
    → below' (walk_to table i) ≡ below (walk_to table i)
    → present (t' table i) ≡ present (t table i)
    → get_addr (t' table i) ≡ get_addr (t table i)
    → uses_entry below' page t' table i ≡ uses_entry below page t table i
uses_entry-same below below' page t t' table i b p g = rw (b, p, g) refl

pub uses_entries-same :
    (below below' : ℕ → ℕ) (page : ℕ) (t t' : Tables) (n i table : ℕ)
    → ((j : ℕ) → below' (walk_to table j) ≡ below (walk_to table j))
    → SameShape t t'
    → uses_entries below' page t' n i table ≡ uses_entries below page t n i table
uses_entries-same below below' page t t' zero i table b s = refl
uses_entries-same below below' page t t' (suc n) i table b s = omega (
  arith,
  uses_entry-same below below' page t t' table i (b i) (s table i).0 (s table i).1,
  uses_entries-same below below' page t t' n (suc i) table b s,
)

pub uses-same :
    (level page : ℕ) (t t' : Tables) (table : ℕ)
    → SameShape t t'
    → uses level page t' table ≡ uses level page t table
unfolding uses
uses-same zero page t t' table s = refl
uses-same (suc level) page t t' table s =
    uses_entries-same (uses level page t) (uses level page t') page t t' 512 0 table
      (λ j. uses-same level page t t' (walk_to table j) s) s

abbrev pub references : PhysAllocator → ℕ → ℕ
references a page = (info a page).ref_count

-- The entry at an index in range after any entry was rewritten.
get_or-modify_at {ℓ} :
    {A : Type ℓ} (xs : List A) (i j : ℕ) (f : A → A) (d : A)
    → j < length xs
    → get_or (modify xs i f) j d ≡ (if i == j then f (get_or xs j d) else get_or xs j d)
get_or-modify_at [] i j f d h = absurd (omega arith)
get_or-modify_at (x ∷ xs) zero zero f d h = refl
get_or-modify_at (x ∷ xs) zero (suc j) f d h = ground arith
get_or-modify_at (x ∷ xs) (suc i) zero f d h = ground arith
get_or-modify_at (x ∷ xs) (suc i) (suc j) f d h = ground (arith, get_or-modify_at xs i j f d)

-- The counters after `freePage`, whether or not the page became free.
free_page-page_info :
    (a : PhysAllocator) (addr : ℕ)
    → (free_page addr a).page_info ≡ (drop_reference (addr / 4096) a).page_info
unfolding free_page
free_page-page_info a addr =
    either ((info (drop_reference (addr / 4096) a) (addr / 4096)).ref_count == 0) _ _ refl refl
  where
    either :
        {c : List PhysicalPageInfo} (b : Bool) (x y : PhysAllocator)
        → x.page_info ≡ c
        → y.page_info ≡ c
        → (if b then x else y).page_info ≡ c
    either true x y p q = p
    either false x y p q = q

-- One reference more, and one less.
pub references-increment :
    (a : PhysAllocator) (addr page : ℕ)
    → page < length a.page_info
    → references (increment_ref_count addr a) page
      ≡ (if addr / 4096 == page then add64 (references a page) 1 else references a page)
unfolding increment_ref_count
references-increment a addr page h = ground (
  arith,
  get_or-modify_at a.page_info (addr / 4096) page
      (λ (p : PhysicalPageInfo). record p { ref_count = add64 p.ref_count 1 }) no_info h,
)

pub references-free :
    (a : PhysAllocator) (addr page : ℕ)
    → page < length a.page_info
    → references (free_page addr a) page
      ≡ (if addr / 4096 == page then sub64 (references a page) 1 else references a page)
unfolding drop_reference
references-free a addr page h = ground (
  arith,
  free_page-page_info a addr,
  get_or-modify_at a.page_info (addr / 4096) page
      (λ (p : PhysicalPageInfo). record p { ref_count = sub64 p.ref_count 1 }) no_info h,
)

pub page_info-increment :
    (a : PhysAllocator) (addr : ℕ)
    → length (increment_ref_count addr a).page_info ≡ length a.page_info
unfolding increment_ref_count
page_info-increment a addr = length-modify a.page_info (addr / 4096) _

pub page_info-free :
    (a : PhysAllocator) (addr : ℕ) → length (free_page addr a).page_info ≡ length a.page_info
unfolding drop_reference
page_info-free a addr =
    ap length (free_page-page_info a addr) ∙ length-modify a.page_info (addr / 4096) _
