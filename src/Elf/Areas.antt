-- ===== src/Elf/Areas.antt =====
-- The areas of a program that is accepted.
use yay_os.Base.{
  ℕ, ◌+◌, ◌%◌, ◌≤◌, ◌≡◌, refl, Bool, true, false, Option, none, some, List, [], ◌∷◌, ◌==◌, ltb,
  u64_mod, not, ◌||◌, arith, Bool-cases, inl, inr,
}
use yay_os.Base.Int.{pos, ltb_ℤ}
use yay_os.Utils.{align_up, align_down}
use yay_os.Elf.{ElfProgramHeaderEntry, ElfMemoryArea, area_of, add_area, parse_entries}

-- The areas lie behind an address, at page boundaries, each behind the one before it.
abbrev pub LaidOut : ℕ → List (Option ElfMemoryArea) → Type 0
LaidOut low [] = Unit
LaidOut low (none ∷ areas) = LaidOut low areas
LaidOut low (some a ∷ areas) =
    (low ≤ a.memory_base)
    × (a.memory_base % 4096 ≡ 0)
    × (a.memory_limit % 4096 ≡ 0)
    × LaidOut a.memory_limit areas

-- The end of each entry stays a page below 2^64.
abbrev pub Fit : List ElfProgramHeaderEntry → Type 0
Fit [] = Unit
Fit (e ∷ entries) = (e.vaddr + e.memory_size + 4096 ≤ u64_mod) × Fit entries

-- Each area holds the addresses of its entry.
abbrev pub Covers : List ElfProgramHeaderEntry → List (Option ElfMemoryArea) → Type 0
Covers [] [] = Unit
Covers [] (a ∷ areas) = ⊥
Covers (e ∷ entries) [] = ⊥
Covers (e ∷ entries) (none ∷ areas) = (e.type_ ≡ 0) × Covers entries areas
Covers (e ∷ entries) (some a ∷ areas) =
    (e.type_ ≡ 1)
    × (a.memory_base ≤ e.vaddr)
    × (e.vaddr + e.memory_size ≤ a.memory_limit)
    × Covers entries areas

-- What an accepted list of entries gives.
abbrev pub Accepted : ℕ → List ElfProgramHeaderEntry → Option (List (Option ElfMemoryArea)) → Type 0
Accepted low entries none = Unit
Accepted low entries (some areas) = LaidOut low areas × Covers entries areas

area-shape :
    (e : ElfProgramHeaderEntry)
    → e.vaddr + e.memory_size + 4096 ≤ u64_mod
    → ((area_of e).memory_base % 4096 ≡ 0)
      × ((area_of e).memory_limit % 4096 ≡ 0)
      × ((area_of e).memory_base ≤ e.vaddr)
      × (e.vaddr + e.memory_size ≤ (area_of e).memory_limit)
unfolding area_of align_up align_down
area-shape e h = omega (arith, h)

skipped :
    (low : ℕ) (e : ElfProgramHeaderEntry) (entries : List ElfProgramHeaderEntry)
    (r : Option (List (Option ElfMemoryArea)))
    → e.type_ ≡ 0
    → Accepted low entries r
    → Accepted low (e ∷ entries) (add_area none r)
skipped low e entries none h a = tt
skipped low e entries (some areas) h (l, c) = (l, (h, c))

added :
    (low : ℕ) (e : ElfProgramHeaderEntry) (entries : List ElfProgramHeaderEntry)
    (r : Option (List (Option ElfMemoryArea)))
    → e.type_ ≡ 1
    → low ≤ (area_of e).memory_base
    → e.vaddr + e.memory_size + 4096 ≤ u64_mod
    → Accepted ((area_of e).memory_limit) entries r
    → Accepted low (e ∷ entries) (add_area (some (area_of e)) r)
added low e entries none h k fits a = tt
added low e entries (some areas) h k fits (l, c) =
    let (base, limit, from, to) = area-shape e fits in ((k, base, limit, l), (h, from, to, c))

-- Entries whose ends stay a page below 2^64, when they are accepted, give an area for each entry to load and none
-- for the others: the areas start at or behind 4096, lie at page boundaries, each at or behind the
-- end of the one before it, and hold the addresses of their entries.
pub parse_entries-Accepted :
    (entries : List ElfProgramHeaderEntry) (low : ℕ)
    → Fit entries
    → Accepted low entries (parse_entries low entries)
unfolding parse_entries
parse_entries-Accepted [] low f = (tt, tt)
parse_entries-Accepted (e ∷ entries) low (fits, f) = elim (Bool-cases (e.type_ == 0)) [
  | inl null ↦ rw null (
      skipped low e entries (parse_entries low entries) (ground (arith, null))
        (parse_entries-Accepted entries low f))
  | inr other ↦ elim (Bool-cases refused) [
    | inl bad ↦ rw (other, bad) tt
    | inr good ↦
        let (kind, above) = passed (not (e.type_ == 1)) (ltb (area_of e).memory_base low) _ good in
        rw (other, good)
          (added low e entries (parse_entries (area_of e).memory_limit entries)
            (ground (arith, kind)) (ground (arith, above)) fits
            (parse_entries-Accepted entries (area_of e).memory_limit f))
  ]
]
  where
    refused : Bool
    refused = not (e.type_ == 1) || ltb (area_of e).memory_base low || ltb_ℤ e.file_size (pos 0)

    passed : (p q r : Bool) → (p || q || r) ≡ false → (p ≡ false) × (q ≡ false)
    passed false false r h = (refl, refl)
    passed true q r h = cc
    passed false true r h = cc
