-- ===== src/UserMemory.antt =====
-- The addresses a process has not used, YYSloth/src/memory/usrvmmngr.cpp. The linked areas of a
-- `UserVirtualAllocator` are a list in their order; a step that asks for a new node takes whether
-- the kernel heap has room for it.
pub mod Areas
pub mod Taking
pub mod Freeing
mod Tests
use yay_os.Base.{
  ℕ, zero, suc, ◌+◌, ◌-◌, ◌%◌, ◌^◌, Bool, true, false, Option, none, some, List, [], ◌∷◌, ◌++◌,
  ◌==◌, ltb, leb, if◌then◌else◌, not, ◌&&◌, set,
}

-- `UserVirtualMemoryArea`.
pub record Area : Type 0 where
  pub start : ℕ
  pub size : ℕ

abbrev pub area : ℕ → ℕ → Area
area start size = record { start = start; size = size }

-- `+` on `uint64_t`.
unfoldable pub add64 : ℕ → ℕ → ℕ
add64 a b = (a + b) % (2 ^ 64)

unfoldable pub sub64 : ℕ → ℕ → ℕ
sub64 a b = if leb b a then a - b else a + 2 ^ 64 - b

-- `newUserVirtualAllocator`: everything but the first page.
abbrev pub new_areas : List Area
new_areas = area (16 ^ 3) (16 ^ 12 - 16 ^ 3) ∷ []

-- The loop of `findBestFit` from the area at an index on, with `result`.
unfoldable pub find_best_fit : ℕ → ℕ → Option (ℕ × Area) → List Area → Option (ℕ × Area)
find_best_fit size i result [] = result
find_best_fit size i none (a ∷ areas) =
    find_best_fit size (i + 1) (if ltb size a.size then some (i, a) else none) areas
find_best_fit size i (some (j, r)) (a ∷ areas) =
    find_best_fit size (i + 1)
      (if ltb size a.size && ltb a.size r.size then some (i, a) else some (j, r)) areas

-- `cut`.
unfoldable pub cut : ℕ → List Area → List Area
cut i [] = []
cut zero (a ∷ areas) = areas
cut (suc i) (a ∷ areas) = a ∷ cut i areas

-- `alloc`: the address, 0 if no area is large enough.
unfoldable pub alloc : ℕ → List Area → ℕ × List Area
unfolding find_best_fit cut add64 sub64
alloc size areas = elim (find_best_fit size 0 none areas) [
  | none ↦ (0, areas)
  | some (i, a) ↦
      let areas' = set areas i (area (add64 a.start size) (sub64 a.size size)) in
      (a.start, if sub64 a.size size == 0 then cut i areas' else areas')
]

-- `UserVirtualMemoryArea::in`.
unfoldable pub is_in : Area → ℕ → Bool
unfolding add64
is_in a addr = leb a.start addr && ltb addr (add64 a.start a.size)

-- `cutFrom` an area in front of the others.
unfoldable pub cut_from : Bool → Area → List Area → ℕ → ℕ → Option (List Area)
unfolding add64 sub64
cut_from room a areas start size =
    if start == a.start
    then some (area (add64 a.start size) (sub64 a.size size) ∷ areas)
    else if add64 start size == add64 a.start a.size
    then some (area a.start (sub64 start a.start) ∷ areas)
    else if not room
    then none
    else some (
        area a.start (sub64 start a.start)
        ∷ area (add64 start size) (sub64 (add64 a.start a.size) (add64 start size))
        ∷ areas)

-- `reserve`: `none` where it returns false.
unfoldable pub reserve : Bool → ℕ → ℕ → List Area → Option (List Area)
unfolding is_in cut_from add64
reserve room addr size [] = none
reserve room addr size (a ∷ areas) =
    let rest = reserve room addr size areas in
    if is_in a addr
    then if is_in a (add64 addr size) then cut_from room a areas addr size else none
    else elim rest [ none ↦ none | some areas' ↦ some (a ∷ areas') ]

-- `findLastBefore`: the areas up to the one found, and those behind it.
unfoldable pub find_last_before : ℕ → List Area → List Area × List Area
unfolding add64
find_last_before addr [] = ([], [])
find_last_before addr (a ∷ areas) =
    let (before, after) = find_last_before addr areas in
    if ltb addr (add64 a.start a.size) then ([], a ∷ areas) else (a ∷ before, after)

-- The walk to `right`, and the areas behind it.
unfoldable pub find_right : ℕ → Area → List Area → Area × List Area
find_right limit right [] = (right, [])
find_right limit right (a ∷ areas) =
    let further = find_right limit a areas in
    if leb right.start limit then further else (right, a ∷ areas)

-- The end of `free`: `left` takes over everything up to `right`.
unfoldable pub join : ℕ → ℕ → Area → List Area → List Area
unfolding find_right add64 sub64
join addr size left areas =
    let (right, after) = find_right (add64 addr size) left areas in
    let new_start = if ltb left.start addr then left.start else addr in
    let new_size =
      if ltb (add64 addr size) (add64 right.start right.size)
      then sub64 (add64 right.start right.size) new_start
      else sub64 (add64 addr size) new_start in
    area new_start new_size ∷ after

-- What `free` does with the areas up to `current` and those behind it. The four cases that make a
-- new node differ in where they link it.
unfoldable pub give_back : Bool → ℕ → ℕ → List Area → List Area → Option (List Area)
unfolding join add64
give_back room addr size before [] = if room then some (before ++ (area addr size ∷ [])) else none
give_back room addr size before (a ∷ rest) =
    if ltb (add64 addr size) a.start
    then if room then some (before ++ (area addr size ∷ a ∷ rest)) else none
    else some (before ++ join addr size a rest)

-- `free`: `none` where it returns false.
unfoldable pub free : Bool → ℕ → ℕ → List Area → Option (List Area)
unfolding find_last_before give_back
free room addr size areas =
    let (before, after) = find_last_before addr areas in give_back room addr size before after
