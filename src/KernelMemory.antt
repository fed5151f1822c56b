-- ===== src/KernelMemory.antt =====
-- The free ranges of the kernel's address space, YYSloth/src/memory/kvmmngr.cpp: the list
-- `m_kernelAreas` in its order, and what freeing and mapping do to it. The pools that the nodes of
-- the list come from are not part of the model, nor are the page tables: whether the mapping of
-- new pages succeeds is an argument.
pub mod Merging
pub mod Nodes
mod Tests
use yay_os.Base.{
  ℕ, zero, suc, ◌+◌, ◌-◌, Bool, true, false, Option, none, some, List, [], ◌∷◌, ◌++◌, ◌==◌, ltb,
  leb, if◌then◌else◌, add64, sub64, set,
}

pub record MemoryArea : Type 0 where
  pub offset : ℕ
  pub size : ℕ

-- `mergeAdjacent` of an area with the one behind it.
unfoldable pub merge_right : MemoryArea → List MemoryArea → List MemoryArea
merge_right area [] = area ∷ []
merge_right area (next ∷ after) =
    if add64 area.offset area.size == next.offset
    then record area { size = add64 area.size next.size } ∷ after
    else area ∷ next ∷ after

-- `mergeAdjacent` of an area with the one in front of it too. The end of the area stays as it is.
unfoldable pub merge_adjacent : MemoryArea → MemoryArea → List MemoryArea → List MemoryArea
unfolding merge_right
merge_adjacent prev area after =
    if add64 prev.offset prev.size == area.offset
    then merge_right (record { offset = prev.offset; size = add64 area.size prev.size }) after
    else prev ∷ merge_right area after

-- The walk of `freeMapping` with an area `prev` behind it.
unfoldable pub insert_behind : MemoryArea → MemoryArea → List MemoryArea → List MemoryArea
unfolding merge_adjacent
insert_behind prev area [] = merge_adjacent prev area []
insert_behind prev area (current ∷ areas) =
    let further = insert_behind current area areas in
    if ltb area.offset current.offset
    then merge_adjacent prev area (current ∷ areas)
    else prev ∷ further

unfoldable pub free_mapping : MemoryArea → List MemoryArea → List MemoryArea
unfolding insert_behind merge_right
free_mapping area [] = area ∷ []
free_mapping area (current ∷ areas) =
    if ltb area.offset current.offset
    then merge_right area (current ∷ areas)
    else insert_behind current area areas

-- The loop of `findBestFit` from the area at an index on.
unfoldable pub find_best_fit :
    ℕ → ℕ → Option (ℕ × MemoryArea) → List MemoryArea → Option (ℕ × MemoryArea)
find_best_fit requested i best [] = best
find_best_fit requested i none (a ∷ areas) =
    find_best_fit requested (i + 1) (if leb requested a.size then some (i, a) else none) areas
find_best_fit requested i (some (j, b)) (a ∷ areas) =
    find_best_fit requested (i + 1)
      (if leb requested a.size
        then if ltb a.size b.size then some (i, a) else some (j, b)
        else some (j, b))
      areas

unfoldable pub cut_node : ℕ → List MemoryArea → List MemoryArea
cut_node i [] = []
cut_node zero (a ∷ areas) = areas
cut_node (suc i) (a ∷ areas) = a ∷ cut_node i areas

-- `getMapping`, with whether the mapping of the pages succeeds: the address, 0 on failure.
unfoldable pub get_mapping : Bool → ℕ → List MemoryArea → ℕ × List MemoryArea
unfolding find_best_fit cut_node
get_mapping mapped size areas = elim (find_best_fit size 0 none areas) [
  | none ↦ (0, areas)
  | some (i, best) ↦
      let left = sub64 best.size size in
      let areas' = set areas i (record { offset = add64 best.offset size; size = left }) in
      if mapped then (best.offset, if left == 0 then cut_node i areas' else areas') else (0, areas)
]
