-- ===== src/Mapper.antt =====
-- Mapping and freeing ranges of pages: `mapPages`, `mapNewPages` and `freePages` of
-- YYSloth/src/memory/vmmap.cpp, over an interface for the operations on one page. The loops are on
-- fuel, a round for each page.
pub mod Ranges
pub mod Pages
mod Tests
use yay_os.Base.{
  ℕ, zero, suc, ◌+◌, ◌-◌, ◌/◌, Bool, true, false, ◌==◌, ltb, if◌then◌else◌, add64, sub64,
}
use yay_os.Paging.{page_size}

-- The operations on one page, of the virtual memory `M`.
pub record PageMapper (M : Type 0) : Type 0 where
  pub map_new_page_at : ℕ → ℕ → ℕ → M → M × Bool
  pub free_page_at : ℕ → M → M

-- The number of rounds of a loop from `start` to `end`.
abbrev pub rounds : ℕ → ℕ → ℕ
rounds start end = (end - start + page_size - 1) / page_size

module _ {M : Type 0} (mapper : PageMapper M) where
  unfoldable pub free_loop : ℕ → ℕ → ℕ → M → M
  free_loop zero addr end m = m
  free_loop (suc fuel) addr end m =
      let rest = free_loop fuel (add64 addr page_size) end (mapper.free_page_at addr m) in
      if ltb addr end then rest else m

  unfoldable pub free_pages : ℕ → ℕ → M → M
  free_pages start end m = free_loop (rounds start end) start end m

  -- A page is mapped to physical memory at the same distance from `phys_addr`, to a new page if
  -- that is 0. The result holds the address at which the loop stopped.
  unfoldable pub map_loop : ℕ → ℕ → ℕ → ℕ → ℕ → ℕ → M → M × Bool × ℕ
  map_loop zero addr start end phys_addr flags m = (m, true, addr)
  map_loop (suc fuel) addr start end phys_addr flags m =
      let phys = if phys_addr == 0 then 0 else add64 (sub64 addr start) phys_addr in
      let (m', done) = mapper.map_new_page_at addr phys flags m in
      let rest = map_loop fuel (add64 addr page_size) start end phys_addr flags m' in
      if ltb addr end then (if done then rest else (m', false, addr)) else (m, true, addr)

  -- `freePageAt` for the pages in front of the one that could not be mapped.
  unfoldable pub finish : ℕ → M × Bool × ℕ → M × Bool
  finish start (m, true, addr) = (m, true)
  finish start (m, false, addr) = (free_loop (rounds start addr) start addr m, false)

  unfoldable pub map_pages : ℕ → ℕ → ℕ → ℕ → M → M × Bool
  map_pages start end phys_addr flags m =
      finish start (map_loop (rounds start end) start start end phys_addr flags m)

  unfoldable pub map_new_pages : ℕ → ℕ → ℕ → M → M × Bool
  map_new_pages start end flags m =
      finish start (map_loop (rounds start end) start start end 0 flags m)
