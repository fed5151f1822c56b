-- ===== src/Mapper/Tests.antt =====
-- A range that is mapped to the pages of one table, over the operations on one page of
-- YYSloth/src/memory/vmmap.cpp, and the loops on a memory that maps at most two more pages.
use yay_os.Base.{ℕ, zero, suc, ◌≡◌, refl, Bool, true, false, ◌==◌, arith, not, ◌&&◌, ◌||◌}
use yay_os.Mapper.{PageMapper, map_loop, finish, map_pages}
use yay_os.Mapper.Ranges.{Attempted, map_pages_lem}
use yay_os.Mapper.Pages.{page_mapper}
use yay_os.Mapper.Pages.Tests.{memory}

-- The pages that are left and those that are mapped.
abbrev Memory : Type 0
Memory = ℕ × (ℕ → Bool)

abbrev take_page : ℕ → ℕ → ℕ → Memory → Memory × Bool
take_page addr phys flags (zero, mapped) = ((zero, mapped), false)
take_page addr phys flags (suc n, mapped) = ((n, λ a. (a == addr) || mapped a), true)

abbrev drop_page : ℕ → Memory → Memory
drop_page addr (n, mapped) = (suc n, λ a. not (a == addr) && mapped a)

abbrev small_mapper : PageMapper Memory
small_mapper = record { map_new_page_at = take_page; free_page_at = drop_page }

abbrev two_left : Memory
two_left = (2, λ a. false)

too_many_fail : (map_pages small_mapper 4096 16384 0 7 two_left).1 ≡ false
unfolding map_pages map_loop finish
too_many_fail = refl

map_pages_lem_example :
    (k : ℕ) × Attempted page_mapper 4096 0xb8000 3
      (memory true)
      2
      k
      (map_pages page_mapper 4096 12288 0xb8000 3 (memory true))
map_pages_lem_example =
    map_pages_lem page_mapper 4096 12288 0xb8000 3 (memory true) (omega arith) 2 refl
