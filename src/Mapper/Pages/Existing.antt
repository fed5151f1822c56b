-- ===== src/Mapper/Pages/Existing.antt =====
-- What `mapNewPageAt` of YYSloth/src/memory/vmmap.cpp does where tables exist.
use Prim.Native.Nat.{bit_or}
use yay_os.Base.{
  ℕ, ◌+◌, ◌*◌, ◌<◌, ◌≤◌, ◌-◌, ◌%◌, ◌^◌, ◌≡◌, ◌≢◌, refl, ◌∙◌, true, false, ◌==◌, if◌then◌else◌,
  arith, Bool-cases, inl, inr, u64_mod,
}
use yay_os.Bits.{test_bit, set_bit}
use yay_os.PhysAlloc.{PhysAllocator, new_page, decrement_map_count}
use yay_os.Paging.{
  present, get_addr, walk_to, get_p4_index, get_p3_index, get_p2_index, p4_table_virtual_address,
}
use yay_os.CopyOnWrite.{Memory}
use yay_os.CopyOnWrite.Emptying.{walk_to-sum}
use yay_os.Mapper.Pages.{
  table_path, walk_to_with_alloc, map_new_page_at, map_absent, release, set_allocator,
}

-- An entry that is present is followed, and changed for user pages only.
walk-present :
    (this index frame : ℕ) (m : Memory)
    → (this == 0) ≡ false
    → present (m.tables this index) ≡ true
    → walk_to_with_alloc this index frame false m ≡ (m, walk_to this index)
unfolding walk_to_with_alloc
walk-present this index frame m ne p = rw (walk_to_with_alloc, ne, p) refl

walk-full :
    (this index frame : ℕ) (m : Memory) (a : PhysAllocator)
    → (this == 0) ≡ false
    → present (m.tables this index) ≡ false
    → new_page m.allocator ≡ (a, 0)
    → walk_to_with_alloc this index frame false m ≡ (set_allocator a m, 0)
unfolding walk_to_with_alloc
walk-full this index frame m a ne p full = rw (walk_to_with_alloc, ne, p, full) refl

-- The tables on the way to a page stand at the end of the address space.
record IsTable (a d : ℕ) : Type 0 where
  total : a + d ≡ u64_mod
  aligned : d % 4096 ≡ 0
  low : 4096 ≤ d

IsTable-walk :
    (a d j : ℕ) → IsTable a d → d ≤ 2 ^ 30 → j < 512 → IsTable (walk_to a j) (512 * d - 4096 * j)
IsTable-walk a d j t high h =
    let s = walk_to-sum a d j t.total t.aligned t.low (omega (arith, high)) h in
    record {
      total = omega (arith, s, t.low, h);
      aligned = omega (arith, t.aligned);
      low = omega (arith, t.low, h);
    }

IsTable-ne : (a d : ℕ) → IsTable a d → d ≤ 2 ^ 39 → (a == 0) ≡ false
IsTable-ne a d t high = ground (arith, t.total, high)

-- Giving a table back clears its entry, and no entry of another table.
release-gone :
    (frame table index : ℕ) (m : Memory)
    → (decrement_map_count frame m.allocator).1 ≡ true
    → (release frame table index m).tables table index ≡ 0
unfolding release
release-gone frame table index m gone = rw (release, gone) (ground arith)

release-other :
    (frame table index a j : ℕ) (m : Memory)
    → (a == table) ≡ false
    → (release frame table index m).tables a j ≡ m.tables a j
unfolding release
release-other frame table index a j m ne =
    elim (Bool-cases ((decrement_map_count frame m.allocator).1)) [
      | inl g ↦ rw (release, g, ne) refl
      | inr g ↦ rw (release, g) refl
    ]

module _ (addr : ℕ) where
  top_IsTable : IsTable p4_table_virtual_address 4096
  top_IsTable = record { total = omega arith; aligned = omega arith; low = omega arith }

  p3_IsTable : IsTable (table_path addr).p3_table (512 * 4096 - 4096 * get_p4_index addr)
  unfolding table_path get_p4_index
  p3_IsTable =
      IsTable-walk p4_table_virtual_address 4096 (get_p4_index addr) top_IsTable (omega arith)
        (omega arith)

  p2_IsTable : (d : ℕ) × (d ≤ 2 ^ 30) × IsTable (table_path addr).p2_table d
  unfolding table_path get_p3_index
  p2_IsTable = (
    512 * (512 * 4096 - 4096 * get_p4_index addr) - 4096 * get_p3_index addr,
    omega arith,
    IsTable-walk (table_path addr).p3_table (512 * 4096 - 4096 * get_p4_index addr)
        (get_p3_index addr) p3_IsTable (omega arith) (omega arith),
  )

  p3_ne : ((table_path addr).p3_table == 0) ≡ false
  p3_ne = IsTable-ne (table_path addr).p3_table _ p3_IsTable (omega arith)

  p2_ne : ((table_path addr).p2_table == 0) ≡ false
  p2_ne = let (d, h, t) = p2_IsTable in IsTable-ne (table_path addr).p2_table d t (omega (arith, h))

  p1_ne : ((table_path addr).p1_table == 0) ≡ false
  unfolding table_path get_p2_index
  p1_ne =
      let (d, h, t) = p2_IsTable in
      IsTable-ne (table_path addr).p1_table (512 * d - 4096 * get_p2_index addr)
        (IsTable-walk (table_path addr).p2_table d (get_p2_index addr) t h (omega arith))
        (omega (arith, h))

  p3_eq : walk_to p4_table_virtual_address (table_path addr).p4_index ≡ (table_path addr).p3_table
  unfolding table_path
  p3_eq = refl

  p2_eq : walk_to (table_path addr).p3_table (table_path addr).p3_index ≡ (table_path addr).p2_table
  unfolding table_path
  p2_eq = refl

  p1_eq : walk_to (table_path addr).p2_table (table_path addr).p2_index ≡ (table_path addr).p1_table
  unfolding table_path
  p1_eq = refl

  -- Below the last entry of the top table there are other tables.
  p3_not_top :
      (table_path addr).p4_index < 511
      → ((table_path addr).p3_table == p4_table_virtual_address) ≡ false
  unfolding table_path
  p3_not_top h = ground (arith, p3_IsTable.total, h)

module _ (addr phys_addr flags : ℕ) (m : Memory) (kernel : test_bit flags 2 ≡ false)
    (there4 : present (m.tables p4_table_virtual_address (table_path addr).p4_index) ≡ true)
    (there3 : present (m.tables (table_path addr).p3_table (table_path addr).p3_index) ≡ true) where
  -- Where all tables exist and no page is mapped, a physical page that is given is
  -- mapped with the flags, and no other entry changes.
  pub map_new_page_at-given :
      present (m.tables (table_path addr).p2_table (table_path addr).p2_index) ≡ true
      → present (m.tables (table_path addr).p1_table (table_path addr).p1_index) ≡ false
      → phys_addr ≢ 0
      → ((map_new_page_at addr phys_addr flags m).1 ≡ true)
        × ((a j : ℕ)
            → (map_new_page_at addr phys_addr flags m).0.tables a j ≡ (
                if a == (table_path addr).p1_table
                then (if j == (table_path addr).p1_index
                    then bit_or (set_bit flags 0) phys_addr
                    else m.tables a j)
                else m.tables a j))
  unfolding map_new_page_at map_absent
  map_new_page_at-given there2 absent phys =
      let path = table_path addr in
      let ne : (phys_addr == 0) ≡ false = ground (arith, phys) in
      rw
        (
          map_new_page_at,
          kernel,
          walk-present p4_table_virtual_address path.p4_index 0 m refl there4,
          walk-present path.p3_table path.p3_index
              (get_addr (m.tables p4_table_virtual_address path.p4_index)) m (p3_ne addr) there3,
          walk-present path.p2_table path.p2_index (get_addr (m.tables path.p3_table path.p3_index))
              m (p2_ne addr) there2,
          p3_eq addr,
          p2_eq addr,
          p1_eq addr,
          p3_ne addr,
          p2_ne addr,
          p1_ne addr,
          absent,
          map_absent,
          ne,
        )
        (refl, λ a j. refl)

  map_new_page_at-full :
      (a : PhysAllocator)
      → present (m.tables (table_path addr).p2_table (table_path addr).p2_index) ≡ false
      → new_page m.allocator ≡ (a, 0)
      → map_new_page_at addr phys_addr flags m ≡ (
        release
            (get_addr (m.tables p4_table_virtual_address (table_path addr).p4_index))
            p4_table_virtual_address
            (table_path addr).p4_index
            (release
              (get_addr (m.tables (table_path addr).p3_table (table_path addr).p3_index))
              (table_path addr).p3_table
              (table_path addr).p3_index
              (set_allocator a m)),
        false,
      )
  unfolding map_new_page_at
  map_new_page_at-full a absent full =
      let path = table_path addr in
      rw
        (
          map_new_page_at,
          kernel,
          walk-present p4_table_virtual_address path.p4_index 0 m refl there4,
          walk-present path.p3_table path.p3_index
              (get_addr (m.tables p4_table_virtual_address path.p4_index)) m (p3_ne addr) there3,
          walk-full path.p2_table path.p2_index (get_addr (m.tables path.p3_table path.p3_index)) m
              a (p2_ne addr) absent full,
          p3_eq addr,
          p2_eq addr,
          p3_ne addr,
          p2_ne addr,
        )
        refl

  -- Where the entry for the lowest table is free and there is no page for it, mapping fails, and at a
  -- count of one entry the table that was to hold it is cleared from the table above, although it was
  -- there before.
  pub map_new_page_at-clears :
      (a : PhysAllocator)
      → (table_path addr).p4_index < 511
      → present (m.tables (table_path addr).p2_table (table_path addr).p2_index) ≡ false
      → new_page m.allocator ≡ (a, 0)
      → (decrement_map_count
          (get_addr (m.tables (table_path addr).p3_table (table_path addr).p3_index))
          a).1
        ≡ true
      → ((map_new_page_at addr phys_addr flags m).1 ≡ false)
        × ((map_new_page_at addr phys_addr flags m).0.tables
              (table_path addr).p3_table
              (table_path addr).p3_index
            ≡ 0)
  unfolding release
  map_new_page_at-clears a user absent full gone =
      let path = table_path addr in
      let p3addr = get_addr (m.tables p4_table_virtual_address path.p4_index) in
      let p2addr = get_addr (m.tables path.p3_table path.p3_index) in
      let m1 = release p2addr path.p3_table path.p3_index (set_allocator a m) in
      rw (map_new_page_at-full a absent full) (
        refl,
        release-other p3addr p4_table_virtual_address path.p4_index path.p3_table path.p3_index m1
              (p3_not_top addr user)
            ∙ release-gone p2addr path.p3_table path.p3_index (set_allocator a m) gone,
      )
