-- ===== src/CopyOnWrite/Disposal.antt =====
-- What `disposePageTableRec` and `deallocateUserMemory` of YYSloth/src/memory/cow.cpp do to the
-- tables and to the references of pages.
use yay_os.Base.{
  ℕ, zero, suc, ◌+◌, ◌/◌, ◌%◌, ◌<◌, ◌≡◌, refl, ap, ◌∙◌, length, arith, ◌==◌, if◌then◌else◌, u64_mod,
  Bool-cases, inl, inr,
}
use yay_os.PhysAlloc.{free_page}
use yay_os.Paging.{Tables, present, get_addr, walk_to}
use yay_os.CopyOnWrite.{Memory, each_entry, dispose_entry, dispose_page_table_rec}
use yay_os.CopyOnWrite.Counting.{
  uses, uses_entry, uses_entries, references, references-free, page_info-free,
}

-- Pages with counters lost references.
pub record Dropped (m m' : Memory) (fewer : ℕ → ℕ) : Type 0 where
  pub kept : length m'.allocator.page_info ≡ length m.allocator.page_info
  pub counted :
      (p : ℕ)
      → p < length m.allocator.page_info
      → references m.allocator p < u64_mod
      → (references m'.allocator p < u64_mod)
        × ((references m'.allocator p + fewer p) % u64_mod ≡ references m.allocator p)

pub Dropped-refl : (m : Memory) → Dropped m m (λ p. 0)
Dropped-refl m = record { kept = refl; counted = λ p h k. (k, omega (arith, k)) }

pub Dropped-eq :
    (m m' : Memory) (u w : ℕ → ℕ) → ((p : ℕ) → u p ≡ w p) → Dropped m m' u → Dropped m m' w
Dropped-eq m m' u w e x = record { kept = x.kept; counted = λ p h k. rw (← e p) (x.counted p h k) }

pub Dropped-trans :
    (m m1 m2 : Memory) (u w : ℕ → ℕ)
    → Dropped m m1 u
    → Dropped m1 m2 w
    → Dropped m m2 (λ p. u p + w p)
Dropped-trans m m1 m2 u w x y = record {
  kept = y.kept ∙ x.kept;
  counted = λ p h k.
      let (c, e) = x.counted p h k in
      let (c', e') = y.counted p (omega (arith, h, x.kept)) c in (c', omega (arith, e, e', c, c'));
}

-- One page loses a reference.
freed : ℕ → Memory → Memory
freed addr m = record m { allocator = free_page addr m.allocator }

freed-Dropped :
    (addr : ℕ) (m : Memory) → Dropped m (freed addr m) (λ p. if addr / 4096 == p then 1 else 0)
unfolding freed
freed-Dropped addr m = record {
  kept = page_info-free m.allocator addr;
  counted = λ p h k. (
    ground (arith, k, references-free m.allocator addr p h),
    ground (arith, k, references-free m.allocator addr p h),
  );
}

-- What is known of the disposal of the tables below.
abbrev pub Disposes : ℕ → (ℕ → Memory → Memory) → Type 0
Disposes level next =
    (table : ℕ) (m : Memory)
    → ((next table m).tables ≡ m.tables)
      × Dropped m (next table m) (λ p. uses level p m.tables table)

pub dispose_entry-Dropped :
    (level : ℕ) (next : ℕ → Memory → Memory) (i table : ℕ) (m : Memory)
    → Disposes level next
    → ((dispose_entry next i table m).tables ≡ m.tables)
      × Dropped m
          (dispose_entry next i table m)
          (λ p. uses_entry (uses level p m.tables) p m.tables table i)
unfolding dispose_entry freed
dispose_entry-Dropped level next i table m below = elim (Bool-cases (present (m.tables table i))) [
  | inr absent ↦ rw (dispose_entry, absent) (refl, Dropped-refl m)
  | inl there ↦
      let m1 = next (walk_to table i) m in
      let (same, rest) = below (walk_to table i) m in
      let addr = get_addr (m1.tables table i) in
      rw (dispose_entry, there)
        (
          same,
          Dropped-eq m (freed addr m1) _ _
              (λ p.
                ap
                  (λ (t : Tables).
                    uses level p m.tables (walk_to table i)
                    + (if get_addr (t table i) / 4096 == p then 1 else 0))
                  same)
              (Dropped-trans m m1 (freed addr m1) _ _ rest (freed-Dropped addr m1)),
        )
]

each_entry-Dropped :
    (level : ℕ) (next : ℕ → Memory → Memory) (n i table : ℕ) (m : Memory)
    → Disposes level next
    → ((each_entry (dispose_entry next) n i table m).tables ≡ m.tables)
      × Dropped m
          (each_entry (dispose_entry next) n i table m)
          (λ p. uses_entries (uses level p m.tables) p m.tables n i table)
unfolding each_entry
each_entry-Dropped level next zero i table m below = (refl, Dropped-refl m)
each_entry-Dropped level next (suc n) i table m below =
    let m1 = dispose_entry next i table m in
    let (same, one) = dispose_entry-Dropped level next i table m below in
    let (same', rest) = each_entry-Dropped level next n (suc i) table m1 below in
    let m2 = each_entry (dispose_entry next) n (suc i) table m1 in
    (
      same' ∙ same,
      Dropped-eq m m2 _ _
          (λ p.
            ap
              (λ (t : Tables).
                uses_entry (uses level p m.tables) p m.tables table i
                + uses_entries (uses level p t) p t n (suc i) table)
              same)
          (Dropped-trans m m1 m2 _ _ one rest),
    )

pub dispose_page_table_rec-Disposes : (level : ℕ) → Disposes level (dispose_page_table_rec level)
unfolding dispose_page_table_rec uses
dispose_page_table_rec-Disposes zero table m = (refl, Dropped-refl m)
dispose_page_table_rec-Disposes (suc level) table m =
    each_entry-Dropped level (dispose_page_table_rec level) 512 0 table m
      (dispose_page_table_rec-Disposes level)
