-- ===== src/CopyOnWrite/Sharing.antt =====
-- What `markAsCoW` of YYSloth/src/memory/cow.cpp does to the tables and to the references of pages.
use yay_os.Base.{
  ℕ, zero, suc, ◌+◌, ◌/◌, ◌%◌, ◌<◌, ◌≡◌, refl, ap, ◌∙◌, length, arith, ◌==◌, if◌then◌else◌, u64_mod,
  Bool-cases, inl, inr, ==_iff,
}
use yay_os.PhysAlloc.{increment_ref_count}
use yay_os.Paging.{Tables, present, get_addr, walk_to, p4_table_virtual_address}
use yay_os.CopyOnWrite.{
  Memory, set_word, protect, each_entry, mark_entry, mark_as_cow_rec, mark_as_cow,
}
use yay_os.CopyOnWrite.Entries.{protect-lt, get_addr-protect, present-protect}
use yay_os.CopyOnWrite.Counting.{
  uses, uses_entry, uses_entries, SameShape, uses-same, uses_entries-same, references,
  references-increment, page_info-increment,
}

abbrev pub IsWords : Tables → Type 0
IsWords t = (a j : ℕ) → t a j < u64_mod

-- Pages with counters got references more, and the tables map what they did.
pub record Marked (m m' : Memory) (more : ℕ → ℕ) : Type 0 where
  pub words : IsWords m'.tables
  pub same : SameShape m.tables m'.tables
  pub kept : length m'.allocator.page_info ≡ length m.allocator.page_info
  pub counted :
      (p : ℕ)
      → p < length m.allocator.page_info
      → references m.allocator p < u64_mod
      → references m'.allocator p ≡ (references m.allocator p + more p) % u64_mod

Marked-refl : (m : Memory) → IsWords m.tables → Marked m m (λ p. 0)
Marked-refl m w = record {
  words = w;
  same = λ a j. (refl, refl);
  kept = refl;
  counted = λ p h k. omega (arith, k);
}

Marked-eq : (m m' : Memory) (u w : ℕ → ℕ) → ((p : ℕ) → u p ≡ w p) → Marked m m' u → Marked m m' w
Marked-eq m m' u w e x = record {
  words = x.words;
  same = x.same;
  kept = x.kept;
  counted = λ p h k. rw (← e p) (x.counted p h k);
}

Marked-trans :
    (m m1 m2 : Memory) (u w : ℕ → ℕ) → Marked m m1 u → Marked m1 m2 w → Marked m m2 (λ p. u p + w p)
Marked-trans m m1 m2 u w x y = record {
  words = y.words;
  same = λ a j. ((y.same a j).0 ∙ (x.same a j).0, (y.same a j).1 ∙ (x.same a j).1);
  kept = y.kept ∙ x.kept;
  counted = λ p h k.
      let c = x.counted p h k in
      omega (arith, c, y.counted p (omega (arith, h, x.kept)) (omega (arith, c)));
}

-- One entry is marked and its page counted.
shared : ℕ → ℕ → Memory → Memory
shared table i m =
    let m1 = set_word table i (protect (m.tables table i)) m in
    record m1 { allocator = increment_ref_count (get_addr (m1.tables table i)) m1.allocator }

written-same :
    (table i : ℕ) (m : Memory)
    → IsWords m.tables
    → SameShape m.tables (set_word table i (protect (m.tables table i)) m).tables
written-same table i m w a j = elim (Bool-cases (a == table)) [
  | inr ne ↦ (rw ne refl, rw ne refl)
  | inl ea ↦ elim (Bool-cases (j == i)) [
    | inr ne ↦ (rw (ea, ne) refl, rw (ea, ne) refl)
    | inl ej ↦
        let q : m.tables table i ≡ m.tables a j =
          rw ((==_iff a table).0 ea, (==_iff j i).0 ej) refl in
        let word = m.tables table i in
        (
          rw (ea, ej) (present-protect word (w table i) ∙ ap present q),
          rw (ea, ej) (get_addr-protect word (w table i) ∙ ap get_addr q),
        )
  ]
]

shared-Marked :
    (table i : ℕ) (m : Memory)
    → IsWords m.tables
    → Marked m (shared table i m) (λ p. if get_addr (m.tables table i) / 4096 == p then 1 else 0)
unfolding shared
shared-Marked table i m w =
    let word = m.tables table i in
    let here : (set_word table i (protect word) m).tables table i ≡ protect word = ground arith in
    let addr : get_addr ((set_word table i (protect word) m).tables table i) ≡ get_addr word =
      ap get_addr here ∙ get_addr-protect word (w table i) in
    record {
      words = λ a j. ground (arith, w a j, protect-lt word (w table i));
      same = written-same table i m w;
      kept = page_info-increment m.allocator _;
      counted = λ p h k.
          rw addr (ground (arith, k, references-increment m.allocator (get_addr word) p h));
    }

-- What is known of the marking of the tables below.
abbrev Marks : ℕ → (ℕ → Memory → Memory) → Type 0
Marks level next =
    (table : ℕ) (m : Memory)
    → IsWords m.tables
    → Marked m (next table m) (λ p. uses level p m.tables table)

mark_entry-Marked :
    (level : ℕ) (next : ℕ → Memory → Memory) (i table : ℕ) (m : Memory)
    → Marks level next
    → IsWords m.tables
    → Marked m
        (mark_entry next i table m)
        (λ p. uses_entry (uses level p m.tables) p m.tables table i)
unfolding mark_entry shared
mark_entry-Marked level next i table m below w = elim (Bool-cases (present (m.tables table i))) [
  | inr absent ↦ rw (mark_entry, absent) (Marked-refl m w)
  | inl there ↦
      let m1 = shared table i m in
      let one = shared-Marked table i m w in
      let rest = below (walk_to table i) m1 one.words in
      rw (mark_entry, there)
        (Marked-eq m (next (walk_to table i) m1) _ _
          (λ p.
            ground (arith, there, uses-same level p m.tables m1.tables (walk_to table i) one.same))
          (Marked-trans m m1 (next (walk_to table i) m1) _ _ one rest))
]

each_entry-Marked :
    (level : ℕ) (next : ℕ → Memory → Memory) (n i table : ℕ) (m : Memory)
    → Marks level next
    → IsWords m.tables
    → Marked m
        (each_entry (mark_entry next) n i table m)
        (λ p. uses_entries (uses level p m.tables) p m.tables n i table)
unfolding each_entry
each_entry-Marked level next zero i table m below w = Marked-refl m w
each_entry-Marked level next (suc n) i table m below w =
    let m1 = mark_entry next i table m in
    let one = mark_entry-Marked level next i table m below w in
    let rest = each_entry-Marked level next n (suc i) table m1 below one.words in
    Marked-eq m (each_entry (mark_entry next) n (suc i) table m1) _ _
      (λ p. omega (
        arith,
        uses_entries-same (uses level p m.tables) (uses level p m1.tables) p m.tables m1.tables n
            (suc i) table (λ j. uses-same level p m.tables m1.tables (walk_to table j) one.same)
            one.same,
      ))
      (Marked-trans m m1 (each_entry (mark_entry next) n (suc i) table m1) _ _ one rest)

mark_as_cow_rec-Marks : (level : ℕ) → Marks level (mark_as_cow_rec level)
unfolding mark_as_cow_rec uses
mark_as_cow_rec-Marks zero table m w = Marked-refl m w
mark_as_cow_rec-Marks (suc level) table m w =
    each_entry-Marked level (mark_as_cow_rec level) 512 0 table m (mark_as_cow_rec-Marks level) w

-- The references of the user half of the top table to a page, with those of all tables below.
abbrev pub user_uses : ℕ → Tables → ℕ
user_uses page t = uses_entries (uses 3 page t) page t 256 0 p4_table_virtual_address

-- Marking the memory of a process as shared leaves what is mapped where it is, and counts each page
-- once more for each entry of a user table that refers to it.
pub mark_as_cow-Marked :
    (m : Memory) → IsWords m.tables → Marked m (mark_as_cow m) (λ p. user_uses p m.tables)
unfolding mark_as_cow
mark_as_cow-Marked m w =
    each_entry-Marked 3 (mark_as_cow_rec 3) 256 0 p4_table_virtual_address m
      (mark_as_cow_rec-Marks 3) w
