-- ===== src/CopyOnWrite/Cloning.antt =====
-- What a process and its copy may write: `clonePageTable` of YYSloth/src/memory/cow.cpp.
use yay_os.Base.{
  ℕ, zero, suc, ◌+◌, ◌<◌, ◌≡◌, ◌≢◌, refl, sym, ap, ◌∙◌, true, false, ◌==◌, ◌⊎◌, inl, inr, arith,
  ◌≤◌, ℕ_discrete, subst, u64_mod, Bool-cases, ==_iff,
}
use yay_os.PhysAlloc.{PhysAllocator, new_page, increment_ref_count}
use yay_os.Paging.{Tables, present, writable, cow, get_addr, walk_to, p4_table_virtual_address}
use yay_os.CopyOnWrite.{
  Memory, set_word, protect, each_entry, mark_entry, mark_as_cow_rec, mark_as_cow, top_copy,
  clone_page_table,
}
use yay_os.CopyOnWrite.Entries.{
  protect-lt, present-protect, cow-protect, writable-protect, protect-cow,
}
use yay_os.CopyOnWrite.Sharing.{IsWords}

-- The entry is shared, and may not be written.
pub record IsShared (w : ℕ) : Type 0 where
  pub is_cow : cow w ≡ true
  pub read_only : writable w ≡ false

-- No shared entry may be written.
abbrev pub IsReadOnly : Tables → Type 0
IsReadOnly t = (a j : ℕ) → cow (t a j) ≡ true → writable (t a j) ≡ false

-- Entries stay, or are marked as shared.
record Protects (m m' : Memory) : Type 0 where
  words : IsWords m'.tables
  read_only : IsReadOnly m'.tables
  kept : (a j : ℕ) → present (m.tables a j) ≡ true → present (m'.tables a j) ≡ true
  still : (a j : ℕ) → cow (m.tables a j) ≡ true → cow (m'.tables a j) ≡ true

-- What the marking of the tables below keeps.
abbrev Shares : (ℕ → Memory → Memory) → Type 0
Shares next =
    (table : ℕ) (m : Memory) → IsWords m.tables → IsReadOnly m.tables → Protects m (next table m)

Protects-refl : (m : Memory) → IsWords m.tables → IsReadOnly m.tables → Protects m m
Protects-refl m w r = record { words = w; read_only = r; kept = λ a j h. h; still = λ a j h. h }

Protects-trans : (m m1 m2 : Memory) → Protects m m1 → Protects m1 m2 → Protects m m2
Protects-trans m m1 m2 x y = record {
  words = y.words;
  read_only = y.read_only;
  kept = λ a j h. y.kept a j (x.kept a j h);
  still = λ a j h. y.still a j (x.still a j h);
}

writable-protected :
    (w : ℕ) → w < u64_mod → (cow w ≡ true → writable w ≡ false) → writable (protect w) ≡ false
writable-protected w h r = elim (Bool-cases (cow w)) [
  | inr c ↦ (writable-protect w h c).0
  | inl c ↦ ap writable (protect-cow w h c) ∙ r c
]

-- What a write of a marked entry changes.
marked :
    (table i : ℕ) (m : Memory) (b j : ℕ)
    → ((set_word table i (protect (m.tables table i)) m).tables b j ≡ m.tables b j)
      ⊎ ((set_word table i (protect (m.tables table i)) m).tables b j ≡ protect (m.tables b j))
marked table i m b j = elim (Bool-cases (b == table)) [
  | inr ne ↦ inl (rw ne refl)
  | inl eb ↦ elim (Bool-cases (j == i)) [
    | inr ne ↦ inl (rw (eb, ne) refl)
    | inl ej ↦ inr (rw (eb, ej, (==_iff b table).0 eb, (==_iff j i).0 ej) refl)
  ]
]

-- One entry is marked.
protect-Protects :
    (table i : ℕ) (m : Memory) (a : PhysAllocator)
    → IsWords m.tables
    → IsReadOnly m.tables
    → Protects m (record (set_word table i (protect (m.tables table i)) m) { allocator = a })
protect-Protects table i m a w r = record {
  words = λ b j. ground (arith, w b j, protect-lt (m.tables table i) (w table i));
  read_only = λ b j c. elim (marked table i m b j) [
    | inl e ↦ ap writable e ∙ r b j (sym (ap cow e) ∙ c)
    | inr e ↦ ap writable e ∙ writable-protected (m.tables b j) (w b j) (r b j)
  ];
  kept = λ b j c. elim (marked table i m b j) [
    | inl e ↦ ap present e ∙ c
    | inr e ↦ ap present e ∙ present-protect (m.tables b j) (w b j) ∙ c
  ];
  still = λ b j c. elim (marked table i m b j) [
    | inl e ↦ ap cow e ∙ c
    | inr e ↦ ap cow e ∙ cow-protect (m.tables b j) (w b j)
  ];
}

mark_entry-Protects :
    (next : ℕ → Memory → Memory) (i table : ℕ) (m : Memory)
    → Shares next
    → IsWords m.tables
    → IsReadOnly m.tables
    → Protects m (mark_entry next i table m)
      × (present (m.tables table i) ≡ true
          → cow ((mark_entry next i table m).tables table i) ≡ true)
unfolding mark_entry
mark_entry-Protects next i table m below w r = elim (Bool-cases (present (m.tables table i))) [
  | inr absent ↦ rw (mark_entry, absent) (Protects-refl m w r, λ e. cc e)
  | inl there ↦
      let m1 : Memory = record (set_word table i (protect (m.tables table i)) m) {
        allocator =
            increment_ref_count
              (get_addr ((set_word table i (protect (m.tables table i)) m).tables table i))
              m.allocator;
      } in
      let one = protect-Protects table i m m1.allocator w r in
      let rest = below (walk_to table i) m1 one.words one.read_only in
      let here : m1.tables table i ≡ protect (m.tables table i) = ground arith in
      let own : cow (m1.tables table i) ≡ true =
        ap cow here ∙ cow-protect (m.tables table i) (w table i) in
      rw (mark_entry, there)
        (Protects-trans m m1 (next (walk_to table i) m1) one rest, λ _. rest.still table i own)
]

each_entry-Protects :
    (next : ℕ → Memory → Memory) (n i table : ℕ) (m : Memory)
    → Shares next
    → IsWords m.tables
    → IsReadOnly m.tables
    → Protects m (each_entry (mark_entry next) n i table m)
      × ((j : ℕ)
          → i ≤ j
          → j < i + n
          → present (m.tables table j) ≡ true
          → cow ((each_entry (mark_entry next) n i table m).tables table j) ≡ true)
unfolding each_entry
each_entry-Protects next zero i table m below w r =
    (Protects-refl m w r, λ j l h p. absurd (omega (arith, l, h)))
each_entry-Protects next (suc n) i table m below w r =
    let m1 = mark_entry next i table m in
    let (one, own) = mark_entry-Protects next i table m below w r in
    let (rest, all) = each_entry-Protects next n (suc i) table m1 below one.words one.read_only in
    (
      Protects-trans m m1 (each_entry (mark_entry next) n (suc i) table m1) one rest,
      λ j l h p. elim (ℕ_discrete i j) [
        | yes e ↦
            subst
              (λ k. cow ((each_entry (mark_entry next) n (suc i) table m1).tables table k) ≡ true) e
              (rest.still table i (own (rw e p)))
        | no ne ↦ all j (omega (arith, l, ne)) (omega (arith, h)) (one.kept table j p)
      ],
    )

mark_as_cow_rec-Shares : (level : ℕ) → Shares (mark_as_cow_rec level)
unfolding mark_as_cow_rec
mark_as_cow_rec-Shares zero table m w r = Protects-refl m w r
mark_as_cow_rec-Shares (suc level) table m w r =
    (each_entry-Protects (mark_as_cow_rec level) 512 0 table m (mark_as_cow_rec-Shares level) w r).0

-- For tables of words in which no shared entry may be written: when clonePageTable gets a frame
-- other than 0 and maps it, it returns that frame, and each entry of the user half of the top table
-- that was present is shared and may not be written, in that table and in the new one.
pub clone_page_table-IsShared :
    (m : Memory) (i : ℕ)
    → IsWords m.tables
    → IsReadOnly m.tables
    → (new_page m.allocator).1 ≢ 0
    → i < 256
    → present (m.tables p4_table_virtual_address i) ≡ true
    → ((clone_page_table true m).1 ≡ (new_page m.allocator).1)
      × IsShared ((clone_page_table true m).0.tables p4_table_virtual_address i)
      × IsShared ((clone_page_table true m).2 i)
unfolding clone_page_table top_copy mark_as_cow
clone_page_table-IsShared m i w r some h p =
    let m1 : Memory = record m { allocator = (new_page m.allocator).0 } in
    let (x, all) =
      each_entry-Protects (mark_as_cow_rec 3) 256 0 p4_table_virtual_address m1
        (mark_as_cow_rec-Shares 3) w r in
    let shared = all i (omega arith) (omega (arith, h)) p in
    let frame : ((new_page m.allocator).1 == 0) ≡ false = ground (arith, some) in
    let user : (i == 511) ≡ false = ground (arith, h) in
    let both : IsShared ((mark_as_cow m1).tables p4_table_virtual_address i) = record {
      is_cow = shared;
      read_only = x.read_only p4_table_virtual_address i shared;
    } in
    rw (frame, user) (refl, both, both)
