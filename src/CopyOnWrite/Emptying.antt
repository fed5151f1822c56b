-- ===== src/CopyOnWrite/Emptying.antt =====
-- Freeing the memory of a process: `deallocateUserMemory` of YYSloth/src/memory/cow.cpp, and what it
-- undoes of `markAsCoW`. The tables below the entries of a process are not the top table, so that
-- clearing an entry of the top table changes no other entry that is read.
use yay_os.Base.{
  ℕ, zero, suc, ◌+◌, ◌-◌, ◌*◌, ◌/◌, ◌%◌, ◌^◌, ◌<◌, ◌≤◌, ◌≡◌, ◌≢◌, refl, ap, ◌∙◌, true, false,
  length, arith, ◌==◌, u64_mod, Bool-cases, inl, inr,
}
use yay_os.Bits.Laws.{bit_or-add, test_bit-none}
use yay_os.Paging.{Tables, present, walk_to, p4_table_virtual_address}
use yay_os.CopyOnWrite.{
  Memory, each_entry, dispose_entry, dispose_page_table_rec, deallocate_entry,
  deallocate_user_memory, mark_as_cow,
}
use yay_os.CopyOnWrite.Counting.{
  uses, uses_entry, uses_entries, references, uses-same, uses_entries-same,
}
use yay_os.CopyOnWrite.Sharing.{IsWords, user_uses, mark_as_cow-Marked}
use yay_os.CopyOnWrite.Disposal.{
  Dropped, Dropped-refl, Dropped-eq, Dropped-trans, dispose_entry-Dropped,
  dispose_page_table_rec-Disposes,
}

-- The address of a table of user memory, `d` below the end of the address space.
pub record IsBelow (a d : ℕ) : Type 0 where
  pub total : a + d ≡ u64_mod
  pub aligned : d % 4096 ≡ 0
  pub low : 8192 ≤ d
  pub high : d ≤ 2 ^ 39

pub walk_to-sum :
    (a d j : ℕ)
    → a + d ≡ u64_mod
    → d % 4096 ≡ 0
    → 4096 ≤ d
    → d ≤ 2 ^ 39
    → j < 512
    → walk_to a j + 512 * d ≡ u64_mod + 4096 * j
unfolding walk_to
walk_to-sum a d j total aligned low high h =
    let k = 2 ^ 43 - d / 4096 in
    let ne : (a == 0) ≡ false = ground (arith, total, high) in
    let e : a * 2 ^ 9 % u64_mod ≡ k * 2 ^ 21 = omega (arith, total, aligned, low, high) in
    let f : j * 2 ^ 12 % u64_mod ≡ j * 4096 = omega (arith, h) in
    rw (walk_to, ne, e, f, bit_or-add 21 k (j * 4096) (omega (arith, h)))
      (omega (arith, aligned, low, high))

-- A table below such a table, or below an entry in front of the last one of the top table, is one
-- again.
IsBelow-table :
    (a d j : ℕ) → IsBelow a d → d ≤ 2 ^ 30 → j < 512 → IsBelow (walk_to a j) (512 * d - 4096 * j)
IsBelow-table a d j b high h =
    let s = walk_to-sum a d j b.total b.aligned (omega (arith, b.low)) (omega (arith, high)) h in
    record {
      total = omega (arith, s, b.low, h);
      aligned = omega (arith, b.aligned);
      low = omega (arith, b.low, h);
      high = omega (arith, high);
    }

IsBelow-top :
    (j : ℕ) → j < 256 → IsBelow (walk_to p4_table_virtual_address j) (512 * 4096 - 4096 * j)
IsBelow-top j h =
    let s =
      walk_to-sum p4_table_virtual_address 4096 j (omega arith) (omega arith) (omega arith)
        (omega arith) (omega (arith, h)) in
    record {
      total = omega (arith, s, h);
      aligned = omega (arith, h);
      low = omega (arith, h);
      high = omega arith;
    }

-- Tables that agree but for the top table.
abbrev SameBelow : Tables → Tables → Type 0
SameBelow t t' = (a j : ℕ) → a ≢ p4_table_virtual_address → t' a j ≡ t a j

below-ne : (a d : ℕ) → IsBelow a d → a ≢ p4_table_virtual_address
below-ne a d b e = absurd (omega (arith, e, b.total, b.low))

uses_entry-eq :
    (below below' : ℕ → ℕ) (page : ℕ) (t t' : Tables) (table i : ℕ)
    → t' table i ≡ t table i
    → below' (walk_to table i) ≡ below (walk_to table i)
    → uses_entry below' page t' table i ≡ uses_entry below page t table i
uses_entry-eq below below' page t t' table i e b = rw (e, b) refl

uses_entries-eq :
    (below below' : ℕ → ℕ) (page : ℕ) (t t' : Tables) (n i table : ℕ)
    → ((j : ℕ) → i ≤ j → j < i + n → t' table j ≡ t table j)
    → ((j : ℕ) → j < i + n → below' (walk_to table j) ≡ below (walk_to table j))
    → uses_entries below' page t' n i table ≡ uses_entries below page t n i table
uses_entries-eq below below' page t t' zero i table e b = refl
uses_entries-eq below below' page t t' (suc n) i table e b = omega (
  arith,
  uses_entry-eq below below' page t t' table i (e i (omega arith) (omega arith))
      (b i (omega arith)),
  uses_entries-eq below below' page t t' n (suc i) table
      (λ j l h. e j (omega (arith, l)) (omega (arith, h))) (λ j h. b j (omega (arith, h))),
)

-- Tables below the top table count the same, whatever the top table holds.
module _ (page : ℕ) (t t' : Tables) (same : SameBelow t t') where
  uses-level :
      (level a d : ℕ)
      → IsBelow a d
      → ((j : ℕ) → j < 512 → uses level page t' (walk_to a j) ≡ uses level page t (walk_to a j))
      → uses (suc level) page t' a ≡ uses (suc level) page t a
  unfolding uses
  uses-level level a d b ih =
      uses_entries-eq (uses level page t) (uses level page t') page t t' 512 0 a
        (λ j l h. same a j (below-ne a d b)) (λ j h. ih j (omega (arith, h)))

  uses_one : (a d : ℕ) → IsBelow a d → uses 1 page t' a ≡ uses 1 page t a
  unfolding uses
  uses_one a d b = uses-level 0 a d b (λ j h. refl)

  uses_two : (a d : ℕ) → IsBelow a d → d ≤ 2 ^ 30 → uses 2 page t' a ≡ uses 2 page t a
  uses_two a d b high =
      uses-level 1 a d b
        (λ j h. uses_one (walk_to a j) (512 * d - 4096 * j) (IsBelow-table a d j b high h))

  uses_three : (a d : ℕ) → IsBelow a d → d ≤ 2 ^ 21 → uses 3 page t' a ≡ uses 3 page t a
  uses_three a d b high = uses-level 2 a d b (λ j h.
      uses_two (walk_to a j) (512 * d - 4096 * j) (IsBelow-table a d j b (omega (arith, high)) h)
        (omega (arith, high)))

  user_entries-eq :
      (n i : ℕ)
      → i + n ≤ 256
      → ((j : ℕ) → i ≤ j → t' p4_table_virtual_address j ≡ t p4_table_virtual_address j)
      → uses_entries (uses 3 page t') page t' n i p4_table_virtual_address
        ≡ uses_entries (uses 3 page t) page t n i p4_table_virtual_address
  user_entries-eq n i h e =
      uses_entries-eq (uses 3 page t) (uses 3 page t') page t t' n i p4_table_virtual_address
        (λ j l k. e j l)
        (λ j k.
          uses_three (walk_to p4_table_virtual_address j) (512 * 4096 - 4096 * j)
            (IsBelow-top j (omega (arith, h, k))) (omega arith))

-- Entries of the top table were cleared and what they refer to was given back.
pub record Emptied (m m' : Memory) (n i : ℕ) : Type 0 where
  pub dropped :
      Dropped m m' (λ p. uses_entries (uses 3 p m.tables) p m.tables n i p4_table_virtual_address)
  pub below : SameBelow m.tables m'.tables
  pub behind :
      (j : ℕ)
      → i + n ≤ j
      → m'.tables p4_table_virtual_address j ≡ m.tables p4_table_virtual_address j
  pub before :
      (j : ℕ) → j < i → m'.tables p4_table_virtual_address j ≡ m.tables p4_table_virtual_address j
  pub gone : (j : ℕ) → i ≤ j → j < i + n → present (m'.tables p4_table_virtual_address j) ≡ false

deallocate_entry-Emptied :
    (m : Memory) (i : ℕ) → i < 256 → Emptied m (deallocate_entry i p4_table_virtual_address m) 1 i
unfolding deallocate_entry
deallocate_entry-Emptied m i h =
    let top = p4_table_virtual_address in
    elim (Bool-cases (present (m.tables top i))) [
      | inr absent ↦
          rw (deallocate_entry, absent)
            (record {
              dropped = Dropped-eq m m (λ p. 0) _ (λ p. ground (arith, absent)) (Dropped-refl m);
              below = λ a j ne. refl;
              behind = λ j l. refl;
              before = λ j l. refl;
              gone = λ j l k. let e : j ≡ i = omega (arith, l, k) in rw e absent;
            })
      | inl there ↦
          let m1 = dispose_entry (dispose_page_table_rec 3) i top m in
          let (same, one) =
            dispose_entry-Dropped 3 (dispose_page_table_rec 3) i top m
              (dispose_page_table_rec-Disposes 3) in
          let read : (a j : ℕ) → m1.tables a j ≡ m.tables a j =
            λ a j. ap (λ (t : Tables). t a j) same in
          let sum : Dropped m m1
              (λ p. uses_entries (uses 3 p m.tables) p m.tables 1 i p4_table_virtual_address) =
            Dropped-eq m m1 _ _ (λ p. omega arith) one in
          rw (deallocate_entry, there)
            (record {
              dropped = record { kept = sum.kept; counted = sum.counted };
              below = λ a j ne. ground (arith, ne, read a j);
              behind = λ j l. ground (arith, l, read top j);
              before = λ j l. ground (arith, l, read top j);
              gone =
                  λ j l k. let e : (j == i) ≡ true = ground (arith, l, k) in rw e (test_bit-none 0);
            })
    ]

deallocate-Emptied :
    (n i : ℕ) (m : Memory)
    → i + n ≤ 256
    → Emptied m (each_entry deallocate_entry n i p4_table_virtual_address m) n i
unfolding each_entry
deallocate-Emptied zero i m h = record {
  dropped = Dropped-refl m;
  below = λ a j ne. refl;
  behind = λ j l. refl;
  before = λ j l. refl;
  gone = λ j l k. absurd (omega (arith, l, k));
}
deallocate-Emptied (suc n) i m h =
    let top = p4_table_virtual_address in
    let m1 = deallocate_entry i top m in
    let m2 = each_entry deallocate_entry n (suc i) top m1 in
    let one = deallocate_entry-Emptied m i (omega (arith, h)) in
    let rest = deallocate-Emptied n (suc i) m1 (omega (arith, h)) in
    record {
      dropped =
          Dropped-eq m m2 _ _
            (λ p. omega (
              arith,
              user_entries-eq p m.tables m1.tables one.below n (suc i) (omega (arith, h))
                  (λ j l. one.behind j (omega (arith, l))),
            ))
            (Dropped-trans m m1 m2 _ _ one.dropped rest.dropped);
      below = λ a j ne. rest.below a j ne ∙ one.below a j ne;
      behind = λ j l. rest.behind j (omega (arith, l)) ∙ one.behind j (omega (arith, l));
      before = λ j l. rest.before j (omega (arith, l)) ∙ one.before j l;
      gone = λ j l k. elim (Bool-cases (j == i)) [
        | inl e ↦ ap present (rest.before j (ground (arith, e))) ∙ one.gone j l (ground (arith, e))
        | inr ne ↦ rest.gone j (ground (arith, l, ne)) (omega (arith, k))
      ];
    }

-- deallocateUserMemory gives back one reference of a page for each entry of a user table that refers
-- to it, and leaves no entry of the user half of the top table present.
pub deallocate_user_memory-Emptied : (m : Memory) → Emptied m (deallocate_user_memory m) 256 0
unfolding deallocate_user_memory
deallocate_user_memory-Emptied m = deallocate-Emptied 256 0 m (omega arith)

back_again :
    (r r1 r2 u u' : ℕ)
    → r1 ≡ (r + u) % u64_mod
    → (r2 + u') % u64_mod ≡ r1
    → u' ≡ u
    → r < u64_mod
    → r2 < u64_mod
    → r2 ≡ r
back_again r r1 r2 u u' a b c d e = omega (arith, a, b, c, d, e)

-- After the memory of a process is marked as shared, freeing that memory once brings the number of
-- references of every page with a counter back to what it was, and nothing of the user half of the
-- top table is left.
pub deallocate-mark :
    (m : Memory)
    → IsWords m.tables
    → ((p : ℕ)
        → p < length m.allocator.page_info
        → references m.allocator p < u64_mod
        → references (deallocate_user_memory (mark_as_cow m)).allocator p
          ≡ references m.allocator p)
      × ((i : ℕ)
          → i < 256
          → present ((deallocate_user_memory (mark_as_cow m)).tables p4_table_virtual_address i)
            ≡ false)
deallocate-mark m w =
    let m1 = mark_as_cow m in
    let marked = mark_as_cow-Marked m w in
    let e = deallocate_user_memory-Emptied m1 in
    (
      (λ p h k.
          let c = marked.counted p h k in
          let (small, back) =
            e.dropped.counted p (omega (arith, h, marked.kept)) (omega (arith, c)) in
          back_again (references m.allocator p) (references m1.allocator p)
            (references (deallocate_user_memory m1).allocator p) (user_uses p m.tables)
            (user_uses p m1.tables) c back
            (uses_entries-same (uses 3 p m.tables) (uses 3 p m1.tables) p m.tables m1.tables 256 0
              p4_table_virtual_address
              (λ j.
                uses-same 3 p m.tables m1.tables (walk_to p4_table_virtual_address j) marked.same)
              marked.same)
            k small),
      (λ i h. e.gone i (omega arith) (omega (arith, h))),
    )
