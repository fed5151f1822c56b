-- ===== src/Ramdisk/Lookup.antt =====
-- Looking a name up in a directory of the ramdisk: the comparison of hashes loses no entry.
use yay_os.Base.{
  ℕ, ◌≡◌, refl, subst, inl, inr, true, false, List, [], ◌∷◌, ◌==◌, arith, Bool-cases, if◌then◌else◌,
}
use yay_os.Ramdisk.{strhash, streq, RamdiskDirEntry, lookup_loop, lookup, entry}

pub streq-eq : (cs ds : List ℕ) → streq cs ds ≡ true → cs ≡ ds
unfolding streq
streq-eq [] [] e = refl
streq-eq [] (d ∷ ds) e = absurd (ground (arith, e))
streq-eq (c ∷ cs) [] e = absurd (ground (arith, e))
streq-eq (c ∷ cs) (d ∷ ds) e = elim (Bool-cases (c == d)) [
  | inl y ↦
      let same : c ≡ d = ground (arith, y) in
      let rest = streq-eq cs ds (subst (λ b. (if b then streq cs ds else false) ≡ true) y e) in
      rw (same, rest) refl
  | inr n ↦ absurd (ground (arith, subst (λ b. (if b then streq cs ds else false) ≡ true) n e))
]

-- The first file of that name, 0 if there is none.
abbrev pub first_named : List ℕ → List (ℕ × List ℕ) → ℕ
first_named name [] = 0
first_named name ((inode, n) ∷ files) = if streq n name then inode else first_named name files

abbrev pub entries : List (ℕ × List ℕ) → List RamdiskDirEntry
entries [] = []
entries ((inode, n) ∷ files) = entry inode n ∷ entries files

-- In a directory with entries as `parseHeader` makes them, `lookup` gives the node of the first
-- entry with the name, and 0 if there is none.
pub lookup-entries :
    (name : List ℕ) (files : List (ℕ × List ℕ))
    → lookup name (entries files) ≡ first_named name files
unfolding lookup lookup_loop entry
lookup-entries name [] = refl
lookup-entries name ((inode, n) ∷ files) = elim (Bool-cases (streq n name)) [
  | inl y ↦
      let same : (strhash n == strhash name) ≡ true = rw (streq-eq n name y) (ground arith) in
      rw (same, y) refl
  | inr k ↦ elim (Bool-cases (strhash n == strhash name)) [
    | inl y ↦ rw (y, k) (lookup-entries name files)
    | inr m ↦ rw (m, k) (lookup-entries name files)
  ]
]
