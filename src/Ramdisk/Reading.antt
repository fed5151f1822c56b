-- ===== src/Ramdisk/Reading.antt =====
-- Reading a file of the ramdisk.
use yay_os.Base.{
  ℕ, zero, suc, ◌+◌, ◌-◌, ◌^◌, ◌≤◌, ◌<◌, ◌≡◌, refl, sym, ap, subst, inl, inr, true, false, some,
  List, [], ◌∷◌, ltb, min, arith, take, drop, drop-add, drop-all, take-append-drop, Bool-cases,
  if◌then◌else◌, length, get_or, add64, sub64,
}
use yay_os.Base.Int.{ℤ, pos, negsuc, to_int64, to_uint64, minus_one}
use yay_os.Ramdisk.{
  RamdiskFileView, read_loop, read, new_position, lseek, seek_set, cat_round, cat_loop,
}

-- The view stands in the file, whose size fits an `int64_t`.
pub record IsValid (v : RamdiskFileView) : Type 0 where
  pub inside : v.file_offset ≤ v.node.file_size
  pub small : v.node.file_size < 2 ^ 62
  pub stored : length v.node.contents ≡ v.node.file_size

drop-get_or : (i : ℕ) (xs : List ℕ) → i < length xs → drop i xs ≡ get_or xs i 0 ∷ drop (i + 1) xs
drop-get_or i [] h = absurd (omega arith)
drop-get_or zero (x ∷ xs) h = refl
drop-get_or (suc i) (x ∷ xs) h =
    let e : suc i + 1 ≡ suc (i + 1) = omega arith in rw e (drop-get_or i xs (omega arith))

read_loop-take :
    (n i : ℕ) (contents : List ℕ)
    → i + n ≤ length contents
    → read_loop n i contents ≡ take n (drop i contents)
unfolding read_loop
read_loop-take zero i contents h = refl
read_loop-take (suc n) i contents h =
    rw
      (
        drop-get_or i contents (omega (arith, h)),
        read_loop-take n (i + 1) contents (omega (arith, h)),
      )
      refl

-- The count that `read` returns.
abbrev pub count : ℕ → RamdiskFileView → ℕ
count size v = min size (v.node.file_size - v.file_offset)

real_size :
    (v : RamdiskFileView) (size : ℕ)
    → IsValid v
    → size < 2 ^ 62
    → (if ltb v.node.file_size (add64 v.file_offset (to_uint64 (pos size)))
        then to_int64 (sub64 v.node.file_size v.file_offset)
        else pos size)
      ≡ pos (count size v)
real_size v size i h = ground (arith, i.inside, i.small, h)

advanced :
    (v : RamdiskFileView) (size : ℕ)
    → IsValid v
    → add64 v.file_offset (to_uint64 (pos (count size v))) ≡ v.file_offset + count size v
advanced v size i = omega (arith, i.inside, i.small)

read-count :
    (v : RamdiskFileView) (size : ℕ)
    → IsValid v
    → size < 2 ^ 62
    → read (pos size) v ≡ (
      record v { file_offset = v.file_offset + count size v },
      pos (count size v),
      take (count size v) (drop v.file_offset v.node.contents),
    )
unfolding read
read-count v size i h =
    rw
      (
        real_size v size i h,
        advanced v size i,
        read_loop-take (count size v) v.file_offset v.node.contents
            (omega (arith, i.inside, i.stored)),
      )
      refl

-- For a view inside a file smaller than 2^62, `read` of a number of bytes below 2^62 writes the next
-- bytes of the file, as many as asked for or as are left, returns their number, moves the view
-- behind them and leaves it inside the file.
pub read_lem :
    (v : RamdiskFileView) (size : ℕ)
    → IsValid v
    → size < 2 ^ 62
    → ((read (pos size) v).0 ≡ record v { file_offset = v.file_offset + count size v })
      × ((read (pos size) v).1 ≡ pos (count size v))
      × ((read (pos size) v).2 ≡ take (count size v) (drop v.file_offset v.node.contents))
      × IsValid (read (pos size) v).0
read_lem v size i h = rw (read-count v size i h) (
  refl,
  refl,
  refl,
  record { inside = omega (arith, i.inside); small = i.small; stored = i.stored },
)

-- For a view inside a file smaller than 2^62 and a buffer of at least one byte, reading until
-- nothing is left ends and gives all bytes from the position of the view to the end of the file.
-- One round more than there are bytes left is enough fuel.
pub cat_loop_lem :
    (fuel size : ℕ) (v : RamdiskFileView)
    → IsValid v
    → 0 < size
    → size < 2 ^ 62
    → v.node.file_size < v.file_offset + fuel
    → cat_loop fuel size v ≡ some (drop v.file_offset v.node.contents)
unfolding cat_loop
cat_loop_lem zero size v i h k enough = absurd (omega (arith, i.inside, enough))
cat_loop_lem (suc fuel) size v i h k enough =
    subst
      (λ r. cat_round (cat_loop fuel size r.0) r.1 r.2 ≡ some (drop v.file_offset v.node.contents))
      (sym (read-count v size i k))
      (elim (Bool-cases (ltb 0 (count size v))) [
        | inl more ↦
            let rest =
              cat_loop_lem fuel size (record v { file_offset = v.file_offset + count size v })
                (record { inside = omega (arith, i.inside); small = i.small; stored = i.stored }) h
                k (ground (arith, enough, more)) in
            rw rest (last_round more)
        | inr done ↦ ended done
      ])
  where
    last_round :
        ltb 0 (count size v) ≡ true
        → cat_round
            (some (drop (v.file_offset + count size v) v.node.contents))
            (pos (count size v))
            (take (count size v) (drop v.file_offset v.node.contents))
          ≡ some (drop v.file_offset v.node.contents)
    last_round more =
        let test : ltb 0 (count size v + 0) ≡ true = ground (arith, more) in
        rw (test, drop-add v.file_offset (count size v) v.node.contents)
          (ap some (take-append-drop (count size v) (drop v.file_offset v.node.contents)))

    ended :
        ltb 0 (count size v) ≡ false
        → cat_round
            (cat_loop fuel size (record v { file_offset = v.file_offset + count size v }))
            (pos (count size v))
            (take (count size v) (drop v.file_offset v.node.contents))
          ≡ some (drop v.file_offset v.node.contents)
    ended done =
        let test : ltb 0 (count size v + 0) ≡ false = ground (arith, done) in
        let left : length v.node.contents ≤ v.file_offset =
          ground (arith, done, h, i.stored, i.inside) in
        rw (test, drop-all v.file_offset v.node.contents left) refl

-- `lseek` to a position from the start goes there if it lies in the file, the end included, and
-- otherwise returns -1 and changes nothing.
pub lseek_set :
    (v : RamdiskFileView) (k : ℕ)
    → IsValid v
    → lseek (pos k) seek_set v
      ≡ (if ltb v.node.file_size k then (v, minus_one) else (record v { file_offset = k }, pos k))
unfolding lseek new_position
lseek_set v k i = ground (arith, i.small)

-- Whatever offset and origin it is given, `lseek` leaves a view of a file smaller than 2^62 inside
-- its file.
pub lseek-IsValid :
    (v : RamdiskFileView) (offset whence : ℤ) → IsValid v → IsValid (lseek offset whence v).0
unfolding lseek
lseek-IsValid v offset whence i = ground (arith, i.small, i.inside, i.stored)

-- A `read` of a negative number of bytes that reaches back beyond the start of a file smaller than
-- 2^62 reads all the file has left, however small the buffer is.
pub read_negative :
    (v : RamdiskFileView) (n : ℕ)
    → IsValid v
    → v.file_offset ≤ n
    → n < 2 ^ 62
    → (read (negsuc n) v).1 ≡ pos (v.node.file_size - v.file_offset)
unfolding read
read_negative v n i h k = ground (arith, i.inside, i.small, h, k)
