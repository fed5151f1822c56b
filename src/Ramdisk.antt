-- ===== src/Ramdisk.antt =====
-- The initial ramdisk's files and directories, YYSloth/src/fs/ramdiskfs.cpp: the views that read
-- them, the lookup of a name, and the sizes of the archive. A C string is the list of its bytes in
-- front of the 0 byte. An open that asks for writing gives `none`, as one without memory does.
pub mod Reading
pub mod Lookup
mod Tests
use yay_os.Base.{
  ℕ, zero, suc, ◌+◌, ◌-◌, ◌*◌, ◌%◌, Bool, true, false, Option, none, some, List, [], ◌∷◌, ◌++◌,
  ◌==◌, ltb, if◌then◌else◌, length, get_or, get_elem?, add64, sub64, u64_mod, not, ◌&&◌, ◌||◌,
}
use yay_os.Base.Int.{ℤ, pos, negsuc, pos_part, to_int64, to_uint64, minus_one, ltb_ℤ}

pub record RamdiskFileNode : Type 0 where
  pub file_size : ℕ
  pub contents : List ℕ

pub record RamdiskFileView : Type 0 where
  pub node : RamdiskFileNode
  pub file_offset : ℕ

-- `RamdiskFileNode::open`, with whether memory is to be had.
unfoldable pub open_file : Bool → Bool → RamdiskFileNode → Option RamdiskFileView
open_file room writable node =
    if writable then none else if room then some (record { node = node; file_offset = 0 }) else none

-- The loop of `read`: the bytes it writes to the buffer.
unfoldable pub read_loop : ℕ → ℕ → List ℕ → List ℕ
read_loop zero i contents = []
read_loop (suc n) i contents = get_or contents i 0 ∷ read_loop n (i + 1) contents

-- `RamdiskFileView::read`: the view, the result, and the bytes written.
unfoldable pub read : ℤ → RamdiskFileView → RamdiskFileView × ℤ × List ℕ
unfolding read_loop
read size v =
    let real_size =
      if ltb v.node.file_size (add64 v.file_offset (to_uint64 size))
      then to_int64 (sub64 v.node.file_size v.file_offset)
      else size in
    (
      record v { file_offset = add64 v.file_offset (to_uint64 real_size) },
      real_size,
      read_loop (pos_part real_size) v.file_offset v.node.contents,
    )

abbrev pub seek_set : ℤ
seek_set = pos 0

abbrev pub seek_cur : ℤ
seek_cur = pos 1

abbrev is_seek : ℤ → ℤ → Bool
is_seek a b = not (ltb_ℤ a b) && not (ltb_ℤ b a)

-- The position that `lseek` computes.
unfoldable pub new_position : ℤ → ℤ → RamdiskFileView → ℤ
new_position offset whence v =
    if is_seek whence seek_set
    then offset
    else if is_seek whence seek_cur
    then to_int64 (add64 (to_uint64 offset) v.file_offset)
    else to_int64 (add64 (to_uint64 offset) v.node.file_size)

unfoldable pub lseek : ℤ → ℤ → RamdiskFileView → RamdiskFileView × ℤ
unfolding new_position
lseek offset whence v =
    let new_pos = new_position offset whence v in
    if ltb_ℤ new_pos (pos 0)
    then (v, minus_one)
    else if ltb_ℤ (to_int64 v.node.file_size) new_pos
    then (v, minus_one)
    else (record v { file_offset = to_uint64 new_pos }, new_pos)

unfoldable pub ltellg : RamdiskFileView → ℤ
ltellg v = to_int64 v.file_offset

-- A round of the shell's `cat`, with what the later rounds give.
unfoldable pub cat_round : Option (List ℕ) → ℤ → List ℕ → Option (List ℕ)
cat_round rest count bytes =
    if ltb_ℤ (pos 0) count
    then elim rest [ none ↦ none | some more ↦ some (bytes ++ more) ]
    else some []

-- The loop of `cat`: it reads into a buffer of `size` bytes while there is something, on fuel. The
-- bytes are those it gives to `putc`. The read is the one of the view, to which the system call in
-- between passes it on.
unfoldable pub cat_loop : ℕ → ℕ → RamdiskFileView → Option (List ℕ)
unfolding read cat_round
cat_loop zero size v = none
cat_loop (suc fuel) size v =
    let (v', count, bytes) = read (pos size) v in cat_round (cat_loop fuel size v') count bytes

-- `strhash` and `streq` of utils.hpp.
unfoldable pub hash_loop : ℕ → List ℕ → ℕ
hash_loop hash [] = hash
hash_loop hash (c ∷ cs) = hash_loop (add64 (add64 (hash * 32 % u64_mod) hash) c) cs

unfoldable pub strhash : List ℕ → ℕ
unfolding hash_loop
strhash cs = hash_loop 5381 cs

unfoldable pub streq : List ℕ → List ℕ → Bool
streq [] [] = true
streq [] (d ∷ ds) = false
streq (c ∷ cs) [] = false
streq (c ∷ cs) (d ∷ ds) = if c == d then streq cs ds else false

pub record RamdiskDirEntry : Type 0 where
  pub inode : ℕ
  pub hash : ℕ
  pub name : List ℕ

-- The loop of `RamdiskDirNode::lookup`: 0 if no entry has the name.
unfoldable pub lookup_loop : ℕ → List ℕ → List RamdiskDirEntry → ℕ
unfolding streq
lookup_loop hash name [] = 0
lookup_loop hash name (e ∷ entries) =
    let rest = lookup_loop hash name entries in
    if (e.hash == hash) && streq e.name name then e.inode else rest

unfoldable pub lookup : List ℕ → List RamdiskDirEntry → ℕ
unfolding lookup_loop strhash
lookup name entries = lookup_loop (strhash name) name entries

-- An entry as `parseHeader` makes it.
unfoldable pub entry : ℕ → List ℕ → RamdiskDirEntry
unfolding strhash
entry inode name = record { inode = inode; hash = strhash name; name = name }

-- `RamdiskFsSuperblock::getNode`: the index of the node.
unfoldable pub get_node {ℓ} : {A : Type ℓ} → ℕ → List A → Option A
get_node num nodes =
    if ltb (length nodes) num || (num == 0) then none else get_elem? nodes (num - 1)

-- `V7TarHeader::getSize`: eleven octal digits, the last one first.
unfoldable pub size_loop : ℕ → ℕ → ℕ → List ℕ → ℕ
size_loop zero result base size = result
size_loop (suc i) result base size =
    size_loop i (add64 result (sub64 (get_or size i 0) b'0' * base % u64_mod)) (base * 8 % u64_mod)
      size

unfoldable pub get_size : List ℕ → ℕ
unfolding size_loop
get_size size = size_loop 11 0 1 size
