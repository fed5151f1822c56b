-- ===== src/Elf.antt =====
-- The loader of ELF programs: YYSloth/src/proc/elf.cpp. The reading of a structure out of the bytes of a
-- file is a parameter, `header_of` and `entries_of`; `width` bytes make an entry.
pub mod Areas
mod Tests
use Prim.Native.Nat.{bit_and, bit_or}
use yay_os.Base.{
  ℕ, zero, suc, ◌+◌, ◌-◌, ◌*◌, ◌^◌, Bool, true, false, Option, none, some, List, [], ◌∷◌, ◌==◌, ltb,
  if◌then◌else◌, add64, sub64, not, ◌&&◌, ◌||◌,
}
use yay_os.Base.Int.{ℤ, pos, negsuc, ltb_ℤ, to_uint64, to_int64}
use yay_os.Utils.{align_up, align_down}
use yay_os.Ramdisk.{streq}
use yay_os.Files.{IDescriptor}
use yay_os.Mapper.{PageMapper, map_pages, free_pages}
use yay_os.UserMemory.{Area, reserve}

-- The fields that the loader reads.
pub record ElfHeader : Type 0 where
  pub magic : List ℕ
  pub file_class : ℕ
  pub data_encoding : ℕ
  pub abi : ℕ
  pub abi_version : ℕ
  pub type_ : ℕ
  pub machine : ℕ
  pub version : ℕ
  pub entry_point : ℕ
  pub program_header_offset : ℤ
  pub header_size : ℕ
  pub program_entry_size : ℕ
  pub program_entry_count : ℕ

abbrev pub elf_magic : List ℕ
elf_magic = 127 ∷ b'E' ∷ b'L' ∷ b'F' ∷ []

unfoldable pub verify : ElfHeader → Bool
verify h = not (
    not (streq h.magic elf_magic)
    || not (h.file_class == 2)
    || not (h.data_encoding == 1)
    || not (h.abi == 0)
    || not (h.abi_version == 0)
    || not (h.type_ == 2)
    || not (h.machine == 62)
    || not (h.version == 1)
    || not (h.header_size == 64)
    || ltb_ℤ h.program_header_offset (pos h.header_size)
    || not (h.program_entry_size == 56))

pub record ElfProgramHeaderEntry : Type 0 where
  pub type_ : ℕ
  pub flags : ℕ
  pub offset : ℤ
  pub vaddr : ℕ
  pub file_size : ℤ
  pub memory_size : ℕ

-- An entry that is not required has no area.
pub record ElfMemoryArea : Type 0 where
  pub mapping_flags : ℕ
  pub memory_base : ℕ
  pub memory_offset : ℕ
  pub memory_limit : ℕ
  pub file_offset : ℤ
  pub file_size : ℤ

unfoldable pub mapping_flags_of : ℕ → ℕ
mapping_flags_of flags =
    let mask = bit_or (2 ^ 0) (2 ^ 2) in
    let mask = if bit_and flags 2 == 2 then bit_or mask (2 ^ 1) else mask in
    if not (bit_and flags 1 == 1) then bit_or mask (2 ^ 63) else mask

unfoldable pub area_of : ElfProgramHeaderEntry → ElfMemoryArea
area_of e = record {
  mapping_flags = mapping_flags_of e.flags;
  memory_base = align_down e.vaddr 4096;
  memory_offset = e.vaddr;
  memory_limit = align_up (add64 e.vaddr e.memory_size) 4096;
  file_offset = e.offset;
  file_size = e.file_size;
}

-- In front of the other areas, unless they are refused.
abbrev pub add_area :
    Option ElfMemoryArea
    → Option (List (Option ElfMemoryArea))
    → Option (List (Option ElfMemoryArea))
add_area a none = none
add_area a (some rest) = some (a ∷ rest)

-- The loop over the entries, with `prevEnd`: `none` where they are refused.
unfoldable pub parse_entries : ℕ → List ElfProgramHeaderEntry → Option (List (Option ElfMemoryArea))
parse_entries prev_end [] = some []
parse_entries prev_end (e ∷ entries) =
    let skipped = parse_entries prev_end entries in
    let a = area_of e in
    let rest = parse_entries a.memory_limit entries in
    if e.type_ == 0
    then add_area none skipped
    else if not (e.type_ == 1) || ltb a.memory_base prev_end || ltb_ℤ e.file_size (pos 0)
    then none
    else add_area (some a) rest

-- `sizeof(ElfHeader)`, and `sizeof(ElfMemoryArea)`, which is that of an entry too.
abbrev pub header_width : ℕ
header_width = 64

abbrev pub entry_width : ℕ
entry_width = 56

abbrev pub is_count : ℤ → ℕ → Bool
is_count (pos n) k = n == k
is_count (negsuc n) k = false

module _ {File : Type 0} (ops : IDescriptor File) where
  -- `parseElf`, with the file afterwards.
  unfoldable pub parse_elf :
      (List ℕ → ElfHeader)
      → (List ℕ → ℕ → List ElfProgramHeaderEntry)
      → File
      → File × Option (ElfHeader × List (Option ElfMemoryArea))
  parse_elf header_of entries_of file =
      let (file1, got, bytes) = ops.read (pos header_width) file in
      let head = header_of bytes in
      let (file2, place, _) = ops.lseek head.program_header_offset (pos 0) file1 in
      let to_read = head.program_entry_count * entry_width in
      let (file3, got', bytes') = ops.read (pos to_read) file2 in
      let areas = parse_entries 4096 (entries_of bytes' head.program_entry_count) in
      if not (is_count got header_width)
      then (file1, none)
      else if not (verify head)
      then (file1, none)
      else if ltb_ℤ place (pos 0)
      then (file2, none)
      else if not (is_count got' to_read)
      then (file3, none)
      else (file3, elim areas [ none ↦ none | some l ↦ some (head, l) ])
