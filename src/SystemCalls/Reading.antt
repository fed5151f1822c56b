-- ===== src/SystemCalls/Reading.antt =====
-- Reading files by system calls.
use yay_os.Base.{
  ℕ, ◌+◌, ◌-◌, ◌^◌, ◌≤◌, ◌<◌, ◌≡◌, refl, subst, ◌∙◌, inl, inr, Bool, true, false, none, some, List,
  length, length-take, Option-cases, [], take, drop, arith, not, if◌then◌else◌, u64_mod,
}
use yay_os.Base.Int.{ℤ, pos, negsuc, to_uint64, ltb_ℤ}
use yay_os.Files.{Outcome, ramdisk_file}
use yay_os.Paging.{Tables, page_size}
use yay_os.Security.{virtual_page_condition_check, virtual_range_condition_check}
use yay_os.Security.Ranges.{range_check_lem, range_check-wraps}
use yay_os.Descriptor.{DescriptorHandle, get_descriptor}
use yay_os.Ramdisk.{RamdiskFileView}
use yay_os.Ramdisk.Reading.{IsValid, count, read_lem, read_negative}
use yay_os.Ramdisk
use yay_os.SystemCalls.{State, Result, on_file, read_file, put, failure, max_file_io_buf_size}

-- The descriptor refers to a file.
pub record IsOpen {File : Type 0} (fd : ℤ) (s : State File) (file : File) : Type 0 where
  pub handle : ℕ
  pub shared : DescriptorHandle
  pub in_table : get_descriptor fd s.table ≡ some handle
  pub alive : s.handles handle ≡ some shared
  pub stored : s.files shared.val ≡ some file

-- The state in which the file has changed.
abbrev pub with_file :
    {File : Type 0} {fd : ℤ} {s : State File} {file : File} → IsOpen fd s file → File → State File
with_file {s = s} o file' = record s { files = put s.files o.shared.val (some file') }

pub on_file-open :
    {File : Type 0} (fd : ℤ) (s : State File) (file : File) (o : IsOpen fd s file)
    (operation : File → Outcome File)
    → on_file fd operation s
      ≡ some (with_file o (operation file).0, (operation file).1, (operation file).2)
unfolding on_file
on_file-open fd s file o operation = rw (on_file, o.in_table, o.alive, o.stored) refl

pub on_file-closed :
    {File : Type 0} (fd : ℤ) (s : State File) (operation : File → Outcome File)
    → get_descriptor fd s.table ≡ none
    → on_file fd operation s ≡ failure s
unfolding on_file
on_file-closed fd s operation h = rw (on_file, h) refl

-- A read of at most 65536 bytes into a buffer that passes the check, from a descriptor of a ramdisk file smaller than 2^62, stores
-- the next bytes of the file in the buffer, as many as asked for or as are left, returns their
-- number and moves the file behind them.
pub read_file-ramdisk :
    (tables : Tables) (fd : ℤ) (buf n : ℕ) (s : State RamdiskFileView) (v : RamdiskFileView)
    (o : IsOpen fd s v)
    → IsValid v
    → n ≤ 65536
    → virtual_range_condition_check tables buf n true true false ≡ true
    → read_file ramdisk_file tables fd buf (pos n) s
      ≡ some (
        with_file o (record v { file_offset = v.file_offset + count n v }),
        pos (count n v),
        take (count n v) (drop v.file_offset v.node.contents),
      )
unfolding read_file ramdisk_file
read_file-ramdisk tables fd buf n s v o i h check =
    let small : ltb_ℤ max_file_io_buf_size (pos n) ≡ false = ground (arith, h) in
    let same : to_uint64 (pos n) ≡ n = omega (arith, h) in
    let passes : virtual_range_condition_check tables buf (to_uint64 (pos n)) true true false
        ≡ true =
      rw same check in
    let (a, b, c, d) = read_lem v n i (omega (arith, h)) in
    rw (small, passes) (on_file-open fd s v o (Ramdisk.read (pos n)) ∙ (rw (a, b, c) refl))

-- The bytes that a call stores.
abbrev pub stored : {File : Type 0} → Result File → List ℕ
stored none = []
stored (some (s, r, bytes)) = bytes

length-read :
    (v : RamdiskFileView) (n : ℕ) → IsValid v → n < 2 ^ 62 → length (Ramdisk.read (pos n) v).2 ≤ n
length-read v n i h =
    let (a, b, c, d) = read_lem v n i h in
    rw c (omega (arith, length-take (count n v) (drop v.file_offset v.node.contents)))

length-stored :
    (fd : ℤ) (n : ℕ) (s : State RamdiskFileView)
    → ((a : ℕ) (v : RamdiskFileView) → s.files a ≡ some v → IsValid v)
    → n < 2 ^ 62
    → length (stored (on_file fd (Ramdisk.read (pos n)) s)) ≤ n
unfolding on_file
length-stored fd n s valid h = elim (Option-cases (get_descriptor fd s.table)) [
  | inl closed ↦ rw (on_file, closed) (omega arith)
  | inr (a, open_) ↦ elim (Option-cases (s.handles a)) [
    | inl gone ↦ rw (on_file, open_, gone) (omega arith)
    | inr (shared, alive) ↦ elim (Option-cases (s.files shared.val)) [
      | inl gone ↦ rw (on_file, open_, alive, gone) (omega arith)
      | inr (v, here) ↦
          rw (on_file, open_, alive, here) (length-read v n (valid shared.val v here) h)
    ]
  ]
]

-- A read of a positive number of bytes stores no byte outside the pages that the process may
-- write: where the open files are ramdisk files smaller than 2^62 and the buffer ends a page below
-- 2^64, each byte stored falls on a page that passes the check for a writable page of a user.
pub read_file-within :
    (tables : Tables) (fd : ℤ) (buf n : ℕ) (s : State RamdiskFileView)
    → ((a : ℕ) (v : RamdiskFileView) → s.files a ≡ some v → IsValid v)
    → 0 < n
    → buf + n + page_size ≤ u64_mod
    → (i : ℕ) → i < length (stored (read_file ramdisk_file tables fd buf (pos n) s))
    → virtual_page_condition_check tables (buf + i) true true false ≡ true
unfolding read_file ramdisk_file
read_file-within tables fd buf n s valid h fits i inside =
    let (small, checked, here) = guarded (ltb_ℤ max_file_io_buf_size (pos n)) _ _ inside in
    let range =
      subst (λ k. virtual_range_condition_check tables buf k true true false ≡ true)
        (omega (arith, fits, h)) checked in
    let bound = length-stored fd n s valid (ground (arith, small)) in
    (range_check_lem tables true true false buf n h fits).0 range (buf + i) (omega arith)
      (omega (arith, here, bound))
  where
    guarded :
        (large : Bool) (ok : Bool) (r : Result RamdiskFileView)
        → i < length (stored (if large then failure s else if not ok then failure s else r))
        → (large ≡ false) × (ok ≡ true) × (i < length (stored r))
    guarded true ok r l = absurd (omega (arith, l))
    guarded false true r l = (refl, refl, l)
    guarded false false r l = absurd (omega (arith, l))

-- A read of a negative number of bytes passes both checks at every address above the number,
-- whatever the page tables are, and from a descriptor of a ramdisk file smaller than 2^62 returns
-- all that the file has left, if the number reaches back beyond the start of the file.
pub read_file-negative :
    (tables : Tables) (fd : ℤ) (buf n : ℕ) (s : State RamdiskFileView) (v : RamdiskFileView)
    (o : IsOpen fd s v)
    → IsValid v
    → v.file_offset ≤ n
    → n < 2 ^ 62
    → 4095 ≤ n
    → n < buf
    → buf < u64_mod
    → read_file ramdisk_file tables fd buf (negsuc n) s
      ≡ some (
        with_file o (Ramdisk.read (negsuc n) v).0,
        pos (v.node.file_size - v.file_offset),
        (Ramdisk.read (negsuc n) v).2,
      )
unfolding read_file ramdisk_file
read_file-negative tables fd buf n s v o i h k low above word =
    let small : ltb_ℤ max_file_io_buf_size (negsuc n) ≡ false = ground arith in
    let passes =
      range_check-wraps tables true true false buf (to_uint64 (negsuc n)) word
        (omega (arith, low, k)) (omega (arith, above, k)) in
    rw (small, passes)
      (on_file-open fd s v o (Ramdisk.read (negsuc n)) ∙ (rw (read_negative v n i h k) refl))
