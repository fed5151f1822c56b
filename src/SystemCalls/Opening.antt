-- ===== src/SystemCalls/Opening.antt =====
-- Opening and closing files by system calls.
use yay_os.Base.{
  ℕ, suc, ◌+◌, ◌-◌, ◌^◌, ◌≤◌, ◌<◌, ◌≡◌, ◌≢◌, ◌⊎◌, refl, dec_lt, sym, subst, ap, ◌∙◌, inl, inr, Bool,
  true, false, Option, none, some, List, arith, if◌then◌else◌, is_some, ◌==◌, Option-cases, u64_mod,
}
use yay_os.Base.Int.{ℤ, pos}
use yay_os.Paging.{Tables}
use yay_os.Security.{validate_c_string}
use yay_os.DynArray.{at}
use yay_os.DynArray.Contents.{IsValid}
use yay_os.Descriptor.{
  LocalDescriptorHandle, Handles, DescriptorHandle, handle_at, get_descriptor, shrunk_size,
  alloc_descriptor, free_descriptor, release,
}
use yay_os.Descriptor.Alloc.{Allocated, alloc_descriptor-lowest}
use yay_os.Descriptor.Shrink.{IsShrunk, shrunk_size_lem, free_descriptor-null}
use yay_os.SystemCalls.{
  State, open_file, open_handle, close_file, release_handle, max_open_file_path, freed,
  is_minus_one,
}

-- The table has room for a descriptor and ends with an open one.
pub record IsFit (t : Handles) : Type 0 where
  pub valid : IsValid t
  pub space : t.size + 1 < t.capacity
  pub small : t.size + 1 < 2 ^ 63
  pub shrunk : shrunk_size t.size t ≡ t.size

handle_at-end : (t : Handles) → is_some (handle_at t t.size) ≡ false
unfolding at
handle_at-end t = ground arith

size_bound : (t : Handles) (k : ℕ) → ((j : ℕ) → j < k → is_some (handle_at t j) ≡ true) → k ≤ t.size
size_bound t k low = elim (dec_lt t.size k) [
  | yes above ↦ absurd (ground (arith, low t.size above, handle_at-end t))
  | no within ↦ omega (arith, within)
]

-- The last descriptor of the grown table is the new one, or it was open before.
last_entry :
    (t t' : Handles) (k : ℕ)
    → IsFit t
    → Allocated t k t'
    → (t'.size ≡ suc k)
      ⊎ ((j : ℕ) × (t'.size ≡ suc j) × (k ≢ j) × (is_some (handle_at t' j) ≡ true))
last_entry t t' k f a = elim (dec_lt k t.size) [
  | no new ↦ inl (omega (arith, a.grown, new, size_bound t k a.lowest))
  | yes old ↦
      let j = t.size - 1 in
      let used : is_some (handle_at t' j) ≡ true = rw (a.kept j) (
        (subst (IsShrunk t t.size) f.shrunk (shrunk_size_lem t.size t)).last j
          (omega (arith, old))) in
      inr (j, omega (arith, a.grown, old), apart t' k j a.is_null used, used)
]
  where
    apart : (t : Handles) (k j : ℕ) → handle_at t k ≡ none → is_some (handle_at t j) ≡ true → k ≢ j
    apart t k j null used same =
        absurd (ground (arith, used, subst (λ q. handle_at t q ≡ none) same null))

release-table :
    {File : Type 0} (handle : ℕ) (h : DescriptorHandle) (s : State File)
    → (release_handle handle h s).table ≡ s.table
unfolding release_handle
release-table handle h s = elim (Option-cases (release h)) [
  | inl gone ↦ rw (release_handle, gone) refl
  | inr (h', kept) ↦ rw (release_handle, kept) refl
]

module _ (blend : ℕ → LocalDescriptorHandle → LocalDescriptorHandle → LocalDescriptorHandle)
    (new_array : ℕ → Option (List LocalDescriptorHandle)) where
  -- A number that was allocated and is freed again is null.
  freed_number :
      (t t' : Handles) (k : ℕ)
      → IsFit t
      → Allocated t k t'
      → get_descriptor (pos k) (free_descriptor blend new_array (pos k) t').0 ≡ none
  freed_number t t' k f a =
      free_descriptor-null blend new_array t' k a.valid a.in_table
        (omega (arith, a.grown, f.small, a.in_table, size_bound t k a.lowest))
        (last_entry t t' k f a)

  module _ {File : Type 0} (tables : Tables) (bytes : ℕ → ℕ) (vfs_open : ℕ → Bool → Option File)
      (new_file handle : ℕ) where
    abbrev pub call : ℕ → Bool → State File → State File × ℤ
    call = open_file blend new_array tables bytes vfs_open new_file (some handle)

    -- The end of a call that finds its file.
    call-found :
        (path : ℕ) (writable : Bool) (file : File) (s : State File) (k : ℕ)
        → validate_c_string tables bytes path true false false max_open_file_path ≡ true
        → vfs_open path writable ≡ some file
        → (alloc_descriptor blend new_array s.table).1 ≡ pos k
        → call path writable s
          ≡ open_handle blend new_array tables bytes vfs_open new_file
              (some handle)
              (pos k)
              file
              (record s { table = (alloc_descriptor blend new_array s.table).0 })
    unfolding open_file
    call-found path writable file s k checked found e =
        let got : is_minus_one (alloc_descriptor blend new_array s.table).1 ≡ false =
          subst (λ i. is_minus_one i ≡ false) (sym e) refl in
        rw (checked, got, found)
          (ap
            (λ i.
              open_handle blend new_array tables bytes vfs_open new_file (some handle) i file
                (record s { table = (alloc_descriptor blend new_array s.table).0 }))
            e)

    -- The descriptor that a successful open returns is null afterwards: with a table that has room
    -- and ends with an open descriptor, a path that passes its check, a file found and memory for
    -- its handle, `YY_OpenFile` returns a number, and the table holds nothing under it.
    pub open_file-null :
        (path : ℕ) (writable : Bool) (file : File) (s : State File)
        → IsFit s.table
        → validate_c_string tables bytes path true false false max_open_file_path ≡ true
        → vfs_open path writable ≡ some file
        → (k : ℕ) × ((call path writable s).1 ≡ pos k)
          × (get_descriptor (pos k) ((call path writable s).0).table ≡ none)
    unfolding open_handle
    open_file-null path writable file s f checked found =
        let (k, e, a) = alloc_descriptor-lowest blend new_array s.table f.valid f.space f.small in
        let null = freed_number s.table _ k f a in
        let done = call-found path writable file s k checked found e in
        (k, ap (λ r. r.1) done, rw done null)

  -- Closing an open descriptor that is the last one, or is not the last one while that is open,
  -- returns 0 and makes the descriptor null; the handle loses a reference, and with its last one
  -- the handle and its file are gone.
  pub close_file-null :
      {File : Type 0} (k handle : ℕ) (h : DescriptorHandle) (s : State File)
      → IsValid s.table
      → k < s.table.size
      → s.table.size < 2 ^ 63
      → get_descriptor (pos k) s.table ≡ some handle
      → s.handles handle ≡ some h
      → 0 < h.ref_count
      → h.ref_count < u64_mod
      → (s.table.size ≡ suc k)
        ⊎ ((j : ℕ) × (s.table.size ≡ suc j) × (k ≢ j) × (is_some (handle_at s.table j) ≡ true))
      → (s' : State File) × (close_file blend new_array (pos k) s ≡ some (s', pos 0))
        × (get_descriptor (pos k) s'.table ≡ none)
        × (s'.handles handle
            ≡ (if h.ref_count == 1 then none else some (record h { ref_count = h.ref_count - 1 })))
        × (s'.files h.val ≡ (if h.ref_count == 1 then none else s.files h.val))
  unfolding close_file release_handle release
  close_file-null k handle h s v inside small at alive some_left word last =
      let null = free_descriptor-null blend new_array s.table k v inside small last in
      let s' = freed blend new_array (pos k) (release_handle handle h s) in
      (
        s',
        rw (close_file, at, alive) refl,
        ap (λ t. get_descriptor (pos k) (free_descriptor blend new_array (pos k) t).0)
              (release-table handle h s)
            ∙ null,
        ground (arith, some_left, word),
        ground (arith, some_left, word),
      )
