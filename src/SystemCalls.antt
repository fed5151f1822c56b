-- ===== src/SystemCalls.antt =====
-- The system calls on files: YYSloth/src/proc/userapi.cpp. The state is that of the running process
-- and of the shared descriptors; the mutex that a call holds around an operation makes it one step.
-- A call gives `none` where the source would follow a pointer to a descriptor that is gone.
pub mod Reading
pub mod Opening
pub mod Memory
pub mod Status
mod Tests
use yay_os.Base.{
  ℕ, ◌+◌, ◌*◌, ◌%◌, Bool, true, false, Option, none, some, List, [], ◌==◌, ltb, if◌then◌else◌, not,
  ◌&&◌, u64_mod,
}
use yay_os.Base.Int.{ℤ, pos, negsuc, ltb_ℤ, minus_one, to_uint64}
use yay_os.Files.{IDescriptor, Outcome}
use yay_os.Paging.{Tables}
use yay_os.Security.{virtual_range_condition_check, validate_c_string}
use yay_os.Descriptor.{
  LocalDescriptorHandle, Handles, DescriptorHandle, get_descriptor, alloc_descriptor,
  free_descriptor, release,
}

abbrev pub max_file_io_buf_size : ℤ
max_file_io_buf_size = pos 65536

abbrev pub max_open_file_path : ℕ
max_open_file_path = 4096

abbrev pub max_read_directory_buf_size : ℕ
max_read_directory_buf_size = 128

-- `sizeof(fs::Dirent)`.
abbrev pub dirent_size : ℕ
dirent_size = 266

-- `ind == -1`.
abbrev pub is_minus_one : ℤ → Bool
is_minus_one (pos n) = false
is_minus_one (negsuc n) = n == 0

-- The handles and the files are looked up by address.
pub record State (File : Type 0) : Type 0 where
  pub table : Handles
  pub handles : ℕ → Option DescriptorHandle
  pub files : ℕ → Option File

abbrev pub put : {A : Type 0} → (ℕ → Option A) → ℕ → Option A → ℕ → Option A
put map key value other = if other == key then value else map other

-- What a call leaves, returns, and stores in the buffer of the caller.
abbrev pub Result : Type 0 → Type 0
Result File = Option (State File × ℤ × List ℕ)

module _ {File : Type 0} where
  abbrev pub failure : State File → Result File
  failure s = some (s, minus_one, [])

  -- The end of a call that runs an operation of the file of a descriptor.
  unfoldable pub on_file : ℤ → (File → Outcome File) → State File → Result File
  on_file fd operation s = elim (get_descriptor fd s.table) [
    | none ↦ failure s
    | some handle ↦ elim (s.handles handle) [
      | none ↦ none
      | some h ↦ elim (s.files h.val) [
        | none ↦ none
        | some file ↦
            let (file', result, bytes) = operation file in
            some (record s { files = put s.files h.val (some file') }, result, bytes)
      ]
    ]
  ]

  module _ (ops : IDescriptor File) (tables : Tables) where
    unfoldable pub read_file : ℤ → ℕ → ℤ → State File → Result File
    read_file fd buf size s =
        if ltb_ℤ max_file_io_buf_size size
        then failure s
        else if not (virtual_range_condition_check tables buf (to_uint64 size) true true false)
        then failure s
        else on_file fd (ops.read size) s

    -- `bytes` are those from `buf` on.
    unfoldable pub write_file : ℤ → ℕ → ℤ → List ℕ → State File → Result File
    write_file fd buf size bytes s =
        if ltb_ℤ max_file_io_buf_size size
        then failure s
        else if not (virtual_range_condition_check tables buf (to_uint64 size) true true false)
        then failure s
        else on_file fd (ops.write size bytes) s

    unfoldable pub get_file_pos : ℤ → State File → Result File
    get_file_pos fd s = on_file fd ops.ltellg s

    unfoldable pub set_file_pos : ℤ → ℤ → ℤ → State File → Result File
    set_file_pos fd offset whence s = on_file fd (ops.lseek offset whence) s

    unfoldable pub read_directory : ℤ → ℕ → ℕ → State File → Result File
    read_directory fd buf count s =
        if ltb max_read_directory_buf_size count
        then failure s
        else if not (
            virtual_range_condition_check tables buf (dirent_size * count % u64_mod) true true
              false)
        then failure s
        else on_file fd (ops.readdir count) s

    unfoldable pub run_cmd_on_file : ℤ → ℤ → ℕ → State File → Result File
    run_cmd_on_file fd cmd buf s = on_file fd (ops.handle_cmd cmd buf) s

  -- `handle->release()`.
  unfoldable pub release_handle : ℕ → DescriptorHandle → State File → State File
  release_handle handle h s = elim (release h) [
    | none ↦ record s { handles = put s.handles handle none; files = put s.files h.val none }
    | some h' ↦ record s { handles = put s.handles handle (some h') }
  ]

  module _ (blend : ℕ → LocalDescriptorHandle → LocalDescriptorHandle → LocalDescriptorHandle)
      (new_array : ℕ → Option (List LocalDescriptorHandle)) where
    abbrev pub freed : ℤ → State File → State File
    freed fd s = record s { table = (free_descriptor blend new_array fd s.table).0 }

    unfoldable pub close_file : ℤ → State File → Option (State File × ℤ)
    close_file fd s = elim (get_descriptor fd s.table) [
      | none ↦ some (s, minus_one)
      | some handle ↦ elim (s.handles handle) [
        | none ↦ none
        | some h ↦ some (freed fd (release_handle handle h s), pos 0)
      ]
    ]

    -- `vfs_open` gives the file that `fs::VFS::open` finds; `new_file` and `new_handle` are the
    -- addresses that `new` gives for it and its handle, `none` without memory.
    module _ (tables : Tables) (bytes : ℕ → ℕ) (vfs_open : ℕ → Bool → Option File) (new_file : ℕ)
        (new_handle : Option ℕ) where
      -- The end of `YY_OpenFile`, with the descriptor `ind` and the file.
      unfoldable pub open_handle : ℤ → File → State File → State File × ℤ
      open_handle ind file s = elim new_handle [
        | none ↦ (freed ind s, minus_one)
        | some handle ↦ (
          freed ind (record s {
            handles = put s.handles handle (some (record { val = new_file; ref_count = 1 }));
            files = put s.files new_file (some file);
          }),
          ind,
        )
      ]

      unfoldable pub open_file : ℕ → Bool → State File → State File × ℤ
      open_file path writable s =
          if not (validate_c_string tables bytes path true false false max_open_file_path)
          then (s, minus_one)
          else let (table, ind) = alloc_descriptor blend new_array s.table in
            let s' : State File = record s { table = table } in
            if is_minus_one ind then (s', minus_one) else elim (vfs_open path writable) [
              | none ↦ (freed ind s', minus_one)
              | some file ↦ open_handle ind file s'
            ]
