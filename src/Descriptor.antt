-- ===== src/Descriptor.antt =====
-- Descriptors of a process: YYSloth/src/proc/descriptor.cpp and include/proc/descriptor.hpp,
-- DescriptorHandle, LocalDescriptorHandle and DescriptorTable. A pointer to a DescriptorHandle is
-- an address, `none` for a null pointer. The operations are those on a table whose `handles` is
-- not null; `reinit`, `clear` and `copy` also treat the pointer itself.
pub mod Access
pub mod Alloc
pub mod Shrink
mod Tests
use yay_os.Base.{
  ℕ, zero, suc, ◌+◌, ◌-◌, Bool, true, false, Option, none, some, List, [], ◌∷◌, ◌==◌, is_some,
  if◌then◌else◌, modify, get_elem?, not, add64, sub64, ltb, ◌&&◌, ◌||◌,
}
use yay_os.Base.Int.{ℤ, pos, negsuc, ltb_ℤ, to_int64, minus_one, pos_part}
use yay_os.DynArray.{DynArray, push_back, resize, at}

pub record LocalDescriptorHandle : Type 0 where
  pub handle : Option ℕ
  pub close_on_exec : Bool

-- `LocalDescriptorHandle()`
abbrev pub empty_handle : LocalDescriptorHandle
empty_handle = record { handle = none; close_on_exec = false }

-- `sizeof(LocalDescriptorHandle)`
abbrev pub handle_width : ℕ
handle_width = 16

abbrev pub Handles : Type 0
Handles = DynArray LocalDescriptorHandle

abbrev pub Table : Type 0
Table = Option Handles

-- A shared descriptor: what it refers to and how many tables do.
pub record DescriptorHandle : Type 0 where
  pub val : ℕ
  pub ref_count : ℕ

unfoldable pub clone : DescriptorHandle → DescriptorHandle
clone h = record h { ref_count = add64 h.ref_count 1 }

-- `none` once the handle is deleted.
unfoldable pub release : DescriptorHandle → Option DescriptorHandle
release h =
    let dropped : DescriptorHandle = record h { ref_count = sub64 h.ref_count 1 } in
    if dropped.ref_count == 0 then none else some dropped

-- `fd < 0 || fd >= (int64_t)(handles->size())`
abbrev pub is_bad : ℤ → Handles → Bool
is_bad fd t = ltb_ℤ fd (pos 0) || not (ltb_ℤ fd (to_int64 t.size))

-- The handle of an entry, null also where `at` would panic.
abbrev pub handle_at : Handles → ℕ → Option ℕ
handle_at t i = elim (at t i) [ none ↦ none | some e ↦ e.handle ]

abbrev pub write_at : Handles → ℕ → (LocalDescriptorHandle → LocalDescriptorHandle) → Handles
write_at t i f = record t { items = modify t.items i f }

unfoldable pub get_descriptor : ℤ → Handles → Option ℕ
get_descriptor fd t = if is_bad fd t then none else handle_at t (pos_part fd)

unfoldable pub set_descriptor : ℤ → Option ℕ → Handles → Handles × Bool
set_descriptor fd desc t =
    if is_bad fd t
    then (t, false)
    else (write_at t (pos_part fd) (λ e. record e { handle = desc }), true)

unfoldable pub update_close_on_exec : ℤ → Bool → Handles → Handles × Bool
update_close_on_exec fd flag t =
    if is_bad fd t
    then (t, false)
    else (write_at t (pos_part fd) (λ e. record e { close_on_exec = flag }), true)

-- The loop of `allocDescriptor`: the first null handle among `n` entries from `i` on.
unfoldable pub find_free : ℕ → ℕ → Handles → Option ℕ
find_free zero i t = none
find_free (suc n) i t =
    let rest = find_free n (i + 1) t in if is_some (handle_at t i) then rest else some i

-- The loop of `shrinkToFit`, which leaves the size behind the last handle.
unfoldable pub shrunk_size : ℕ → Handles → ℕ
shrunk_size zero t = zero
shrunk_size (suc ind) t =
    let rest = shrunk_size ind t in if is_some (handle_at t ind) then suc ind else rest

-- The loop of `onExec`.
unfoldable pub close_all : ℕ → ℕ → Handles → Handles
close_all zero i t = t
close_all (suc n) i t = close_all n (i + 1) (
    write_at t i
      (λ e. if is_some e.handle && e.close_on_exec then record e { handle = none } else e))

module _ (blend : ℕ → LocalDescriptorHandle → LocalDescriptorHandle → LocalDescriptorHandle)
    (new_array : ℕ → Option (List LocalDescriptorHandle)) where
  unfoldable pub shrink_to_fit : Handles → Handles
  unfolding shrunk_size
  shrink_to_fit t = (resize handle_width blend new_array (shrunk_size t.size t) t).0

  unfoldable pub alloc_descriptor : Handles → Handles × ℤ
  unfolding find_free
  alloc_descriptor t = elim (find_free t.size 0 t) [
    | some i ↦ (write_at t i (λ e. record e { close_on_exec = false }), to_int64 i)
    | none ↦
        let (t', pushed) = push_back handle_width blend new_array empty_handle t in
        if pushed
        then (
          write_at t' (sub64 t'.size 1) (λ e. record e { close_on_exec = false }),
          to_int64 (sub64 t'.size 1),
        )
        else (t', minus_one)
  ]

  -- The result is the `bool` as an `int64_t`.
  unfoldable pub free_descriptor : ℤ → Handles → Handles × ℤ
  unfolding shrink_to_fit
  free_descriptor fd t =
      if is_bad fd t
      then (t, pos 0)
      else (shrink_to_fit (write_at t (pos_part fd) (λ e. record e { handle = none })), pos 1)

  unfoldable pub on_exec : Handles → Handles
  unfolding shrink_to_fit close_all
  on_exec t = shrink_to_fit (close_all t.size 0 t)

  -- The loop of `copy`: the entries from `i` on are appended to `dest`. `none` when one cannot be.
  unfoldable pub copy_loop : ℕ → ℕ → Handles → Handles → Option Handles
  copy_loop zero i t dest = some dest
  copy_loop (suc n) i t dest =
      let (dest', pushed) =
        push_back handle_width blend new_array (elim (at t i) [ none ↦ empty_handle | some e ↦ e ])
          dest in
      let rest = copy_loop n (i + 1) t dest' in if pushed then rest else none

  -- `new core::DynArray<LocalDescriptorHandle>` with its `new T[16]`.
  unfoldable pub fresh_table : Table
  fresh_table = elim (new_array 16) [
    | none ↦ none
    | some items ↦ some (record { items = items; size = 0; capacity = 16; disposed = false })
  ]

  unfoldable pub reinit : Table × Bool
  unfolding fresh_table
  reinit = (fresh_table, is_some fresh_table)

  -- `copy`: a failure leaves a cleared table behind.
  unfoldable pub copy : Handles → Table → Table × Bool
  unfolding copy_loop fresh_table
  copy t dest =
      let start : Table = elim dest [ none ↦ fresh_table | some d ↦ some d ] in
      elim start [
        | none ↦ (none, false)
        | some d ↦ elim (copy_loop t.size 0 t d) [
          | some d' ↦ (some d', true)
          | none ↦ (fresh_table, false)
        ]
      ]
