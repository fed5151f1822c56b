-- ===== src/Descriptor/Tests.antt =====
-- The theorems on descriptor tables at a table with three descriptors.
use yay_os.Base.{ℕ, ◌≡◌, refl, true, false, Option, some, List, ◌∷◌, arith, replicate}
use yay_os.Base.Int.{pos}
use yay_os.DynArray.Contents.{IsValid}
use yay_os.Descriptor.{LocalDescriptorHandle, empty_handle, Handles, alloc_descriptor}
use yay_os.Descriptor.Alloc.{Allocated, alloc_descriptor-lowest}

abbrev opened : ℕ → LocalDescriptorHandle
opened h = record { handle = some h; close_on_exec = false }

abbrev table : Handles
table = record {
  items = opened 11 ∷ opened 12 ∷ opened 13 ∷ replicate 13 empty_handle;
  size = 3;
  capacity = 16;
  disposed = true;
}

table-IsValid : IsValid table
table-IsValid = record { allocated = refl; room = omega arith }

abbrev keep_old : ℕ → LocalDescriptorHandle → LocalDescriptorHandle → LocalDescriptorHandle
keep_old k d s = d

abbrev empty_memory : ℕ → Option (List LocalDescriptorHandle)
empty_memory n = some (replicate n empty_handle)

alloc_descriptor-lowest_example :
    (k : ℕ) × ((alloc_descriptor keep_old empty_memory table).1 ≡ pos k)
    × Allocated table k (alloc_descriptor keep_old empty_memory table).0
alloc_descriptor-lowest_example =
    alloc_descriptor-lowest keep_old empty_memory table table-IsValid (omega arith) (omega arith)
