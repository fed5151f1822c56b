-- ===== src/DevFs.antt =====
-- The device file system: YYSloth/src/fs/devfs.cpp. A device's node is its address, `none` for a null
-- pointer. The root mutex is left out: an operation is one step.
pub mod Devices
mod Tests
use yay_os.Base.{
  ℕ, zero, suc, ◌+◌, ◌-◌, ◌≤◌, Bool, true, false, Option, none, some, List, [], ◌∷◌, ◌==◌, ltb, leb,
  if◌then◌else◌, modify, get_elem?, length, is_some, not, ◌&&◌,
}
use yay_os.DynArray.{DynArray, push_back, at}
use yay_os.Ramdisk.{streq}
use yay_os.Vfs.Entry.{Superblock}

pub record DeviceEntry : Type 0 where
  pub name : List ℕ
  pub node : Option ℕ

abbrev pub Devices : Type 0
Devices = DynArray DeviceEntry

-- `devices[i]`, which stays below the size.
abbrev pub device_at : Devices → ℕ → DeviceEntry
device_at ds i = elim (get_elem? ds.items i) [
  | none ↦ record { name = []; node = none }
  | some d ↦ d
]

-- The loop of `lookup` over `n` devices from `i` on.
unfoldable pub lookup_device : ℕ → ℕ → List ℕ → Devices → ℕ
lookup_device zero i name ds = 0
lookup_device (suc n) i name ds =
    let rest = lookup_device n (i + 1) name ds in
    let d = device_at ds i in
    if streq d.name name then (if is_some d.node then 2 + i else 0) else rest

unfoldable pub root_lookup : List ℕ → Devices → ℕ
root_lookup name ds = lookup_device ds.size 0 name ds

abbrev pub some_node : Option ℕ → Option (Option ℕ)
some_node none = none
some_node (some a) = some (some a)

-- The root and the devices, by number. The root is `none` in the second place.
unfoldable pub get_device_node : ℕ → Devices → Option (Option ℕ)
get_device_node num ds =
    if num == 1
    then some none
    else if not (leb 2 num && ltb num (2 + ds.size))
    then none
    else some_node (device_at ds (num - 2)).node

-- The loop of `registerDevice`: the first entry without a node.
unfoldable pub find_empty : ℕ → ℕ → Devices → Option ℕ
find_empty zero i ds = none
find_empty (suc n) i ds =
    let rest = find_empty n (i + 1) ds in if is_some (device_at ds i).node then rest else some i

abbrev pub put_entry : Devices → ℕ → DeviceEntry → Devices
put_entry ds i d = record ds { items = modify ds.items i (λ _. d) }

-- `NAME_MAX`
abbrev pub name_max : ℕ
name_max = 255

-- The node and the name are written into an entry: `none` for a name that does not fit into the
-- array of the entry with its end.
unfoldable pub put_device : Devices → ℕ → DeviceEntry → Option Devices
put_device ds i d = if leb (length d.name) name_max then some (put_entry ds i d) else none

abbrev with_true : Option Devices → Option (Devices × Bool)
with_true none = none
with_true (some ds) = some (ds, true)

module _ (width : ℕ) (blend : ℕ → DeviceEntry → DeviceEntry → DeviceEntry)
    (new_array : ℕ → Option (List DeviceEntry)) where
  -- The end of `registerDevice`, with the entry that is free.
  unfoldable pub register_at : DeviceEntry → Devices → Option ℕ → Option (Devices × Bool)
  register_at d ds (some i) = with_true (put_device ds i d)
  register_at d ds none =
      let (ds', pushed) = push_back width blend new_array (record { name = []; node = none }) ds in
      if pushed then with_true (put_device ds' (ds'.size - 1) d) else some (ds', false)

  unfoldable pub register_device : List ℕ → ℕ → Devices → Option (Devices × Bool)
  register_device name node ds =
      register_at (record { name = name; node = some node }) ds (find_empty ds.size 0 ds)

-- The file system as the virtual file system sees it: only the root is a directory, and it opens.
-- Whether a device opens is its own matter, and there may be memory for
-- the nodes of the tree or not.
unfoldable pub device_superblock : (ℕ → Bool) → (ℕ → Bool → Bool) → Devices → Superblock
device_superblock allocates device_opens ds = record {
  root_num = 1;
  lookup = λ n name. if n == 1 then root_lookup name ds else 0;
  has_node = λ n. is_some (get_device_node n ds);
  opens = λ n writable. if n == 1 then true else device_opens n writable;
  allocates = allocates;
}
