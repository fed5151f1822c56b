-- ===== src/DevFs/Tests.antt =====
-- A table of one device to which another is added.
use yay_os.Base.{
  ℕ, ◌+◌, ◌<◌, ◌≡◌, refl, true, false, Option, none, some, List, [], ◌∷◌, arith, replicate, subst,
}
use yay_os.Ramdisk.{streq}
use yay_os.DynArray.Contents.{IsValid}
use yay_os.DevFs.{DeviceEntry, Devices, device_at, root_lookup, get_device_node, register_device}
use yay_os.DevFs.Devices.{register_device-found}

abbrev empty : DeviceEntry
empty = record { name = []; node = none }

abbrev one_device : Devices
one_device = record {
  items = record { name = b'a' ∷ []; node = some 7 } ∷ replicate 15 empty;
  size = 1;
  capacity = 16;
  disposed = false;
}

one_device-IsValid : IsValid one_device
one_device-IsValid = record { allocated = refl; room = omega arith }

other_names : (j : ℕ) → j < 1 → streq (device_at one_device j).name (b'b' ∷ []) ≡ false
unfolding streq
other_names j h =
    let first : 0 ≡ j = omega (arith, h) in
    subst (λ q. streq (device_at one_device q).name (b'b' ∷ []) ≡ false) first refl

abbrev no_memory : ℕ → Option (List DeviceEntry)
no_memory n = none

abbrev keep : ℕ → DeviceEntry → DeviceEntry → DeviceEntry
keep n a b = a

register_device-found_example :
    (ds : Devices) × (register_device 264 keep no_memory (b'b' ∷ []) 9 one_device ≡ some (ds, true))
    × ((k : ℕ) × (root_lookup (b'b' ∷ []) ds ≡ 2 + k)
        × (get_device_node (2 + k) ds ≡ some (some 9)))
register_device-found_example =
    register_device-found 264 keep no_memory one_device (b'b' ∷ []) 9 one_device-IsValid
      (omega arith) (omega arith) other_names
