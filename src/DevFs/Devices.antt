-- ===== src/DevFs/Devices.antt =====
-- What the device file system finds.
use yay_os.Base.{
  ℕ, zero, suc, ◌+◌, ◌-◌, ◌≤◌, ◌<◌, ◌≡◌, ◌⊎◌, inl, inr, dec_lt, refl, subst, ◌∙◌, Bool, true, false,
  Option, none, some, List, [], ◌∷◌, ◌==◌, arith, if◌then◌else◌, leb, ltb, ◌&&◌, is_some,
  Bool-cases, set, length, length-set, le→leb,
}
use yay_os.DynArray.Contents.{IsValid, push_back-in_place, get_elem?-set}
use yay_os.Descriptor.Access.{get_elem?-modify, get_elem?-eq-some}
use yay_os.Ramdisk.{streq}
use yay_os.Vfs.Resolve.{IsComplete}
use yay_os.DevFs.{
  DeviceEntry, Devices, device_at, lookup_device, root_lookup, get_device_node, find_empty,
  some_node, put_device, put_entry, name_max, register_at, register_device, device_superblock,
}

-- A lookup gives 0 or the number of a device that is there.
Found : ℕ → ℕ → Devices → ℕ → Type 0
Found i end ds r =
    (r ≡ 0) ⊎ ((j : ℕ) × (r ≡ 2 + j) × (i ≤ j) × (j < end) × (is_some (device_at ds j).node ≡ true))

lookup_device-Found :
    (n i : ℕ) (name : List ℕ) (ds : Devices) → Found i (i + n) ds (lookup_device n i name ds)
unfolding lookup_device Found
lookup_device-Found zero i name ds = inl refl
lookup_device-Found (suc n) i name ds = elim (Bool-cases (streq (device_at ds i).name name)) [
  | inl named ↦ elim (Bool-cases (is_some (device_at ds i).node)) [
    | inl there ↦ rw (named, there) (inr (i, refl, omega arith, omega arith, there))
    | inr gone ↦ rw (named, gone) (inl refl)
  ]
  | inr other ↦ rw other (elim (lookup_device-Found n (i + 1) name ds) [
    | inl missing ↦ inl missing
    | inr (j, e, low, high, there) ↦ inr (j, e, omega (arith, low), omega (arith, high), there)
  ])
]

is_some-some_node : (o : Option ℕ) → is_some (some_node o) ≡ is_some o
is_some-some_node none = refl
is_some-some_node (some a) = refl

-- The number of a device gives its node.
get_device_node-device :
    (j : ℕ) (ds : Devices)
    → j < ds.size
    → get_device_node (2 + j) ds ≡ some_node (device_at ds j).node
unfolding get_device_node
get_device_node-device j ds h =
    let not_root : (2 + j == 1) ≡ false = ground arith in
    let inside : (leb 2 (2 + j) && ltb (2 + j) (2 + ds.size)) ≡ true = ground (arith, h) in
    let same : 2 + j - 2 ≡ j = omega arith in rw (not_root, inside, same) refl

lookup_has_node :
    (b : Bool) (r : ℕ) (ds : Devices)
    → Found 0 (0 + ds.size) ds r
    → 0 < (if b then r else 0)
    → is_some (get_device_node (if b then r else 0) ds) ≡ true
unfolding Found
lookup_has_node false r ds f h = absurd (omega (arith, h))
lookup_has_node true r ds (inl zero_) h = absurd (omega (arith, h, zero_))
lookup_has_node true r ds (inr (j, e, low, high, there)) h =
    rw (e, get_device_node-device j ds (omega (arith, high)))
      (is_some-some_node (device_at ds j).node ∙ there)

-- Every number that the device file system gives for a name has a node.
pub device_superblock-IsComplete :
    (allocates : ℕ → Bool) (device_opens : ℕ → Bool → Bool) (ds : Devices)
    → IsComplete (device_superblock allocates device_opens ds)
unfolding device_superblock root_lookup
device_superblock-IsComplete allocates device_opens ds n name h =
    let there =
      lookup_has_node (n == 1) (lookup_device ds.size 0 name ds) ds
        (lookup_device-Found ds.size 0 name ds) h in
    rw there refl

-- The first device with the name is found.
lookup_device-first :
    (n i k : ℕ) (name : List ℕ) (ds : Devices)
    → i ≤ k
    → k < i + n
    → ((j : ℕ) → i ≤ j → j < k → streq (device_at ds j).name name ≡ false)
    → streq (device_at ds k).name name ≡ true
    → is_some (device_at ds k).node ≡ true
    → lookup_device n i name ds ≡ 2 + k
unfolding lookup_device
lookup_device-first zero i k name ds l h before named there = absurd (omega (arith, l, h))
lookup_device-first (suc n) i k name ds l h before named there = elim (dec_lt i k) [
  | yes later ↦ rw (before i (omega arith) later) (
      lookup_device-first n (i + 1) k name ds (omega (arith, later)) (omega (arith, h))
        (λ j a b. before j (omega (arith, a)) b) named there)
  | no now ↦
      let here : k ≡ i = omega (arith, l, now) in
      let named' = subst (λ q. streq (device_at ds q).name name ≡ true) here named in
      let there' = subst (λ q. is_some (device_at ds q).node ≡ true) here there in
      rw (named', there', here) refl
]

streq_refl : (cs : List ℕ) → streq cs cs ≡ true
unfolding streq
streq_refl [] = refl
streq_refl (c ∷ cs) = let same : (c == c) ≡ true = ground arith in rw same (streq_refl cs)

find_empty-within :
    (n i : ℕ) (ds : Devices)
    → (find_empty n i ds ≡ none) ⊎ ((k : ℕ) × (find_empty n i ds ≡ some k) × (i ≤ k) × (k < i + n))
unfolding find_empty
find_empty-within zero i ds = inl refl
find_empty-within (suc n) i ds = elim (Bool-cases (is_some (device_at ds i).node)) [
  | inl used ↦ rw used (elim (find_empty-within n (i + 1) ds) [
    | inl e ↦ inl e
    | inr (k, e, low, high) ↦ inr (k, e, omega (arith, low), omega (arith, high))
  ])
  | inr empty ↦ rw empty (inr (i, refl, omega arith, omega arith))
]

device_at-put :
    (ds : Devices) (i j : ℕ) (d : DeviceEntry)
    → i < length ds.items
    → device_at (put_entry ds i d) j ≡ (if i == j then d else device_at ds j)
device_at-put ds i j d h =
    ground (arith, get_elem?-modify ds.items i j (λ _. d), get_elem?-eq-some ds.items i h)

-- A device that was put at a number is found, if no device in front of it has its name.
put_entry-found :
    (ds : Devices) (k : ℕ) (name : List ℕ) (node : ℕ)
    → k < ds.size
    → ds.size ≤ length ds.items
    → ((j : ℕ) → j < k → streq (device_at ds j).name name ≡ false)
    → (root_lookup name (put_entry ds k (record { name = name; node = some node })) ≡ 2 + k)
      × (get_device_node (2 + k) (put_entry ds k (record { name = name; node = some node }))
          ≡ some (some node))
unfolding root_lookup
put_entry-found ds k name node h fits before =
    let d : DeviceEntry = record { name = name; node = some node } in
    let ds' = put_entry ds k d in
    let same : (k == k) ≡ true = ground arith in
    let here : device_at ds' k ≡ d =
      device_at-put ds k k d (omega (arith, h, fits)) ∙ (rw same refl) in
    (
      lookup_device-first ds.size 0 k name ds' (omega arith) (omega (arith, h))
          (λ j low below.
            let other : (k == j) ≡ false = ground (arith, below) in
            rw (device_at-put ds k j d (omega (arith, h, fits)), other) (before j below))
          (rw here (streq_refl name)) (rw here refl),
      get_device_node-device k ds' h ∙ (rw here refl),
    )

device_at-pushed :
    (ds : Devices) (i j : ℕ) (d : DeviceEntry)
    → j < i
    → i < length ds.items
    → device_at (record ds { items = set ds.items i d; size = i + 1 }) j ≡ device_at ds j
device_at-pushed ds i j d h k = ground (arith, get_elem?-set ds.items i j d k, h)

put_device-fits :
    (ds : Devices) (i : ℕ) (d : DeviceEntry)
    → length d.name ≤ name_max
    → put_device ds i d ≡ some (put_entry ds i d)
unfolding put_device
put_device-fits ds i d h = rw (put_device, le→leb _ _ h) refl

-- A device with a new name is found after it is registered: in a table with room for two more
-- devices, in which no device has the name, of at most 255 bytes, `registerDevice` returns true, a
-- lookup of the name gives a number, and the number has the node of the device.
pub register_device-found :
    (width : ℕ) (blend : ℕ → DeviceEntry → DeviceEntry → DeviceEntry)
    (new_array : ℕ → Option (List DeviceEntry)) (ds : Devices) (name : List ℕ) (node : ℕ)
    → IsValid ds
    → ds.size + 1 < ds.capacity
    → length name ≤ name_max
    → ((j : ℕ) → j < ds.size → streq (device_at ds j).name name ≡ false)
    → (ds' : Devices) × (register_device width blend new_array name node ds ≡ some (ds', true))
      × ((k : ℕ) × (root_lookup name ds' ≡ 2 + k)
          × (get_device_node (2 + k) ds' ≡ some (some node)))
unfolding register_device register_at
register_device-found width blend new_array ds name node v space short before =
    let d : DeviceEntry = record { name = name; node = some node } in
    elim (find_empty-within ds.size 0 ds) [
      | inr (k, e, low, high) ↦
          let (found, at) =
            put_entry-found ds k name node (omega (arith, high))
              (omega (arith, v.allocated, v.room)) (λ j l. before j (omega (arith, l, high))) in
          (put_entry ds k d, rw (e, put_device-fits ds k d short) refl, (k, found, at))
      | inl full ↦
          let empty : DeviceEntry = record { name = []; node = none } in
          let pushed : Devices = record ds {
            items = set ds.items ds.size empty;
            size = ds.size + 1;
          } in
          let last : ds.size + 1 - 1 ≡ ds.size = omega arith in
          let (found, at) =
            put_entry-found pushed ds.size name node (omega arith)
              (omega (arith, v.allocated, space, length-set ds.items ds.size empty))
              (λ j l.
                rw (device_at-pushed ds ds.size j empty l (omega (arith, v.allocated, v.room)))
                  (before j l)) in
          (
            put_entry pushed ds.size d,
            rw
                (
                  full,
                  push_back-in_place width blend new_array ds v empty space,
                  last,
                  put_device-fits pushed ds.size d short,
                )
                refl,
            (ds.size, found, at),
          )
    ]
