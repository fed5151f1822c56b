-- ===== src/Ramdisk/Tests.antt =====
-- The theorems on the ramdisk at a small file and directory.
use yay_os.Base.{◌≡◌, refl, [], ◌∷◌, arith, some}
use yay_os.Ramdisk.{RamdiskFileView, cat_loop}
use yay_os.Ramdisk.Reading.{IsValid, cat_loop_lem}

abbrev view : RamdiskFileView
view = record { node = record { file_size = 3; contents = 7 ∷ 8 ∷ 9 ∷ [] }; file_offset = 1 }

view-IsValid : IsValid view
view-IsValid = record { inside = omega arith; small = omega arith; stored = refl }

cat_loop_lem_example : cat_loop 3 1 view ≡ some (8 ∷ 9 ∷ [])
cat_loop_lem_example = cat_loop_lem 3 1 view view-IsValid (omega arith) (omega arith) (omega arith)
