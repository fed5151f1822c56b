-- ===== src/Files.antt =====
-- The interface of an open file, `proc::IDescriptor` of YYSloth/include/proc/descriptor.hpp, with
-- the operations that YYSloth/src/proc/descriptor.cpp gives to a file that has none of its own, and
-- the files of the initial ramdisk, YYSloth/src/fs/ramdiskfs.cpp, as such a file. An operation
-- gives the file afterwards, its result and the bytes that it stores in the buffer of the caller.
use yay_os.Base.{ℕ, List, []}
use yay_os.Base.Int.{ℤ, minus_one}
use yay_os.Ramdisk.{RamdiskFileView}
use yay_os.Ramdisk

abbrev pub Outcome : Type 0 → Type 0
Outcome File = File × ℤ × List ℕ

pub record IDescriptor (File : Type 0) : Type 0 where
  pub read : ℤ → File → Outcome File
  pub write : ℤ → List ℕ → File → Outcome File
  pub readdir : ℕ → File → Outcome File
  pub lseek : ℤ → ℤ → File → Outcome File
  pub ltellg : File → Outcome File
  pub handle_cmd : ℤ → ℕ → File → Outcome File

-- An operation that the file has not.
unfoldable pub refuse : {File : Type 0} → File → Outcome File
refuse file = (file, minus_one, [])

unfoldable pub no_operations : {File : Type 0} → IDescriptor File
unfolding refuse
no_operations = record {
  read = λ size file. refuse file;
  write = λ size bytes file. refuse file;
  readdir = λ count file. refuse file;
  lseek = λ offset whence file. refuse file;
  ltellg = refuse;
  handle_cmd = λ cmd buf file. refuse file;
}

-- `RamdiskFileView` overrides three of them.
unfoldable pub ramdisk_file : IDescriptor RamdiskFileView
unfolding no_operations
ramdisk_file = record no_operations {
  read = Ramdisk.read;
  lseek = λ offset whence file.
      ((Ramdisk.lseek offset whence file).0, (Ramdisk.lseek offset whence file).1, []);
  ltellg = λ file. (file, Ramdisk.ltellg file, []);
}
