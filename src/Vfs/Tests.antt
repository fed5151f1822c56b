-- ===== src/Vfs/Tests.antt =====
-- A file system with a directory `a` that holds a file `b`.
use yay_os.Base.{
  ℕ, ◌≡◌, refl, true, false, none, some, List, [], ◌∷◌, ◌==◌, arith, not, ◌&&◌, if◌then◌else◌,
}
use yay_os.Base.Int.{pos}
use yay_os.Ramdisk.{streq}
use yay_os.Vfs.Path.{path_separator, visited, new_iterator, parts_of, IsText}
use yay_os.Vfs.Path.Visits.{visited-new_iterator}
use yay_os.Vfs.Entry.{Superblock, DEntry, Tree, new_node}
use yay_os.Vfs.Walking.{walk, walk_on, get_index, Mounts, init, mount, open_path, root_tree}
use yay_os.Vfs.Chain.{IsEntry}
use yay_os.Vfs.Resolve.{IsComplete, resolve, Reaches, walk-resolve}
use yay_os.Vfs.Opening.{colon, root-Chain, open_path-mount}
use yay_os.Vfs.Missing.{walk_missing-faults}

abbrev name_a : List ℕ
name_a = b'a' ∷ []

abbrev name_b : List ℕ
name_b = b'b' ∷ []

abbrev small_fs : Superblock
small_fs = record {
  root_num = 1;
  lookup = λ n name.
      if (n == 1) && streq name name_a then 2 else if (n == 2) && streq name name_b then 3 else 0;
  has_node = λ n. true;
  opens = λ n writable. not writable;
  allocates = λ a. true;
}

small_fs-IsComplete : IsComplete small_fs
small_fs-IsComplete n name h = refl

-- `\a\.\..\a\b`, without its first separator.
abbrev path : List ℕ
path = b'a' ∷ 92 ∷ b'.' ∷ 92 ∷ b'.' ∷ b'.' ∷ 92 ∷ b'a' ∷ 92 ∷ b'b' ∷ []

path-IsText : IsText path
path-IsText = omega arith

path-IsText' : IsText (path_separator ∷ path)
path-IsText' = omega arith

leads : resolve small_fs (parts_of (path_separator ∷ path)) (1 ∷ []) ≡ some (3 ∷ 2 ∷ 1 ∷ [])
unfolding streq
leads = refl

visited-new_iterator_example : visited 11 (new_iterator path) ≡ parts_of path
visited-new_iterator_example = visited-new_iterator path 11 path-IsText (omega arith)

walk-resolve_example :
    Reaches (3 ∷ 2 ∷ 1 ∷ []) (walk small_fs true (path_separator ∷ path) 0 (root_tree small_fs))
unfolding root_tree
walk-resolve_example =
    walk-resolve small_fs small_fs-IsComplete (λ a. refl) (path_separator ∷ path) (1 ∷ [])
      (3 ∷ 2 ∷ 1 ∷ []) 0 (root_tree small_fs) path-IsText' (omega arith)
      (root-Chain small_fs 7 refl (omega arith)) (omega arith) leads

letter_index : get_index b'c' ≡ pos 2
unfolding get_index
letter_index = refl

none_mounted : init 2 ≡ none
unfolding init
none_mounted = refl

open_path-mount_example :
    (after : Mounts) × (mount b'c' small_fs init ≡ some (after, true))
    × ((mounts' : Mounts) × (entry : ℕ) × (open_path
            (b'c' ∷ colon ∷ path_separator ∷ path)
            false
            after
          ≡ some (mounts', if small_fs.opens 3 false then some entry else none)))
open_path-mount_example =
    open_path-mount b'c' 2 3 small_fs init path (2 ∷ 1 ∷ []) false letter_index none_mounted
      small_fs-IsComplete (λ a. refl) refl path-IsText (omega arith) leads

-- The root, `a`, and a directory in it, each with one use.
abbrev directory : ℕ → ℕ → DEntry
directory self par = record (new_node name_a self par) { used_count = 1; node = some self }

abbrev three : Tree
three = record {
  entries = λ a.
      if a == 0
      then some (directory 0 0)
      else if a == 1
      then some (directory 1 0)
      else if a == 2
      then some (directory 2 1)
      else none;
  fresh = 3;
}

directory-IsEntry :
    (t : Tree) (self par : ℕ)
    → t.entries self ≡ some (directory self par)
    → IsEntry t 0 self par self
directory-IsEntry t self par h = record {
  entry = directory self par;
  here = h;
  parent = refl;
  numbered = refl;
  leaf = refl;
  next_self = refl;
  prev_self = refl;
  used = omega arith;
  room = omega arith;
}

walk_missing-faults_example : walk_on (λ a t. some (t, some a)) 2 three none ≡ none
unfolding directory-IsEntry
walk_missing-faults_example =
    walk_missing-faults three (λ a t. some (t, some a)) 0 2 1 0 2 1 0
      (directory-IsEntry three 2 1 refl) (directory-IsEntry three 1 0 refl)
      (directory-IsEntry three 0 0 refl) (omega arith) (omega arith) (omega arith) refl refl
