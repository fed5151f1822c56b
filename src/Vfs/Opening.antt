-- ===== src/Vfs/Opening.antt =====
-- Mounting a file system and opening a file of it.
use yay_os.Base.{
  ℕ, ◌+◌, ◌≤◌, ◌<◌, ◌≡◌, refl, ap, ◌∙◌, Bool, true, false, none, some, List, [], ◌∷◌, ◌==◌, arith,
  if◌then◌else◌, u64_mod, length, ltb, Bool-cases, inl, inr,
}
use yay_os.Base.Int.{pos}
use yay_os.Vfs.Path.{path_separator, add_front, parts_of, IsText}
use yay_os.Vfs.Entry.{
  Superblock, Tree, store, ◌>>=◌, node_of, new_node, create_node, increment_used_count,
}
use yay_os.Vfs.Walking.{
  walk, get_index, Mount, Mounts, root_tree, mount, mount_at, open_node, open_entry, with_tree,
  open_path,
}
use yay_os.Vfs.Chain.{Chain, Chain-front, more, bind_some, increment_lem, store-here}
use yay_os.Vfs.Resolve.{IsComplete, HasMemory, resolve, walk-resolve}

-- ':'
abbrev pub colon : ℕ
colon = 58

abbrev pub mounted : Superblock → Mount
mounted sb = record { sb = sb; tree = root_tree sb; root = 0 }

abbrev pub with_mount : ℕ → Superblock → Mounts → Mounts
with_mount i sb mounts j = if j == i then some (mounted sb) else mounts j

-- The root of a file system that has just been mounted.
pub root-Chain :
    (sb : Superblock) (k : ℕ)
    → node_of sb sb.root_num ≡ some sb.root_num
    → k + 1 < u64_mod
    → Chain (root_tree sb) k 0 (sb.root_num ∷ [])
unfolding root_tree
root-Chain sb k h fits = record {
  entry = record (new_node [] 0 0) { used_count = 1; node = node_of sb sb.root_num };
  here = refl;
  parent = refl;
  numbered = h;
  leaf = refl;
  next_self = refl;
  prev_self = refl;
  used = omega arith;
  room = omega (arith, fits);
}

mount-here :
    (letter i : ℕ) (sb : Superblock) (mounts : Mounts)
    → get_index letter ≡ pos i
    → mounts i ≡ none
    → HasMemory sb
    → mount letter sb mounts ≡ some (with_mount i sb mounts, true)
unfolding mount mount_at create_node
mount-here letter i sb mounts e free memory = rw (mount, e, free, memory 0) refl

-- The node that a walk found is opened.
opened :
    (writable : Bool) (sb : Superblock) (t : Tree) (a n : ℕ) (ns : List ℕ)
    → Chain t 0 a (n ∷ ns)
    → (t' : Tree) × (open_entry writable sb (t, some a)
        ≡ some (t', if sb.opens n writable then some a else none))
unfolding open_entry open_node
opened writable sb t a n ns c =
    let (p, e) = Chain-front t 0 a n ns c in
    let t' = store a (some (more e.entry)) t in
    let node : open_node writable sb t' a e.entry.node
        ≡ some (t', if sb.opens n writable then some a else none) =
      rw e.numbered refl in
    (
      t',
      bind_some (increment_used_count a t) t' _ (increment_lem a t e.entry e.here)
          ∙ (rw (store-here a (some (more e.entry)) t) node),
    )

add_front-length : (c : ℕ) (ps : List (List ℕ)) → length (add_front c ps) ≤ length ps + 1
add_front-length c [] = omega arith
add_front-length c (p ∷ ps) = omega arith

length-parts : (cs : List ℕ) → length (parts_of cs) ≤ length cs
length-parts [] = omega arith
length-parts (c ∷ cs) = elim (Bool-cases (c == path_separator)) [
  | inl here ↦ rw here (omega (arith, length-parts cs))
  | inr there ↦ rw there (omega (arith, length-parts cs, add_front-length c (parts_of cs)))
]

-- A path of the right form is walked from the root of its letter.
opened_path :
    (letter i : ℕ) (sb : Superblock) (mounts : Mounts) (path : List ℕ) (writable : Bool) (m : Mount)
    → get_index letter ≡ pos i
    → mounts i ≡ some m
    → open_path (letter ∷ colon ∷ path_separator ∷ path) writable mounts
      ≡ with_tree i m mounts
          (walk m.sb true (path_separator ∷ path) m.root m.tree >>= λ r. open_entry writable m.sb r)
unfolding open_path
opened_path letter i sb mounts path writable m e here =
    let long : ltb (length (letter ∷ colon ∷ path_separator ∷ path)) 3 ≡ false = ground arith in
    rw (open_path, long, e, here) refl

-- A file of a file system that has just been mounted: with a letter that has no file system, a
-- root that has a node, a node for every number that a lookup gives, memory for every node of the
-- tree, and a path without 0 bytes that leads from the root to the node `n`, `mount` succeeds, and
-- then `open` of the letter, a colon, a separator and the path succeeds exactly if the node `n`
-- opens.
pub open_path-mount :
    (letter i n : ℕ) (sb : Superblock) (mounts : Mounts) (path ns : List ℕ) (writable : Bool)
    → get_index letter ≡ pos i
    → mounts i ≡ none
    → IsComplete sb
    → HasMemory sb
    → node_of sb sb.root_num ≡ some sb.root_num
    → IsText path
    → length path + 3 < u64_mod
    → resolve sb (parts_of (path_separator ∷ path)) (sb.root_num ∷ []) ≡ some (n ∷ ns)
    → (after : Mounts) × (mount letter sb mounts ≡ some (after, true))
      × ((mounts' : Mounts) × (entry : ℕ) × (open_path
              (letter ∷ colon ∷ path_separator ∷ path)
              writable
              after
            ≡ some (mounts', if sb.opens n writable then some entry else none)))
unfolding open_path root_tree
open_path-mount letter i n sb mounts path ns writable e free complete memory root text short leads =
    let (t, a, reached, chain) =
      walk-resolve sb complete memory (path_separator ∷ path) (sb.root_num ∷ []) (n ∷ ns) 0
        (root_tree sb) (omega arith, text) (omega (arith, short, length-parts path))
        (root-Chain sb _ root (omega (arith, short, length-parts path))) (omega arith) leads in
    let (t', done) = opened writable sb t a n ns chain in
    let end : (walk sb true (path_separator ∷ path) 0 (root_tree sb) >>= λ r.
    open_entry writable sb r)
        ≡ some (t', if sb.opens n writable then some a else none) =
      bind_some (walk sb true (path_separator ∷ path) 0 (root_tree sb)) (t, some a) _ reached
      ∙ done in
    let after = with_mount i sb mounts in
    let here : after i ≡ some (mounted sb) = ground arith in
    (
      after,
      mount-here letter i sb mounts e free memory,
      (
        λ j. if j == i then some (record (mounted sb) { tree = t' }) else after j,
        a,
        opened_path letter i sb after path writable (mounted sb) e here
            ∙ ap (with_tree i (mounted sb) after) end,
      ),
    )
