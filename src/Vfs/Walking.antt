-- ===== src/Vfs/Walking.antt =====
-- The walk along a path and the files that it opens: DEntry::walk and the class VFS of
-- YYSloth/src/fs/vfs.cpp. Each mounted file system has its own tree of nodes.
use yay_os.Base.{
  ℕ, zero, suc, ◌+◌, ◌-◌, Bool, true, false, Option, none, some, List, [], ◌∷◌, ◌==◌, ltb, leb,
  if◌then◌else◌, length, drop, get_or, not, ◌&&◌, ◌||◌,
}
use yay_os.Base.Int.{ℤ, pos, negsuc, minus_one}
use yay_os.Ramdisk.{streq}
use yay_os.Vfs.Path.{path_separator, PathIterator, new_iterator, get, at_end, next}
use yay_os.Vfs.Entry.{
  Superblock, DEntry, Tree, ◌>>=◌, increment_used_count, decrement_used_count, new_node,
  create_node, soft_lookup, hard_lookup, node_of, drop_entry, dispose,
}

-- The end of `goToChild`, with the child.
unfoldable pub enter : ℕ → Tree → Option ℕ → Option (Tree × Option ℕ)
enter a t none = some (t, none)
enter a t (some child) = increment_used_count child t >>= λ t'.
    decrement_used_count a t' >>= λ t''. some (t'', some child)

module _ (sb : Superblock) where
  -- What follows `softLookup` in `goToChild`.
  unfoldable pub look_further : List ℕ → ℕ → DEntry → Tree → Option ℕ → Option (Tree × Option ℕ)
  look_further name a d t (some child) = enter a t (some child)
  look_further name a d t none = hard_lookup sb name a d t >>= λ r. enter a r.0 r.1

  unfoldable pub go_to_child : List ℕ → ℕ → Tree → Option (Tree × Option ℕ)
  go_to_child name a t = elim (t.entries a) [
    | none ↦ none
    | some d ↦ soft_lookup name a d t >>= λ found. look_further name a d t found
  ]

-- The end of `goToParent`, with what `drop` gives.
unfoldable pub disposed : ℕ → ℕ → Tree × Bool → Option (Tree × ℕ)
disposed a p (t, true) = dispose a t >>= λ t'. some (t', p)
disposed a p (t, false) = some (t, p)

-- The node is dropped unless it is in use.
unfoldable pub leave : ℕ → ℕ → Tree → Option (Tree × ℕ)
leave a p t = elim (t.entries a) [
  | none ↦ none
  | some d ↦ if ltb 0 d.used_count then some (t, p) else (drop_entry a t >>= λ r. disposed a p r)
]

unfoldable pub go_to_parent : ℕ → Tree → Option (Tree × ℕ)
go_to_parent a t = elim (t.entries a) [
  | none ↦ none
  | some d ↦
      decrement_used_count a t >>= λ t1. increment_used_count d.par t1 >>= λ t2. leave a d.par t2
]

-- The loop of `dropRec`, on fuel: each round disposes of the node at which it started.
unfoldable pub drop_rec : ℕ → ℕ → ℕ → Tree → Option Tree
drop_rec zero start current t = none
drop_rec (suc fuel) start current t = elim (t.entries current) [
  | none ↦ none
  | some d ↦ drop_entry current t >>= λ r.
      if r.1 then (dispose start r.0 >>= λ t'. drop_rec fuel start d.par t') else some r.0
]

abbrev pub dot : List ℕ
dot = b'.' ∷ []

abbrev pub dot_dot : List ℕ
dot_dot = b'.' ∷ b'.' ∷ []

-- What follows `goToChild` in a round of `walk`.
unfoldable pub walk_on :
    (ℕ → Tree → Option (Tree × Option ℕ)) → ℕ → Tree → Option ℕ → Option (Tree × Option ℕ)
walk_on rest current t (some child) = rest child t
walk_on rest current t none = decrement_used_count current t >>= λ t1.
    drop_rec (t1.fresh + 1) current current t1 >>= λ t2. some (t2, none)

-- A round of the loop of `walk`, with the part of the path and what the later rounds give.
unfoldable pub walk_part :
    Superblock
    → (ℕ → Tree → Option (Tree × Option ℕ))
    → List ℕ
    → ℕ
    → Tree
    → Option (Tree × Option ℕ)
walk_part sb rest part current t =
    if streq part [] || streq part dot
    then rest current t
    else if streq part dot_dot
    then (go_to_parent current t >>= λ r. rest r.1 r.0)
    else (go_to_child sb part current t >>= λ r. walk_on rest current r.0 r.1)

module _ (sb : Superblock) where
  -- The loop of `walk`, on fuel: none as the node where a name is missing.
  unfoldable pub walk_loop : ℕ → Bool → PathIterator → ℕ → Tree → Option (Tree × Option ℕ)
  walk_loop zero resolve_last it current t = none
  walk_loop (suc fuel) resolve_last it current t =
      if at_end resolve_last it
      then some (t, some current)
      else walk_part sb (walk_loop fuel resolve_last (next it)) (get it) current t

  unfoldable pub walk : Bool → List ℕ → ℕ → Tree → Option (Tree × Option ℕ)
  walk resolve_last path a t = increment_used_count a t >>= λ t1.
      walk_loop (length path + 1) resolve_last (new_iterator path) a t1

-- ':'
abbrev colon : ℕ
colon = 58

unfoldable pub get_index : ℕ → ℤ
get_index letter =
    if leb b'a' letter && leb letter b'z'
    then pos (letter - b'a')
    else if leb b'A' letter && leb letter b'Z'
    then pos (letter - b'A')
    else minus_one

pub record Mount : Type 0 where
  pub sb : Superblock
  pub tree : Tree
  pub root : ℕ

abbrev pub Mounts : Type 0
Mounts = ℕ → Option Mount

unfoldable pub init : Mounts
init i = none

-- The tree of a file system that is mounted has its root at address 0.
unfoldable pub root_tree : Superblock → Tree
root_tree sb = record {
  entries = λ a.
      if a == 0
      then some (record (new_node [] 0 0) { used_count = 1; node = node_of sb sb.root_num })
      else none;
  fresh = 1;
}

-- The tree of `mount`, whose `createNode` is not tested.
unfoldable pub mount_at : ℕ → Superblock → Mounts → Option DEntry → Option (Mounts × Bool)
mount_at index sb mounts none = none
mount_at index sb mounts (some d) = some (
  λ i. if i == index then some (record { sb = sb; tree = root_tree sb; root = 0 }) else mounts i,
  true,
)

unfoldable pub mount : ℕ → Superblock → Mounts → Option (Mounts × Bool)
mount letter sb mounts = elim (get_index letter) [
  | negsuc n ↦ some (mounts, false)
  | pos index ↦ elim (mounts index) [
    | some m ↦ some (mounts, false)
    | none ↦ mount_at index sb mounts (create_node (sb.allocates 0) [] 0 0)
  ]
]

-- `entry->node->open`: the address of the entry, none if the inode does not open.
unfoldable pub open_node : Bool → Superblock → Tree → ℕ → Option ℕ → Option (Tree × Option ℕ)
open_node writable sb t entry none = none
open_node writable sb t entry (some num) =
    some (t, if sb.opens num writable then some entry else none)

-- The end of `open`, with what the walk gives.
unfoldable pub open_entry : Bool → Superblock → Tree × Option ℕ → Option (Tree × Option ℕ)
open_entry writable sb (t, none) = some (t, none)
open_entry writable sb (t, some entry) = increment_used_count entry t >>= λ t1.
    elim (t1.entries entry) [ none ↦ none | some d ↦ open_node writable sb t1 entry d.node ]

abbrev pub with_tree : ℕ → Mount → Mounts → Option (Tree × Option ℕ) → Option (Mounts × Option ℕ)
with_tree index m mounts none = none
with_tree index m mounts (some (t, entry)) =
    some (λ i. if i == index then some (record m { tree = t }) else mounts i, entry)

-- `none` in the second place is the null pointer.
unfoldable pub open_path : List ℕ → Bool → Mounts → Option (Mounts × Option ℕ)
open_path path writable mounts =
    if ltb (length path) 3
    then some (mounts, none)
    else if not (get_or path 1 0 == colon) && not (get_or path 2 0 == path_separator)
    then some (mounts, none)
    else elim (get_index (get_or path 0 0)) [
      | negsuc n ↦ some (mounts, none)
      | pos index ↦ elim (mounts index) [
        | none ↦ some (mounts, none)
        | some m ↦
            with_tree index m mounts
              (walk m.sb true (drop 2 path) m.root m.tree >>= λ r. open_entry writable m.sb r)
      ]
    ]
