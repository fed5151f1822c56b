-- ===== src/Vfs/Entry.antt =====
-- The nodes of the tree of names: DEntry of YYSloth/src/fs/vfs.cpp. The nodes of one file system are
-- looked up by address, none once deleted; an access to one that is gone is the fault `none` of the
-- operation. The mutexes are left out: an operation is one step, and nobody waits. `par` of a node
-- is never null.
use yay_os.Base.{
  ℕ, zero, suc, ◌+◌, Bool, true, false, Option, none, some, List, ◌==◌, ltb, leb, if◌then◌else◌,
  length, add64, sub64, ◌&&◌,
}
use yay_os.Ramdisk.{strhash, streq}

-- A superblock: the node of a name in a directory, 0 if there is none, the numbers that have a node,
-- and whether the node opens, for writing or not. `allocates` tells whether the kernel heap has
-- memory for the node of the tree that gets an address, and for its name.
pub record Superblock : Type 0 where
  pub root_num : ℕ
  pub lookup : ℕ → List ℕ → ℕ
  pub has_node : ℕ → Bool
  pub opens : ℕ → Bool → Bool
  pub allocates : ℕ → Bool

-- `node` is the number of the inode.
pub record DEntry : Type 0 where
  pub par : ℕ
  pub next_entry : Option ℕ
  pub prev_entry : Option ℕ
  pub chld : Option ℕ
  pub used_count : ℕ
  pub name_hash : ℕ
  pub name : List ℕ
  pub node : Option ℕ

-- Addresses are handed out in order, one for each attempt to make a node.
pub record Tree : Type 0 where
  pub entries : ℕ → Option DEntry
  pub fresh : ℕ

abbrev pub store : ℕ → Option DEntry → Tree → Tree
store a d t = record t { entries = λ b. if b == a then d else t.entries b }

-- A write through a pointer.
abbrev pub update : ℕ → (DEntry → DEntry) → Tree → Option Tree
update a f t = elim (t.entries a) [ none ↦ none | some d ↦ some (store a (some (f d)) t) ]

infixl 5 ◌>>=◌
abbrev pub ◌>>=◌ : {A B : Type 0} → Option A → (A → Option B) → Option B
none >>= f = none
some a >>= f = f a

unfoldable pub increment_used_count : ℕ → Tree → Option Tree
increment_used_count a t = update a (λ d. record d { used_count = add64 d.used_count 1 }) t

unfoldable pub decrement_used_count : ℕ → Tree → Option Tree
decrement_used_count a t = update a (λ d. record d { used_count = sub64 d.used_count 1 }) t

abbrev pub set_next : Option ℕ → Option ℕ → Tree → Option Tree
set_next none v t = none
set_next (some a) v t = update a (λ d. record d { next_entry = v }) t

abbrev pub set_prev : Option ℕ → Option ℕ → Tree → Option Tree
set_prev none v t = none
set_prev (some a) v t = update a (λ d. record d { prev_entry = v }) t

abbrev pub new_node : List ℕ → ℕ → ℕ → DEntry
new_node name self par = record {
  par = par;
  next_entry = some self;
  prev_entry = some self;
  chld = none;
  used_count = 0;
  name_hash = strhash name;
  name = name;
  node = none;
}

-- `createNode`, with whether there is memory: none as the null pointer.
unfoldable pub create_node : Bool → List ℕ → ℕ → ℕ → Option DEntry
create_node room name self par = if room then some (new_node name self par) else none

-- A new node is linked in front of the first child, if there is one.
unfoldable pub link_child : DEntry → Option ℕ → Tree → Option (Tree × ℕ)
link_child child none t =
    some (record (store t.fresh (some child) t) { fresh = t.fresh + 1 }, t.fresh)
link_child child (some first) t = elim (t.entries first) [
  | none ↦ none
  | some c ↦
      let linked : DEntry = record child { next_entry = some first; prev_entry = c.prev_entry } in
      let t1 : Tree = record (store t.fresh (some linked) t) { fresh = t.fresh + 1 } in
      set_next c.prev_entry (some t.fresh) t1 >>= λ t2.
      set_prev (some first) (some t.fresh) t2 >>= λ t3. some (t3, t.fresh)
]

abbrev some_child : Tree × ℕ → Option (Tree × Option ℕ)
some_child (t, child) = some (t, some child)

-- `createChildNode`, with what hardLookup stores in the node. None in the second place is the null
-- pointer, for want of memory.
unfoldable pub create_child_node :
    Bool → List ℕ → Option ℕ → ℕ → DEntry → Tree → Option (Tree × Option ℕ)
create_child_node room name node a d t = elim (create_node room name t.fresh a) [
  | none ↦ some (record t { fresh = t.fresh + 1 }, none)
  | some child ↦ link_child (record child { node = node }) d.chld t >>= λ r. some_child r
]

-- The end of `hardLookup`, with the child.
unfoldable pub keep_child : ℕ → Tree × Option ℕ → Option (Tree × Option ℕ)
keep_child a (t, none) = some (t, none)
keep_child a (t, some child) = increment_used_count a t >>= λ t'. some (t', some child)

-- The loop of `softLookup`, on fuel. A name that is found gives the directory itself.
unfoldable pub soft_loop : ℕ → ℕ → List ℕ → ℕ → ℕ → Tree → Option (Option ℕ)
soft_loop zero self name first current t = none
soft_loop (suc fuel) self name first current t = elim (t.entries current) [
  | none ↦ none
  | some c ↦
      if (c.name_hash == strhash name) && streq c.name name
      then some (some self)
      else elim c.next_entry [
        | none ↦ none
        | some n ↦
            let rest = soft_loop fuel self name first n t in if n == first then some none else rest
      ]
]

unfoldable pub soft_from : List ℕ → ℕ → Tree → Option ℕ → Option (Option ℕ)
soft_from name self t none = some none
soft_from name self t (some first) = soft_loop t.fresh self name first first t

unfoldable pub soft_lookup : List ℕ → ℕ → DEntry → Tree → Option (Option ℕ)
soft_lookup name self d t = soft_from name self t d.chld

module _ (sb : Superblock) where
  -- `sb->getNode`.
  abbrev pub node_of : ℕ → Option ℕ
  node_of num = if sb.has_node num then some num else none

  unfoldable pub hard_from : List ℕ → ℕ → DEntry → Tree → Option ℕ → Option (Tree × Option ℕ)
  hard_from name a d t none = some (t, none)
  hard_from name a d t (some dir) =
      if leb 256 (length name)
      then some (t, none)
      else if sb.lookup dir name == 0
      then some (t, none)
      else (create_child_node (sb.allocates t.fresh) name (node_of (sb.lookup dir name)) a d t
          >>= λ r. keep_child a r)

  unfoldable pub hard_lookup : List ℕ → ℕ → DEntry → Tree → Option (Tree × Option ℕ)
  hard_lookup name a d t = hard_from name a d t d.node

-- `cut`.
unfoldable pub cut_links : ℕ → Tree → Option Tree
cut_links a t = elim (t.entries a) [
  | none ↦ none
  | some d ↦ set_next d.prev_entry d.next_entry t >>= λ t1. elim (t1.entries a) [
    | none ↦ none
    | some d1 ↦ set_prev d1.next_entry d1.prev_entry t1 >>= λ t2.
        update a (λ e. record e { next_entry = none; prev_entry = none }) t2
  ]
]

unfoldable pub drop_entry : ℕ → Tree → Option (Tree × Bool)
drop_entry a t = elim (t.entries a) [
  | none ↦ none
  | some d ↦
      if ltb 0 d.used_count
      then some (t, false)
      else (decrement_used_count d.par t >>= λ t1. cut_links a t1 >>= λ t2. some (t2, true))
]

-- `dispose` reads the number of the inode for `dropNode`.
unfoldable pub dispose : ℕ → Tree → Option Tree
dispose a t = elim (t.entries a) [
  | none ↦ none
  | some d ↦ elim d.node [ none ↦ none | some num ↦ some (store a none t) ]
]
