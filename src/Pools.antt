-- ===== src/Pools.antt =====
-- The doubly linked lists of pools that both kernel allocators keep, one list for each number of
-- free objects: `cutPoolFrom` and `insertPoolTo` of YYSloth/src/memory/kheap.cpp, `cutPool` and
-- `insertPool` of YYSloth/src/memory/kvmmngr.cpp. A pool is known by its address.
pub mod Chains
use yay_os.Base.{ℕ, Option, none, some, ◌==◌, if◌then◌else◌}

-- The fields `prev` and `next` of the pools.
pub record Links : Type 0 where
  pub prev : ℕ → Option ℕ
  pub next : ℕ → Option ℕ

abbrev pub update {ℓ} : {A : Type ℓ} → (ℕ → A) → ℕ → A → ℕ → A
update f a v b = if b == a then v else f b

abbrev pub set_prev : ℕ → Option ℕ → Links → Links
set_prev a v l = record l { prev = update l.prev a v }

abbrev pub set_next : ℕ → Option ℕ → Links → Links
set_next a v l = record l { next = update l.next a v }

abbrev pub set_prev? : Option ℕ → Option ℕ → Links → Links
set_prev? none v l = l
set_prev? (some a) v l = set_prev a v l

abbrev pub set_next? : Option ℕ → Option ℕ → Links → Links
set_next? none v l = l
set_next? (some a) v l = set_next a v l

-- The writes to the neighbours of a pool that is cut out.
unfoldable pub unlink : ℕ → Links → Links
unlink pool l =
    let l' = set_next? (l.prev pool) (l.next pool) l in set_prev? (l'.next pool) (l'.prev pool) l'

-- What a cut writes to the head of the list.
unfoldable pub cut_head : ℕ → Links → Option ℕ → Option ℕ
cut_head pool l head = elim (l.prev pool) [ none ↦ l.next pool | some q ↦ head ]

-- The writes to the links of a pool that is put in front of `head`, and to the old first one.
unfoldable pub push_front : ℕ → Option ℕ → Links → Links
push_front pool head l = set_prev? head (some pool) (set_prev pool none (set_next pool head l))
