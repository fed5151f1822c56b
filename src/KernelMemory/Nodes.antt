-- ===== src/KernelMemory/Nodes.antt =====
-- The pools that the nodes of the kernel's list of free ranges come from: MemoryAreaPool of
-- YYSloth/include/memory/kvmmngr.hpp, and cutPool, insertPool, allocMemoryArea and freeMemoryArea of
-- YYSloth/src/memory/kvmmngr.cpp. Pools and nodes are known by their addresses, and memory is kept by
-- field.
use yay_os.Base.{
  ℕ, zero, suc, ◌+◌, ◌-◌, ◌≡◌, sym, subst, true, false, Option, none, some, List, [], ◌∷◌, ◌==◌,
  ltb, if◌then◌else◌, add64, sub64, arith, is_some, Bool-cases, inl, inr, ==_iff,
}
use yay_os.Utils.{align_down}
use yay_os.Pools.{Links, update, unlink, cut_head, push_front}
use yay_os.Pools.Chains.{has}

pub record AreaPools : Type 0 where
  pub first : ℕ → Option ℕ
  pub count : ℕ → ℕ
  pub links : Links
  pub node_next : ℕ → Option ℕ
  pub pool_heads : ℕ → Option ℕ
  pub last_checked_index : ℕ

-- MemoryAreaPool::allocNode; a pool without free nodes has no first one, and reading its link is a
-- fault.
unfoldable pub alloc_node : ℕ → AreaPools → Option (AreaPools × ℕ)
alloc_node pool a = elim (a.first pool) [
  | none ↦ none
  | some result ↦ some (
    record a {
      first = update a.first pool (a.node_next result);
      count = update a.count pool (sub64 (a.count pool) 1);
    },
    result,
  )
]

unfoldable pub free_node : ℕ → ℕ → AreaPools → AreaPools
free_node pool node a = record a {
  node_next = update a.node_next node (a.first pool);
  first = update a.first pool (some node);
  count = update a.count pool (add64 (a.count pool) 1);
}

unfoldable pub cut_pool : ℕ → AreaPools → AreaPools
cut_pool pool a = record a {
  links = unlink pool a.links;
  pool_heads =
      update a.pool_heads (a.count pool) (cut_head pool a.links (a.pool_heads (a.count pool)));
}

-- The head of the list is written only where the list is empty.
unfoldable pub insert_pool : ℕ → AreaPools → AreaPools
insert_pool pool a =
    let head = a.pool_heads (a.count pool) in
    record a {
      links = push_front pool head a.links;
      pool_heads = update a.pool_heads (a.count pool) (if is_some head then head else some pool);
    }

-- The loop of `allocMemoryArea`, with the rounds left. The first `none` is a fault, the second one
-- the null pointer.
unfoldable pub alloc_memory_area_loop : ℕ → AreaPools → Option (AreaPools × Option ℕ)
alloc_memory_area_loop zero a = some (a, none)
alloc_memory_area_loop (suc fuel) a =
    let index = a.last_checked_index in
    let rest = alloc_memory_area_loop fuel (record a { last_checked_index = index + 1 }) in
    if ltb index 128
    then elim (a.pool_heads index) [
      | none ↦ rest
      | some pool ↦ elim (alloc_node pool (cut_pool pool a)) [
        | none ↦ none
        | some (a', result) ↦
            let put = insert_pool pool a' in
            some (
              record put { last_checked_index = if index == 1 then index else sub64 index 1 },
              some result,
            )
      ]
    ]
    else some (a, none)

unfoldable pub alloc_memory_area : AreaPools → Option (AreaPools × Option ℕ)
alloc_memory_area a = alloc_memory_area_loop (128 - a.last_checked_index + 1) a

unfoldable pub free_memory_area : ℕ → AreaPools → AreaPools
free_memory_area node a =
    let pool = align_down node 4096 in
    let put = insert_pool pool (free_node pool node (cut_pool pool a)) in
    if ltb (put.count pool) put.last_checked_index
    then record put { last_checked_index = put.count pool }
    else put

-- The pools that the pointers `next` lead through.
abbrev pub Nexts : Links → Option ℕ → List ℕ → Type 0
Nexts l cur [] = cur ≡ none
Nexts l cur (x ∷ xs) = (cur ≡ some x) × Nexts l (l.next x) xs

Nexts-frame :
    (l l' : Links) (cur : Option ℕ) (xs : List ℕ)
    → ((a : ℕ) → has a xs ≡ true → l'.next a ≡ l.next a)
    → Nexts l cur xs
    → Nexts l' cur xs
Nexts-frame l l' cur [] same n = n
Nexts-frame l l' cur (x ∷ xs) same (e, n) = (
  e,
  Nexts-frame l l' (l'.next x) xs (λ a h. same a (ground (arith, h)))
      (rw (same x (ground arith)) n),
)

push_front-next :
    (p a : ℕ) (head : Option ℕ) (l : Links)
    → (a == p) ≡ false
    → (push_front p head l).next a ≡ l.next a
unfolding push_front
push_front-next p a none l ne = ground (arith, ne)
push_front-next p a (some h) l ne = ground (arith, ne)

not_pool : (p b : ℕ) (xs : List ℕ) → has p xs ≡ false → has b xs ≡ true → (b == p) ≡ false
not_pool p b xs out m = elim (Bool-cases (b == p)) [
  | inr ne ↦ ne
  | inl e ↦ cc (subst (λ c. has c xs ≡ true) ((==_iff b p).0 e) m, out)
]

-- A pool that insertPool puts into a list that is not empty is not found along the list: its head
-- and its pools are the ones they were.
pub insert_pool-lost :
    (a : AreaPools) (p x : ℕ) (xs : List ℕ)
    → has p (x ∷ xs) ≡ false
    → Nexts a.links (a.pool_heads (a.count p)) (x ∷ xs)
    → ((c : ℕ) → (insert_pool p a).pool_heads c ≡ a.pool_heads c)
      × Nexts (insert_pool p a).links ((insert_pool p a).pool_heads (a.count p)) (x ∷ xs)
unfolding insert_pool
insert_pool-lost a p x xs out n =
    let head = a.pool_heads (a.count p) in
    let heads : (c : ℕ) → (insert_pool p a).pool_heads c ≡ a.pool_heads c =
      λ c. ground (arith, n.0) in
    (
      heads,
      subst (λ h. Nexts (push_front p head a.links) h (x ∷ xs)) (sym (heads (a.count p)))
          (Nexts-frame a.links (push_front p head a.links) head (x ∷ xs)
            (λ b m. push_front-next p b head a.links (not_pool p b (x ∷ xs) out m)) n),
    )
