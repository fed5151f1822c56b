-- ===== src/Vfs/Resolve.antt =====
-- The walk finds the node that the file system has under a path.
use yay_os.Base.{
  ℕ, zero, suc, ◌+◌, ◌<◌, ◌≡◌, refl, sym, subst, ap, ◌∙◌, Bool, true, false, Option, none, some,
  List, [], ◌∷◌, ◌==◌, arith, if◌then◌else◌, add64, u64_mod, length, leb, ◌||◌,
}
use yay_os.Ramdisk.{streq}
use yay_os.Vfs.Path.{PathIterator, new_iterator, next, get, at_end, parts_of, IsText}
use yay_os.Vfs.Path.Visits.{
  Stands, Stands-next, IsText-behind, parts-first, behind_first, new_iterator-Stands,
}
use yay_os.Vfs.Entry.{Superblock, Tree, store, ◌>>=◌, node_of, increment_used_count}
use yay_os.Vfs.Walking.{
  go_to_child, go_to_parent, walk_on, walk_part, walk_loop, walk, dot, dot_dot,
}
use yay_os.Vfs.Chain.{
  Chain, Chain-front, Chain-same, option-inj, bind_some, more, store-here, store-other,
  increment_lem,
}
use yay_os.Vfs.Child.{go_to_child-found, child-Chain}
use yay_os.Vfs.Parent.{recounted, go_to_parent-Chain, go_to_parent-root}

-- Every number that a lookup gives has a node.
abbrev pub IsComplete : Superblock → Type 0
IsComplete sb =
    (n : ℕ) (name : List ℕ)
    → 0 < sb.lookup n name
    → node_of sb (sb.lookup n name) ≡ some (sb.lookup n name)

-- There is memory for every node.
abbrev pub HasMemory : Superblock → Type 0
HasMemory sb = (a : ℕ) → sb.allocates a ≡ true

-- The numbers from a node up to the root, after a part of a path.
abbrev pub above : List ℕ → List ℕ
above [] = []
above (n ∷ []) = n ∷ []
above (n ∷ m ∷ ns) = m ∷ ns

abbrev pub below : Superblock → List ℕ → List ℕ → Option (List ℕ)
below sb name [] = none
below sb name (n ∷ ns) =
    if leb 256 (length name)
    then none
    else if sb.lookup n name == 0
    then none
    else some (sb.lookup n name ∷ n ∷ ns)

abbrev pub resolve_part : Superblock → List ℕ → List ℕ → Option (List ℕ)
resolve_part sb part ns =
    if streq part [] || streq part dot
    then some ns
    else if streq part dot_dot
    then some (above ns)
    else below sb part ns

-- What the parts of a path lead to: the numbers from the node up to the root.
abbrev pub resolve : Superblock → List (List ℕ) → List ℕ → Option (List ℕ)
resolve sb [] ns = some ns
resolve sb (part ∷ parts) ns = resolve_part sb part ns >>= λ ns'. resolve sb parts ns'

-- The walk over the parts.
abbrev walk_parts : Superblock → List (List ℕ) → ℕ → Tree → Option (Tree × Option ℕ)
walk_parts sb [] a t = some (t, some a)
walk_parts sb (part ∷ parts) a t = walk_part sb (walk_parts sb parts) part a t

walk_loop-parts :
    (sb : Superblock) (fuel : ℕ) (it : PathIterator) (cs : List ℕ) (a : ℕ) (t : Tree)
    → IsText cs
    → Stands it cs
    → length cs < fuel
    → walk_loop sb fuel true it a t ≡ walk_parts sb (parts_of cs) a t
unfolding walk_loop at_end get
walk_loop-parts sb zero it cs a t x s h = absurd (omega (arith, h))
walk_loop-parts sb (suc fuel) it [] a t x s h =
    let ended : (it.pos == it.end_pos) ≡ true = ground (arith, s.ends) in rw ended refl
walk_loop-parts sb (suc fuel) it (c ∷ cs) a t x s h =
    let more : (it.pos == it.end_pos) ≡ false = ground (arith, s.ends) in
    let (s', shorter) = Stands-next it (c ∷ cs) x (omega arith) s in
    let rest : walk_loop sb fuel true (next it) ≡ walk_parts sb (parts_of (behind_first (c ∷ cs))) =
      λ i b u.
        walk_loop-parts sb fuel (next it) (behind_first (c ∷ cs)) b u (IsText-behind (c ∷ cs) x) s'
          (omega (arith, h, shorter)) i in
    rw (more, s.behind, rest) (ap (λ ps. walk_parts sb ps a t) (sym (parts-first c cs x)))

-- A name that was found.
taken :
    (p q : Bool) (x : List ℕ) (f : List ℕ → Option (List ℕ)) (goal : List ℕ)
    → ((if p then none else if q then none else some x) >>= f) ≡ some goal
    → (p ≡ false) × (q ≡ false) × (f x ≡ some goal)
taken false false x f goal e = (refl, refl, e)
taken false true x f goal e = cc
taken true q x f goal e = cc

-- The walk ended at a node that stands for the numbers.
abbrev pub Reaches : List ℕ → Option (Tree × Option ℕ) → Type 0
Reaches ns r = (t : Tree) × (a : ℕ) × (r ≡ some (t, some a)) × Chain t 0 a ns

module _ (sb : Superblock) (complete : IsComplete sb) (memory : HasMemory sb) where
  -- The later parts of a path lead from each chain to where they should.
  abbrev Leads : List (List ℕ) → List ℕ → Type 0
  Leads parts goal =
      (ns : List ℕ) (a : ℕ) (t : Tree)
      → length parts < u64_mod
      → Chain t (length parts) a ns
      → a < t.fresh
      → resolve sb parts ns ≡ some goal
      → Reaches goal (walk_parts sb parts a t)

  goes_up :
      (parts : List (List ℕ)) (goal : List ℕ)
      → Leads parts goal
      → (ns : List ℕ) (a : ℕ) (t : Tree) → length parts + 1 < u64_mod
      → Chain t (length parts + 1) a ns
      → a < t.fresh
      → resolve sb parts (above ns) ≡ some goal
      → Reaches goal (go_to_parent a t >>= λ r. walk_parts sb parts r.1 r.0)
  goes_up parts goal rest [] a t h c old e = absurd c
  goes_up parts goal rest (n ∷ []) a t h c old e =
      let (t', moved, c', fresh) = go_to_parent-root t (length parts) a n c in
      rw moved (rest (n ∷ []) a t' (omega (arith, h)) c' (omega (arith, old, fresh)) e)
  goes_up parts goal rest (n ∷ m ∷ ns) a t h (p, lower, entry, c) old e =
      let (t', moved, c', fresh) = go_to_parent-Chain t (length parts) a p n m ns lower entry c in
      rw moved (rest (m ∷ ns) p t' (omega (arith, h)) c' (omega (arith, old, fresh, lower)) e)

  goes_down :
      (parts : List (List ℕ)) (goal name : List ℕ)
      → Leads parts goal
      → (ns : List ℕ) (a : ℕ) (t : Tree) → length parts + 1 < u64_mod
      → Chain t (length parts + 1) a ns
      → a < t.fresh
      → (below sb name ns >>= λ ns'. resolve sb parts ns') ≡ some goal
      → Reaches goal (go_to_child sb name a t >>= λ r. walk_on (walk_parts sb parts) a r.0 r.1)
  unfolding walk_on
  goes_down parts goal name rest [] a t h c old e = absurd c
  goes_down parts goal name rest (n ∷ ns) a t h c old e =
      let (short, found, later) =
        taken (leb 256 (length name)) (sb.lookup n name == 0) (sb.lookup n name ∷ n ∷ ns)
          (λ ns'. resolve sb parts ns') goal e in
      let (p, entry) = Chain-front t (length parts + 1) a n ns c in
      let fits : length name < 256 = ground (arith, short) in
      let real : 0 < sb.lookup n name = ground (arith, found) in
      let moved =
        go_to_child-found sb name t a n (sb.lookup n name) entry.entry entry.here entry.leaf
          entry.numbered old fits refl real (memory t.fresh) in
      let c' =
        child-Chain sb name t a n (sb.lookup n name) entry.entry entry.here entry.leaf
          entry.numbered old fits refl real (memory t.fresh) (length parts) ns c
          (complete n name real) h in
      rw moved
        (rest (sb.lookup n name ∷ n ∷ ns) t.fresh _ (omega (arith, h)) c' (omega arith) later)

  -- The three kinds of parts.
  chosen :
      (parts : List (List ℕ)) (goal part : List ℕ)
      → Leads parts goal
      → (ns : List ℕ) (a : ℕ) (t : Tree) → length parts + 1 < u64_mod
      → Chain t (length parts + 1) a ns
      → a < t.fresh
      → (stay up : Bool)
      → ((if stay then some ns else if up then some (above ns) else below sb part ns) >>= λ ns'.
          resolve sb parts ns')
        ≡ some goal
      → Reaches goal (
          if stay
          then walk_parts sb parts a t
          else if up
          then (go_to_parent a t >>= λ r. walk_parts sb parts r.1 r.0)
          else (go_to_child sb part a t >>= λ r. walk_on (walk_parts sb parts) a r.0 r.1))
  chosen parts goal part rest ns a t h c old true up e =
      rest ns a t (omega (arith, h))
        (Chain-same t t (length parts + 1) (length parts) a ns (omega arith) (λ b l. refl) c) old e
  chosen parts goal part rest ns a t h c old false true e = goes_up parts goal rest ns a t h c old e
  chosen parts goal part rest ns a t h c old false false e =
      goes_down parts goal part rest ns a t h c old e

  walk_parts-resolve : (parts : List (List ℕ)) (goal : List ℕ) → Leads parts goal
  unfolding walk_part
  walk_parts-resolve [] goal =
      λ ns a t h c old e. (t, a, refl, subst (Chain t 0 a) (option-inj ns goal e) c)
  walk_parts-resolve (part ∷ parts) goal = λ ns a t h c old e.
      let one : suc (length parts) ≡ length parts + 1 = omega arith in
      chosen parts goal part (walk_parts-resolve parts goal) ns a t (omega (arith, h))
        (subst (λ k. Chain t k a ns) one c) old (streq part [] || streq part dot)
        (streq part dot_dot) e

  -- Where every number that a lookup gives has a node and there is memory for every node: from a node whose chain up to the root
  -- stands for some numbers and has room for as many uses as the path has parts and one more, the walk along a path
  -- without 0 bytes, when its parts lead somewhere, ends without a fault at a node whose chain
  -- stands for what they lead to.
  pub walk-resolve :
      (path ns goal : List ℕ) (a : ℕ) (t : Tree)
      → IsText path
      → length (parts_of path) + 1 < u64_mod
      → Chain t (length (parts_of path) + 1) a ns
      → a < t.fresh
      → resolve sb (parts_of path) ns ≡ some goal
      → Reaches goal (walk sb true path a t)
  unfolding walk
  walk-resolve path [] goal a t x h c old e = absurd c
  walk-resolve path (n ∷ ns) goal a t x h c old e =
      let (p, entry) = Chain-front t (length (parts_of path) + 1) a n ns c in
      let d = entry.entry in
      let t' = store a (some (more d)) t in
      let c' =
        recounted t t' (length (parts_of path)) a n (add64 d.used_count 1) ns d entry.here
          (store-here a (some (more d)) t) (omega (arith, entry.room)) (omega (arith, entry.room))
          (λ b l. store-other a b (some (more d)) t (omega (arith, l))) c in
      let start = bind_some (increment_used_count a t) t' _ (increment_lem a t d entry.here) in
      let looped =
        walk_loop-parts sb (length path + 1) (new_iterator path) path a t' x
          (new_iterator-Stands path) (omega arith) in
      let (u, b, reached, chain) =
        walk_parts-resolve (parts_of path) goal (n ∷ ns) a t' (omega (arith, h)) c' old e in
      (u, b, start ∙ looped ∙ reached, chain)
