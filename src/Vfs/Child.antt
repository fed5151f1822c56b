-- ===== src/Vfs/Child.antt =====
-- Going to a child that is there: the node is made and the chain grows.
use yay_os.Base.{
  ℕ, ◌+◌, ◌<◌, ◌≡◌, refl, sym, subst, ap, ◌∙◌, true, false, Option, none, some, List, ◌∷◌, ◌==◌,
  arith, u64_mod, length, leb,
}
use yay_os.Vfs.Entry.{
  Superblock, DEntry, Tree, store, increment_used_count, decrement_used_count, new_node,
  create_node, create_child_node, keep_child, link_child, soft_lookup, soft_from, hard_lookup,
  hard_from, node_of,
}
use yay_os.Vfs.Walking.{enter, look_further, go_to_child}
use yay_os.Vfs.Chain.{
  IsEntry, Chain, Chain-put, store-here, store-other, more, less, option-inj, bind_some,
  increment_lem, decrement_lem,
}

-- The child that `createChildNode` makes.
abbrev child_of : List ℕ → ℕ → Option ℕ → Tree → DEntry
child_of name a node t = record (new_node name t.fresh a) { node = node }

abbrev with_child : List ℕ → ℕ → Option ℕ → Tree → Tree
with_child name a node t = record (store t.fresh (some (child_of name a node t)) t) {
  fresh = t.fresh + 1;
}

module _ (sb : Superblock) (name : List ℕ) (t : Tree) (a n num : ℕ) (d : DEntry)
    (here : t.entries a ≡ some d) (leaf : d.chld ≡ none) (numbered : d.node ≡ some n)
    (old : a < t.fresh) (short : length name < 256) (found : sb.lookup n name ≡ num)
    (real : 0 < num) (memory : sb.allocates t.fresh ≡ true) where
  abbrev child : DEntry
  child = child_of name a (node_of sb num) t

  abbrev t1 : Tree
  t1 = with_child name a (node_of sb num) t

  abbrev t2 : Tree
  t2 = store a (some (more d)) t1

  abbrev t3 : Tree
  t3 = store t.fresh (some (more child)) t2

  abbrev pub t4 : Tree
  t4 = store a (some (less (more d))) t3

  created : create_child_node true name (node_of sb num) a d t ≡ some (t1, some t.fresh)
  unfolding create_child_node create_node link_child
  created =
      let linked : link_child child d.chld t ≡ some (t1, t.fresh) =
        subst (λ c. link_child child c t ≡ some (t1, t.fresh)) (sym leaf) refl in
      bind_some (link_child child d.chld t) (t1, t.fresh) _ linked

  t1-here : t1.entries a ≡ some d
  t1-here = store-other t.fresh a (some child) t (omega (arith, old)) ∙ here

  hard_lookup-found : hard_lookup sb name a d t ≡ some (t2, some t.fresh)
  unfolding hard_lookup hard_from keep_child
  hard_lookup-found =
      let fits : leb 256 (length name) ≡ false = ground (arith, short) in
      let there : (num == 0) ≡ false = ground (arith, real) in
      subst (λ o. hard_from sb name a d t o ≡ some (t2, some t.fresh)) (sym numbered)
        (rw (fits, found, there, memory)
          (bind_some (create_child_node true name (node_of sb num) a d t) (t1, some t.fresh) _
              created
            ∙ bind_some (increment_used_count a t1) t2 _ (increment_lem a t1 d t1-here)))

  enter-child : enter a t2 (some t.fresh) ≡ some (t4, some t.fresh)
  unfolding enter
  enter-child =
      let at_child : t2.entries t.fresh ≡ some child =
        store-other a t.fresh (some (more d)) t1 (omega (arith, old))
        ∙ store-here t.fresh (some child) t in
      let at_dir : t3.entries a ≡ some (more d) =
        store-other t.fresh a (some (more child)) t2 (omega (arith, old))
        ∙ store-here a (some (more d)) t1 in
      bind_some (increment_used_count t.fresh t2) t3 _ (increment_lem t.fresh t2 child at_child)
      ∙ bind_some (decrement_used_count a t3) t4 _ (decrement_lem a t3 (more d) at_dir)

  pub go_to_child-found : go_to_child sb name a t ≡ some (t4, some t.fresh)
  unfolding go_to_child look_further soft_lookup soft_from
  go_to_child-found =
      let missing : soft_lookup name a d t ≡ some none =
        subst (λ c. soft_from name a t c ≡ some none) (sym leaf) refl in
      rw (go_to_child, here)
        (bind_some (soft_lookup name a d t) none _ missing
          ∙ bind_some (hard_lookup sb name a d t) (t2, some t.fresh) _ hard_lookup-found
          ∙ enter-child)

  module _ (k : ℕ) (ns : List ℕ) (chain : Chain t (k + 1) a (n ∷ ns))
      (complete : node_of sb num ≡ some num) where
    unchanged : (b : ℕ) → b < a → t4.entries b ≡ t.entries b
    unchanged b h =
        store-other a b (some (less (more d))) t3 (omega (arith, h))
        ∙ store-other t.fresh b (some (more child)) t2 (omega (arith, h, old))
        ∙ store-other a b (some (more d)) t1 (omega (arith, h))
        ∙ store-other t.fresh b (some child) t (omega (arith, h, old))

    -- The directory has as many uses as before.
    kept : (p : ℕ) → IsEntry t (k + 1) a p n → IsEntry t4 k a p n
    kept p e =
        let same : d ≡ e.entry = option-inj d e.entry (sym here ∙ e.here) in
        record {
          entry = less (more e.entry);
          here = store-here a (some (less (more d))) t3 ∙ ap (λ x. some (less (more x))) same;
          parent = e.parent;
          numbered = e.numbered;
          leaf = e.leaf;
          next_self = e.next_self;
          prev_self = e.prev_self;
          used = omega (arith, e.used, e.room);
          room = omega (arith, e.used, e.room);
        }

    child-IsEntry : k + 1 < u64_mod → IsEntry t4 k t.fresh a num
    child-IsEntry h = record {
      entry = more child;
      here =
          store-other a t.fresh (some (less (more d))) t3 (omega (arith, old))
          ∙ store-here t.fresh (some (more child)) t2;
      parent = refl;
      numbered = complete;
      leaf = refl;
      next_self = refl;
      prev_self = refl;
      used = omega arith;
      room = omega (arith, h);
    }

    pub child-Chain : k + 1 < u64_mod → Chain t4 k t.fresh (num ∷ n ∷ ns)
    child-Chain h = (
      a,
      old,
      child-IsEntry h,
      Chain-put t t4 (k + 1) k a n ns (omega arith) unchanged kept chain,
    )
