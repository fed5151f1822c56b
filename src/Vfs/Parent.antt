-- ===== src/Vfs/Parent.antt =====
-- Going to the parent: a node that nobody uses any more is deleted, and the chain loses it.
use yay_os.Base.{
  ℕ, ◌+◌, ◌<◌, ◌≡◌, ◌≢◌, dec_lt, refl, sym, subst, ap, ◌∙◌, true, some, List, ◌∷◌, arith, add64,
  sub64, u64_mod, ltb,
}
use yay_os.Vfs.Entry.{DEntry, Tree, store, ◌>>=◌, increment_used_count, decrement_used_count}
use yay_os.Vfs.Walking.{leave, go_to_parent}
use yay_os.Vfs.Chain.{
  IsEntry, Chain, Chain-front, Chain-put, store-here, store-other, more, less, option-inj,
  bind_some, increment_lem, decrement_lem,
}
use yay_os.Vfs.Dropping.{u5, u5-Dropped, left}

abbrev with_uses : ℕ → DEntry → DEntry
with_uses u d = record d { used_count = u }

-- A chain whose first node has another number of uses.
pub recounted :
    (t t' : Tree) (k p m u : ℕ) (ns : List ℕ) (dp : DEntry)
    → t.entries p ≡ some dp
    → t'.entries p ≡ some (record dp { used_count = u })
    → 0 < u
    → u + k < u64_mod
    → ((b : ℕ) → b < p → t'.entries b ≡ t.entries b)
    → Chain t (k + 1) p (m ∷ ns)
    → Chain t' k p (m ∷ ns)
recounted t t' k p m u ns dp before after some_left fits same c =
    Chain-put t t' (k + 1) k p m ns (omega arith) same
      (λ q e.
        let eq : dp ≡ e.entry = option-inj dp e.entry (sym before ∙ e.here) in
        record {
          entry = record (e.entry) { used_count = u };
          here = after ∙ ap (λ x. some (with_uses u x)) eq;
          parent = e.parent;
          numbered = e.numbered;
          leaf = e.leaf;
          next_self = e.next_self;
          prev_self = e.prev_self;
          used = some_left;
          room = fits;
        })
      c

module _ (t : Tree) (k a p n m : ℕ) (ns : List ℕ) (below : p < a) (e : IsEntry t (k + 1) a p n)
    (c : Chain t (k + 1) p (m ∷ ns)) where
  abbrev d : DEntry
  d = e.entry

  abbrev dp : DEntry
  dp = (Chain-front t (k + 1) p m ns c).1.entry

  abbrev above : IsEntry t (k + 1) p (Chain-front t (k + 1) p m ns c).0 m
  above = (Chain-front t (k + 1) p m ns c).1

  abbrev v1 : Tree
  v1 = store a (some (less d)) t

  abbrev v2 : Tree
  v2 = store p (some (more dp)) v1

  v2-here : v2.entries a ≡ some (less d)
  v2-here =
      store-other p a (some (more dp)) v1 (omega (arith, below)) ∙ store-here a (some (less d)) t

  v2-other : (b : ℕ) → b ≢ a → b ≢ p → v2.entries b ≡ t.entries b
  v2-other b ne ne' =
      store-other p b (some (more dp)) v1 (λ e. ne' (sym e))
      ∙ store-other a b (some (less d)) t (λ e. ne (sym e))

  stepped : (r : Tree × ℕ) → leave a p v2 ≡ some r → go_to_parent a t ≡ some r
  unfolding go_to_parent
  stepped r end =
      let at1 : v1.entries p ≡ some dp =
        store-other a p (some (less d)) t (omega (arith, below))
        ∙ (Chain-front t (k + 1) p m ns c).1.here in
      let again : (increment_used_count d.par v1 >>= λ t2. leave a d.par t2) ≡ some r =
        subst (λ q. (increment_used_count q v1 >>= λ t2. leave a q t2) ≡ some r) (sym e.parent)
          (bind_some (increment_used_count p v1) v2 _ (increment_lem p v1 dp at1) ∙ end) in
      rw (go_to_parent, e.here)
        (bind_some (decrement_used_count a t) v1 _ (decrement_lem a t d e.here) ∙ again)

  abbrev Parent : Type 0
  Parent =
      (t' : Tree) × (go_to_parent a t ≡ some (t', p)) × Chain t' k p (m ∷ ns) × (t'.fresh ≡ t.fresh)

  -- The node is still in use.
  stays : 1 < d.used_count → Parent
  unfolding leave
  stays h =
      let busy : ltb 0 (sub64 d.used_count 1) ≡ true = ground (arith, h, e.room) in
      let end : leave a p v2 ≡ some (v2, p) = rw (leave, v2-here, busy) refl in
      (
        v2,
        stepped (v2, p) end,
        recounted t v2 k p m (add64 dp.used_count 1) ns dp (above.here)
            (store-here p (some (more dp)) v1) (omega (arith, above.room, above.used))
            (omega (arith, above.room))
            (λ b l. v2-other b (omega (arith, l, below)) (omega (arith, l))) c,
        refl,
      )

  -- Nobody uses the node any more.
  goes : d.used_count ≡ 1 → Parent
  goes h =
      let unused : sub64 d.used_count 1 ≡ 0 = omega (arith, h) in
      let end =
        left v2 a p n (less d) (more dp) v2-here (store-here p (some (more dp)) v1) e.parent below
          e.numbered e.next_self e.prev_self unused in
      let (fresh, at, same) =
        u5-Dropped v2 a p n (less d) (more dp) v2-here (store-here p (some (more dp)) v1) e.parent
          below e.numbered e.next_self e.prev_self unused in
      (
        u5 v2 a p n (less d) (more dp) v2-here (store-here p (some (more dp)) v1) e.parent below
            e.numbered e.next_self e.prev_self unused,
        stepped _ end,
        recounted t _ k p m (sub64 (add64 dp.used_count 1) 1) ns dp (above.here) at
            (omega (arith, above.room, above.used)) (omega (arith, above.room, above.used))
            (λ b l.
              same b (omega (arith, l, below)) (omega (arith, l))
              ∙ v2-other b (omega (arith, l, below)) (omega (arith, l)))
            c,
        fresh,
      )

  -- From a node that is not the root the walk goes to its parent, which stands for what is above.
  pub go_to_parent-Chain : Parent
  go_to_parent-Chain = elim (dec_lt 1 d.used_count) [
    | yes busy ↦ stays busy
    | no idle ↦ goes (omega (arith, idle, e.used))
  ]

-- From the root it stays there.
pub go_to_parent-root :
    (t : Tree) (k a n : ℕ)
    → IsEntry t (k + 1) a a n
    → (t' : Tree) × (go_to_parent a t ≡ some (t', a)) × IsEntry t' k a a n × (t'.fresh ≡ t.fresh)
unfolding go_to_parent leave
go_to_parent-root t k a n e =
    let d = e.entry in
    let t1 = store a (some (less d)) t in
    let t2 = store a (some (more (less d))) t1 in
    let at1 : t1.entries a ≡ some (less d) = store-here a (some (less d)) t in
    let at2 : t2.entries a ≡ some (more (less d)) = store-here a (some (more (less d))) t1 in
    let busy : ltb 0 (add64 (sub64 d.used_count 1) 1) ≡ true = ground (arith, e.used, e.room) in
    let end : leave a a t2 ≡ some (t2, a) = rw (leave, at2, busy) refl in
    let again : (increment_used_count d.par t1 >>= λ t2. leave a d.par t2) ≡ some (t2, a) =
      subst (λ q. (increment_used_count q t1 >>= λ t2. leave a q t2) ≡ some (t2, a)) (sym e.parent)
        (bind_some (increment_used_count a t1) t2 _ (increment_lem a t1 (less d) at1) ∙ end) in
    (
      t2,
      rw (go_to_parent, e.here)
          (bind_some (decrement_used_count a t) t1 _ (decrement_lem a t d e.here) ∙ again),
      record {
        entry = more (less d);
        here = at2;
        parent = e.parent;
        numbered = e.numbered;
        leaf = e.leaf;
        next_self = e.next_self;
        prev_self = e.prev_self;
        used = omega (arith, e.used, e.room);
        room = omega (arith, e.used, e.room);
      },
      refl,
    )
