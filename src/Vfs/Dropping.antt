-- ===== src/Vfs/Dropping.antt =====
-- Deleting a node that nobody uses: the links are cut, the parent loses a use, the node is gone.
use yay_os.Base.{
  ℕ, ◌<◌, ◌≡◌, ◌≢◌, refl, sym, subst, ◌∙◌, true, false, Option, none, some, arith, ltb,
}
use yay_os.Vfs.Entry.{
  DEntry, Tree, store, decrement_used_count, set_next, set_prev, cut_links, drop_entry, dispose,
}
use yay_os.Vfs.Walking.{disposed, leave}
use yay_os.Vfs.Chain.{update-store, store-here, store-other, less, bind_some, decrement_lem}

-- What deleting a node leaves: the parent has a use less.
abbrev pub Dropped : Tree → ℕ → ℕ → DEntry → Tree → Type 0
Dropped t a p dp t' =
    (t'.fresh ≡ t.fresh)
    × (t'.entries p ≡ some (less dp))
    × ((b : ℕ) → b ≢ a → b ≢ p → t'.entries b ≡ t.entries b)

set_next_self :
    (a : ℕ) (v w : Option ℕ) (t : Tree) (d : DEntry)
    → v ≡ some a
    → t.entries a ≡ some d
    → set_next v w t ≡ some (store a (some (record d { next_entry = w })) t)
set_next_self a v w t d e h =
    subst (λ v. set_next v w t ≡ some (store a (some (record d { next_entry = w })) t)) (sym e)
      (update-store a (λ d. record d { next_entry = w }) t d h)

set_prev_self :
    (a : ℕ) (v w : Option ℕ) (t : Tree) (d : DEntry)
    → v ≡ some a
    → t.entries a ≡ some d
    → set_prev v w t ≡ some (store a (some (record d { prev_entry = w })) t)
set_prev_self a v w t d e h =
    subst (λ v. set_prev v w t ≡ some (store a (some (record d { prev_entry = w })) t)) (sym e)
      (update-store a (λ d. record d { prev_entry = w }) t d h)

module _ (t : Tree) (a p n : ℕ) (d dp : DEntry) (here : t.entries a ≡ some d)
    (above : t.entries p ≡ some dp) (parent : d.par ≡ p) (apart : p < a)
    (numbered : d.node ≡ some n) (next_self : d.next_entry ≡ some a)
    (prev_self : d.prev_entry ≡ some a) (unused : d.used_count ≡ 0) where
  abbrev u1 : Tree
  u1 = store p (some (less dp)) t

  abbrev u2 : Tree
  u2 = store a (some d) u1

  abbrev u3 : Tree
  u3 = store a (some d) u2

  abbrev pub u4 : Tree
  u4 = store a (some (record d { next_entry = none; prev_entry = none })) u3

  cut : cut_links a u1 ≡ some u4
  unfolding cut_links
  cut =
      let at1 : u1.entries a ≡ some d =
        store-other p a (some (less dp)) t (omega (arith, apart)) ∙ here in
      let at2 : u2.entries a ≡ some d = store-here a (some d) u1 in
      let at3 : u3.entries a ≡ some d = store-here a (some d) u2 in
      rw (cut_links, at1)
        (bind_some (set_next d.prev_entry d.next_entry u1) u2 _
            (set_next_self a d.prev_entry d.next_entry u1 d prev_self at1)
          ∙ (rw at2 (
              bind_some (set_prev d.next_entry d.prev_entry u2) u3 _
                (set_prev_self a d.next_entry d.prev_entry u2 d next_self at2)
              ∙ update-store a (λ e. record e { next_entry = none; prev_entry = none }) u3 d at3)))

  pub dropped : drop_entry a t ≡ some (u4, true)
  unfolding drop_entry
  dropped =
      let idle : ltb 0 d.used_count ≡ false = ground (arith, unused) in
      let parent_less : decrement_used_count d.par t ≡ some u1 =
        subst (λ q. decrement_used_count q t ≡ some u1) (sym parent) (decrement_lem p t dp above) in
      rw (drop_entry, here, idle)
        (bind_some (decrement_used_count d.par t) u1 _ parent_less
          ∙ bind_some (cut_links a u1) u4 _ cut)

  abbrev pub u5 : Tree
  u5 = store a none u4

  pub gone : dispose a u4 ≡ some u5
  unfolding dispose
  gone =
      let at4 = store-here a (some (record d { next_entry = none; prev_entry = none })) u3 in
      rw (dispose, at4)
        (subst (λ o. (elim o [ none ↦ none | some num ↦ some u5 ]) ≡ some u5) (sym numbered) refl)

  pub left : leave a p t ≡ some (u5, p)
  unfolding leave disposed
  left =
      let idle : ltb 0 d.used_count ≡ false = ground (arith, unused) in
      rw (leave, here, idle)
        (bind_some (drop_entry a t) (u4, true) _ dropped ∙ bind_some (dispose a u4) u5 _ gone)

  pub u5-Dropped : Dropped t a p dp u5
  u5-Dropped = (
    refl,
    store-other a p none u4 (omega (arith, apart))
        ∙ store-other a p (some (record d { next_entry = none; prev_entry = none })) u3
            (omega (arith, apart))
        ∙ store-other a p (some d) u2 (omega (arith, apart))
        ∙ store-other a p (some d) u1 (omega (arith, apart))
        ∙ store-here p (some (less dp)) t,
    λ b ne ne'.
        store-other a b none u4 (λ e. ne (sym e))
        ∙ store-other a b (some (record d { next_entry = none; prev_entry = none })) u3
            (λ e. ne (sym e))
        ∙ store-other a b (some d) u2 (λ e. ne (sym e))
        ∙ store-other a b (some d) u1 (λ e. ne (sym e))
        ∙ store-other p b (some (less dp)) t (λ e. ne' (sym e)),
  )
