-- ===== src/Vfs/Missing.antt =====
-- A walk that does not find a name deletes the node where it stands twice.
use yay_os.Base.{
  ℕ, suc, ◌+◌, ◌-◌, ◌<◌, ◌≡◌, refl, sym, subst, ◌∙◌, true, Option, none, some, arith, sub64,
}
use yay_os.Vfs.Entry.{DEntry, Tree, store, ◌>>=◌, decrement_used_count, drop_entry, dispose}
use yay_os.Vfs.Walking.{drop_rec, walk_on}
use yay_os.Vfs.Chain.{IsEntry, less, bind_some, decrement_lem, store-here, store-other}
use yay_os.Vfs.Dropping.{dropped, gone, u4, u5, u5-Dropped}

dispose-gone : (a : ℕ) (t : Tree) → t.entries a ≡ none → dispose a t ≡ none
unfolding dispose
dispose-gone a t h = rw (dispose, h) refl

bind_none : {A B : Type 0} (o : Option A) (f : A → Option B) → o ≡ none → (o >>= f) ≡ none
bind_none o f h = rw h refl

-- The node that is gone is disposed of again.
second_round :
    (t : Tree) (b a r n : ℕ) (d dr : DEntry) (fuel : ℕ)
    → t.entries b ≡ none
    → t.entries a ≡ some d
    → t.entries r ≡ some dr
    → d.par ≡ r
    → r < a
    → a < b
    → d.node ≡ some n
    → d.next_entry ≡ some a
    → d.prev_entry ≡ some a
    → d.used_count ≡ 0
    → drop_rec (suc fuel) b a t ≡ none
unfolding drop_rec
second_round t b a r n d dr fuel missing here above parent low high numbered next_self prev_self
      unused =
    let t4 = u4 t a r n d dr here above parent low numbered next_self prev_self unused in
    let still : t4.entries b ≡ none = ground (arith, missing, low, high) in
    rw (drop_rec, here)
      (bind_some (drop_entry a t) (t4, true) _
          (dropped t a r n d dr here above parent low numbered next_self prev_self unused)
        ∙ bind_none (dispose b t4) _ (dispose-gone b t4 still))

-- A name is missing two levels below the root: when the node `b` where the walk stands and the
-- directory `a` it was made in are used by nothing but the walk, the walk deletes `b`, goes on to
-- `a`, and disposes of `b` again, a fault.
pub walk_missing-faults :
    (t : Tree) (rest : ℕ → Tree → Option (Tree × Option ℕ)) (k b a r n m o : ℕ)
    (eb : IsEntry t k b a n) (ea : IsEntry t k a r m) (er : IsEntry t k r r o)
    → b < t.fresh
    → r < a
    → a < b
    → eb.entry.used_count ≡ 1
    → ea.entry.used_count ≡ 1
    → walk_on rest b t none ≡ none
unfolding walk_on drop_rec
walk_missing-faults t rest k b a r n m o eb ea er old low high one_b one_a =
    let d = less (eb.entry) in
    let t1 = store b (some d) t in
    let at_b : t1.entries b ≡ some d = store-here b (some d) t in
    let at_a : t1.entries a ≡ some ea.entry =
      store-other b a (some d) t (omega (arith, high)) ∙ ea.here in
    let at_r : t1.entries r ≡ some er.entry =
      store-other b r (some d) t (omega (arith, high, low)) ∙ er.here in
    let unused : sub64 eb.entry.used_count 1 ≡ 0 = omega (arith, one_b) in
    let unused' : sub64 ea.entry.used_count 1 ≡ 0 = omega (arith, one_a) in
    let t4 =
      u4 t1 b a n d ea.entry at_b at_a eb.parent high eb.numbered eb.next_self eb.prev_self
        unused in
    let t5 =
      u5 t1 b a n d ea.entry at_b at_a eb.parent high eb.numbered eb.next_self eb.prev_self
        unused in
    let (fresh, up, same) =
      u5-Dropped t1 b a n d ea.entry at_b at_a eb.parent high eb.numbered eb.next_self eb.prev_self
        unused in
    let faults : drop_rec (suc (t.fresh - 1)) b a t5 ≡ none =
      second_round t5 b a r m (less ea.entry) er.entry (t.fresh - 1) (store-here b none t4) up
        (same r (omega (arith, low, high)) (omega (arith, low)) ∙ at_r) ea.parent low high
        ea.numbered ea.next_self ea.prev_self unused' in
    let fuel : t.fresh + 1 ≡ suc (suc (t.fresh - 1)) = omega (arith, old) in
    let first : drop_rec (suc (suc (t.fresh - 1))) b b t1 ≡ none =
      rw (drop_rec, at_b)
        (bind_some (drop_entry b t1) (t4, true) _
            (dropped t1 b a n d ea.entry at_b at_a eb.parent high eb.numbered eb.next_self
              eb.prev_self unused)
          ∙ bind_some (dispose b t4) t5 _ (
              gone t1 b a n d ea.entry at_b at_a eb.parent high eb.numbered eb.next_self
                eb.prev_self unused)
          ∙ subst (λ q. drop_rec (suc (t.fresh - 1)) b q t5 ≡ none) (sym eb.parent) faults) in
    bind_some (decrement_used_count b t) t1 _ (decrement_lem b t eb.entry eb.here)
    ∙ bind_none (drop_rec (t.fresh + 1) b b t1) _ (rw fuel first)
