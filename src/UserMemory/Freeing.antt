-- ===== src/UserMemory/Freeing.antt =====
-- `free` gives a range back, and more than that where it touches an area.
use yay_os.Base.{
  ℕ, ◌+◌, ◌-◌, ◌^◌, ◌<◌, ◌≡◌, refl, sym, ap, subst, true, false, none, some, List, [], ◌∷◌, ◌==◌,
  ltb, leb, if◌then◌else◌, arith, ◌∙◌, set,
}
use yay_os.UserMemory.{
  Area, add64, sub64, area, alloc, find_best_fit, cut, find_last_before, find_right, join,
  give_back, free,
}
use yay_os.UserMemory.Areas.{Sorted, Sorted-bounds, add64_lem, sub64_lem}

alloc-single :
    (start n size : ℕ)
    → start + n < 2 ^ 64
    → size < n
    → alloc size (area start n ∷ []) ≡ (start, area (start + size) (n - size) ∷ [])
unfolding alloc find_best_fit
alloc-single start n size h k =
    let fits : ltb size n ≡ true = ground (arith, k) in
    let sum = add64_lem start size (omega (arith, h, k)) in
    let less = sub64_lem n size (omega (arith, k)) in
    let some_left : (n - size == 0) ≡ false = ground (arith, k) in
    let found : find_best_fit size 0 none (area start n ∷ []) ≡ some (0, area start n) =
      rw fits refl in
    subst
      (λ r.
        ◌≡◌ {A = ℕ × List Area}
          (elim r as (λ q. ℕ × List Area) [
            | none ↦ (0, area start n ∷ [])
            | some (i, a) ↦
                let areas' =
                  set (area start n ∷ []) i (area (add64 a.start size) (sub64 a.size size)) in
                (a.start, if sub64 a.size size == 0 then cut i areas' else areas')
          ])
          (start, area (start + size) (n - size) ∷ []))
      (sym found) (rw (sum, less, some_left) refl)

-- Nothing lies in front of an address that is below the end of the first area.
none_before :
    (addr : ℕ) (a : Area) (areas : List Area)
    → a.start + a.size < 2 ^ 64
    → addr < a.start + a.size
    → find_last_before addr (a ∷ areas) ≡ ([], a ∷ areas)
unfolding find_last_before
none_before addr a areas h k =
    let end = add64_lem a.start a.size h in
    let below : ltb addr (a.start + a.size) ≡ true = ground (arith, k) in rw (end, below) refl

module _ (addr size : ℕ) (a : Area) (areas : List Area) (right : Area) (after : List Area)
    (e : addr + size ≡ a.start) (h : a.start + a.size < 2 ^ 64)
    (f : find_right (addr + size) a areas ≡ (right, after)) (r : right.start + right.size < 2 ^ 64)
    (g : addr + size < right.start + right.size) where
  join-right : join addr size a areas ≡ area addr (right.start + right.size - addr) ∷ after
  unfolding join
  join-right =
      let sum = add64_lem addr size (omega (arith, h, e)) in
      let end = add64_lem right.start right.size r in
      let above : ltb (addr + size) (right.start + right.size) ≡ true = ground (arith, g) in
      let front : (if ltb a.start addr then a.start else addr) ≡ addr = ground (arith, e) in
      let whole = sub64_lem (right.start + right.size) addr (omega (arith, g)) in
      rw (sum, f, end, above, front, whole) refl

  -- A range that ends where the first area starts becomes one area with all up to `right`.
  free-right :
      0 < a.size
      → free true addr size (a ∷ areas) ≡ some (area addr (right.start + right.size - addr) ∷ after)
  unfolding free give_back
  free-right k =
      let touches : ltb (add64 addr size) a.start ≡ false =
        rw (add64_lem addr size (omega (arith, h, e))) (ground (arith, e)) in
      let linked : give_back true addr size [] (a ∷ areas) ≡ some (join addr size a areas) =
        rw touches refl in
      subst
        (λ q.
          give_back true addr size q.0 q.1
          ≡ some (area addr (right.start + right.size - addr) ∷ after))
        (sym (none_before addr a areas h (omega (arith, e, k)))) (linked ∙ ap some join-right)

-- On an allocator with one area that is longer than the request and ends below 2^64, giving back what `alloc` has just handed out restores the area.
pub free-alloc :
    (start n size : ℕ)
    → start + n < 2 ^ 64
    → size < n
    → free true (alloc size (area start n ∷ [])).0 size (alloc size (area start n ∷ [])).1
      ≡ some (area start n ∷ [])
unfolding find_right
free-alloc start n size h k =
    let freed : free true start size (area (start + size) (n - size) ∷ [])
        ≡ some (area start (start + size + (n - size) - start) ∷ []) =
      free-right start size (area (start + size) (n - size)) [] (area (start + size) (n - size)) []
        refl (omega (arith, h, k)) refl (omega (arith, h, k)) (omega (arith, k))
        (omega (arith, k)) in
    let same : start + size + (n - size) - start ≡ n = omega (arith, k) in
    subst (λ r. free true r.0 size r.1 ≡ some (area start n ∷ []))
      (sym (alloc-single start n size h k)) (freed ∙ (ap (λ m. some (area start m ∷ [])) same))

stops :
    (limit : ℕ) (b : Area) (areas : List Area)
    → leb b.start limit ≡ false
    → find_right limit b areas ≡ (b, areas)
unfolding find_right
stops limit b [] e = refl
stops limit b (a ∷ areas) e = rw e refl

-- On areas in order below 2^64, giving back a range that ends where the first of two areas starts: afterwards everything from its start to
-- the end of the second area is free, whatever was in use between the two.
pub free_swallows :
    (addr size lo hi : ℕ) (a b : Area) (areas : List Area)
    → addr + size ≡ a.start
    → 0 < a.size
    → 0 < b.size
    → Sorted lo hi (a ∷ b ∷ areas)
    → hi < 2 ^ 64
    → free true addr size (a ∷ b ∷ areas) ≡ some (area addr (b.start + b.size - addr) ∷ areas)
unfolding find_right
free_swallows addr size lo hi a b areas e k m (s, (t, u)) h =
    let end = Sorted-bounds (b.start + b.size) hi areas u in
    let go : leb a.start (addr + size) ≡ true = ground (arith, e) in
    let stop : leb b.start (addr + size) ≡ false = ground (arith, e, t, k) in
    free-right addr size a (b ∷ areas) b areas e (omega (arith, t, end, h))
      (rw go (stops (addr + size) b areas stop)) (omega (arith, end, h)) (omega (arith, e, t, m)) k
