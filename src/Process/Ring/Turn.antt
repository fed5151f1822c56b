-- ===== src/Process/Ring/Turn.antt =====
-- Turning the ring: `schedule`, and a process that suspends itself.
use mathlib.Core.List.{append_assoc}
use yay_os.Base.{
  ℕ, zero, suc, length, Option, none, subst, ◌∙◌, ◌≡◌, refl, sym, ◌≢◌, Bool, true, false, some,
  List, [], ◌∷◌, ◌++◌, arith, ◌==◌, not, ◌&&◌,
}
use yay_os.Process.{RunList, put, suspend_from_run_list, schedule}
use yay_os.Process.Ring.{
  NotIn, Distinct, last_of, Links, Linked, Chain, IsRing, NotIn-last, append-NotIn, Distinct-snoc,
  prev-end,
}

module _ (next prev : Links) where
  Chain-snoc :
      (a : ℕ) (xs : List ℕ) (z w : ℕ)
      → Chain next prev a xs z
      → Linked next prev z w
      → Chain next prev a (xs ++ z ∷ []) w
  Chain-snoc a [] z w c l = (c, l)
  Chain-snoc a (x ∷ xs) z w c l = (c.0, Chain-snoc x xs z w c.1 l)

  -- The last process of a chain is led to another end.
  Chain-retarget :
      (a : ℕ) (xs : List ℕ) (z w : ℕ)
      → Distinct (a ∷ xs)
      → NotIn w xs
      → Chain next prev a xs z
      → Chain (put next (last_of a xs) (some w)) (put prev w (some (last_of a xs))) a xs w
  Chain-retarget a [] z w d h c = (ground arith, ground arith)
  Chain-retarget a (x ∷ xs) z w d h c =
      let last = NotIn-last a x xs d.0 in
      ((ground arith, ground arith), Chain-retarget x xs z w d.1 h.1 c.1)

-- The ring seen from its second process.
IsRing-turn :
    (r : RunList) (x : ℕ) (rest : List ℕ)
    → IsRing r (x ∷ rest)
    → IsRing (record r { head = x }) (rest ++ r.head ∷ [])
IsRing-turn r x rest ring = record {
  chain = Chain-snoc r.next r.prev x rest r.head x ring.chain.1 ring.chain.0;
  head_once =
      append-NotIn x rest (r.head ∷ []) ring.distinct.0 ((λ e. ring.head_once.0 (sym e)), tt);
  distinct = Distinct-snoc rest r.head ring.distinct.1 ring.head_once.1;
}

-- `schedule` runs the next process of the ring and puts the one that ran at the end, unless the
-- next one is the idle process while no kernel stack waits to be freed.
pub schedule-next :
    (free_stack : Bool) (r : RunList) (x : ℕ) (rest : List ℕ)
    → IsRing r (x ∷ rest)
    → ((x == r.idle) && not free_stack) ≡ false
    → (schedule free_stack r ≡ some (record r { head = x }))
      × IsRing (record r { head = x }) (rest ++ r.head ∷ [])
unfolding schedule
schedule-next free_stack r x rest ring runs =
    (rw ring.chain.0.0 (ground arith), IsRing-turn r x rest ring)

-- `schedule`, `n` times.
unfoldable pub schedules : Bool → ℕ → RunList → Option RunList
schedules free_stack zero r = some r
schedules free_stack (suc n) r = elim (schedule free_stack r) [
  | none ↦ none
  | some r' ↦ schedules free_stack n r'
]

-- No process is the idle one, unless a kernel stack waits to be freed.
abbrev pub Runs : Bool → RunList → List ℕ → Type 0
Runs free_stack r [] = Unit {0}
Runs free_stack r (x ∷ xs) = (((x == r.idle) && not free_stack) ≡ false) × Runs free_stack r xs

schedules-suc :
    (free_stack : Bool) (r r' : RunList) (n : ℕ)
    → schedule free_stack r ≡ some r'
    → schedules free_stack (suc n) r ≡ schedules free_stack n r'
unfolding schedules
schedules-suc free_stack r r' n e = rw (schedules, e) refl

-- Every process of the ring gets its turn: unless it or one in front of it is the idle process while
-- no kernel stack waits to be freed, a process runs after as many schedules as there are processes
-- in front of it and one more; those in front of it then stand at the end of the ring, in order,
-- behind the one that ran at first.
pub schedules-turn :
    (free_stack : Bool) (r : RunList) (xs : List ℕ) (y : ℕ) (ys : List ℕ)
    → IsRing r (xs ++ y ∷ ys)
    → Runs free_stack r xs
    → ((y == r.idle) && not free_stack) ≡ false
    → (schedules free_stack (suc (length xs)) r ≡ some (record r { head = y }))
      × IsRing (record r { head = y }) (ys ++ r.head ∷ xs)
unfolding schedules
schedules-turn free_stack r [] y ys ring busy runs =
    let (turn, ring') = schedule-next free_stack r y ys ring runs in
    (schedules-suc free_stack r (record r { head = y }) 0 turn, ring')
schedules-turn free_stack r (x ∷ xs) y ys ring (busy_x, busy) runs =
    let r' = record r { head = x } in
    let (turn, ring') = schedule-next free_stack r x (xs ++ y ∷ ys) ring busy_x in
    let (later, ring2) =
      schedules-turn free_stack r' xs y (ys ++ r.head ∷ [])
        (subst (IsRing r') (append_assoc xs (y ∷ ys) (r.head ∷ [])) ring') busy runs in
    (
      schedules-suc free_stack r r' (suc (length xs)) turn ∙ later,
      subst (IsRing (record r { head = y })) (append_assoc ys (r.head ∷ []) (x ∷ xs)) ring2,
    )

-- While no kernel stack waits to be freed, an idle process that is next is passed over: the one behind it runs, and the idle process is the last
-- of the ring.
pub schedule-skips_idle :
    (r : RunList) (y : ℕ) (rest : List ℕ)
    → IsRing r (r.idle ∷ y ∷ rest)
    → (schedule false r ≡ some (record r { head = y }))
      × IsRing (record r { head = y }) ((rest ++ r.head ∷ []) ++ r.idle ∷ [])
unfolding schedule
schedule-skips_idle r y rest ring = (
  rw ring.chain.0.0 (ground (arith, ring.chain.1.0.0)),
  IsRing-turn (record r { head = r.idle }) y (rest ++ r.head ∷ [])
      (IsRing-turn r r.idle (y ∷ rest) ring),
)

-- A running process that suspends itself leaves the ring, and the next process runs; the order of
-- the others stays.
pub suspend_running :
    (r : RunList) (x : ℕ) (rest : List ℕ)
    → IsRing r (x ∷ rest)
    → (r' : RunList) × (suspend_from_run_list true r.head r ≡ some r')
      × (r'.head ≡ x)
      × IsRing r' rest
unfolding suspend_from_run_list
suspend_running r x rest ring =
    let last = last_of x rest in
    let before : r.prev r.head ≡ some last =
      prev-end r.next r.prev r.head (x ∷ rest) r.head ring.chain in
    let ne : last ≢ r.head = NotIn-last r.head x rest ring.head_once in
    (
      record r { next = put r.next last (some x); prev = put r.prev x (some last); head = x },
      rw (before, ring.chain.0.0) (ground (arith, ring.chain.0.0)),
      refl,
      record {
        chain =
            Chain-retarget r.next r.prev x rest r.head x ring.distinct ring.distinct.0 ring.chain.1;
        head_once = ring.distinct.0;
        distinct = ring.distinct.1;
      },
    )
