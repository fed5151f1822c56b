-- ===== src/Process/Ring.antt =====
-- The run list is a ring of processes, and the operations on it insert behind the last one, take
-- one out, and turn the ring.
pub mod Turn
use yay_os.Base.{
  ℕ, zero, suc, ◌≡◌, refl, sym, ◌∙◌, ◌≢◌, inl, inr, ◌⊎◌, Bool, true, false, Option, none, some,
  List, [], ◌∷◌, ◌++◌, arith, ◌==◌, if◌then◌else◌, Bool-cases, not, ◌&&◌,
}
use yay_os.Process.{RunList, put, ◌>>=◌, add_to_run_list, suspend_from_run_list, schedule}

abbrev pub NotIn : ℕ → List ℕ → Type 0
NotIn p [] = Unit {0}
NotIn p (x ∷ xs) = (p ≢ x) × NotIn p xs

abbrev pub Distinct : List ℕ → Type 0
Distinct [] = Unit {0}
Distinct (x ∷ xs) = NotIn x xs × Distinct xs

abbrev pub last_of : ℕ → List ℕ → ℕ
last_of a [] = a
last_of a (x ∷ xs) = last_of x xs

abbrev pub first_of : List ℕ → ℕ → ℕ
first_of [] z = z
first_of (x ∷ xs) z = x

abbrev pub Links : Type 0
Links = ℕ → Option ℕ

-- `b` follows `a`.
abbrev pub Linked : Links → Links → ℕ → ℕ → Type 0
Linked next prev a b = (next a ≡ some b) × (prev b ≡ some a)

-- From `a` the links lead through the processes of the list to `z`, and back.
abbrev pub Chain : Links → Links → ℕ → List ℕ → ℕ → Type 0
Chain next prev a [] z = Linked next prev a z
Chain next prev a (x ∷ xs) z = Linked next prev a x × Chain next prev x xs z

-- The ring of the running process and the processes that run after it, in order.
pub record IsRing (r : RunList) (rest : List ℕ) : Type 0 where
  pub chain : Chain r.next r.prev r.head rest r.head
  pub head_once : NotIn r.head rest
  pub distinct : Distinct rest

pub NotIn-last : (a x : ℕ) (xs : List ℕ) → NotIn a (x ∷ xs) → last_of x xs ≢ a
NotIn-last a x [] h = λ e. h.0 (sym e)
NotIn-last a x (y ∷ xs) h = NotIn-last a y xs h.1

first_of-ne : (x : ℕ) (ys : List ℕ) (z : ℕ) → NotIn x ys → z ≢ x → first_of ys z ≢ x
first_of-ne x [] z h ne = ne
first_of-ne x (y ∷ ys) z h ne = λ e. h.0 (sym e)

NotIn-append : (p : ℕ) (xs ys : List ℕ) → NotIn p (xs ++ ys) → NotIn p xs × NotIn p ys
NotIn-append p [] ys h = (tt, h)
NotIn-append p (x ∷ xs) ys h = let (a, b) = NotIn-append p xs ys h.1 in ((h.0, a), b)

pub append-NotIn : (p : ℕ) (xs ys : List ℕ) → NotIn p xs → NotIn p ys → NotIn p (xs ++ ys)
append-NotIn p [] ys h k = k
append-NotIn p (x ∷ xs) ys h k = (h.0, append-NotIn p xs ys h.1 k)

pub Distinct-snoc : (xs : List ℕ) (p : ℕ) → Distinct xs → NotIn p xs → Distinct (xs ++ p ∷ [])
Distinct-snoc [] p d h = (tt, tt)
Distinct-snoc (x ∷ xs) p d h =
    (append-NotIn x xs (p ∷ []) d.0 ((λ e. h.0 (sym e)), tt), Distinct-snoc xs p d.1 h.1)

Distinct-remove :
    (xs : List ℕ) (p : ℕ) (ys : List ℕ) → Distinct (xs ++ p ∷ ys) → Distinct (xs ++ ys)
Distinct-remove [] p ys d = d.1
Distinct-remove (x ∷ xs) p ys d =
    let (a, b) = NotIn-append x xs (p ∷ ys) d.0 in
    (append-NotIn x xs ys a b.1, Distinct-remove xs p ys d.1)

module _ (next prev : Links) where
  pub prev-end :
      (a : ℕ) (xs : List ℕ) (z : ℕ) → Chain next prev a xs z → prev z ≡ some (last_of a xs)
  prev-end a [] z c = c.1
  prev-end a (x ∷ xs) z c = prev-end x xs z c.1

  next-start :
      (a : ℕ) (xs : List ℕ) (z : ℕ) → Chain next prev a xs z → next a ≡ some (first_of xs z)
  next-start a [] z c = c.0
  next-start a (x ∷ xs) z c = c.0.0

  -- The neighbours of a process within a chain.
  neighbours :
      (a : ℕ) (xs : List ℕ) (p : ℕ) (ys : List ℕ) (z : ℕ)
      → Chain next prev a (xs ++ p ∷ ys) z
      → (prev p ≡ some (last_of a xs)) × (next p ≡ some (first_of ys z))
  neighbours a [] p ys z c = (c.0.1, next-start p ys z c.1)
  neighbours a (x ∷ xs) p ys z c = neighbours x xs p ys z c.1

  -- One link each way is rewritten, `next` at a process in front of the chain or at its start,
  -- and `prev` at one that the chain does not lead to.
  frame :
      (u v : ℕ) (s t : Option ℕ) (a : ℕ) (xs : List ℕ) (z : ℕ)
      → NotIn u (a ∷ xs)
      → NotIn v xs
      → v ≢ z
      → Chain next prev a xs z
      → Chain (put next u s) (put prev v t) a xs z
  frame u v s t a [] z hu hv hz c = (ground arith, ground arith)
  frame u v s t a (x ∷ xs) z hu hv hz c = (ground arith, frame u v s t x xs z hu.1 hv.1 hz c.1)

  -- A process is put in front of the end of a chain.
  append-Chain :
      (p a : ℕ) (xs : List ℕ) (z : ℕ)
      → NotIn p (a ∷ xs)
      → p ≢ z
      → NotIn z xs
      → Distinct (a ∷ xs)
      → Chain next prev a xs z
      → Chain
          (put (put next p (some z)) (last_of a xs) (some p))
          (put (put prev p (some (last_of a xs))) z (some p))
          a
          (xs ++ p ∷ [])
          z
  append-Chain p a [] z hp hz hx d c = (ground arith, ground arith)
  append-Chain p a (x ∷ xs) z hp hz hx d c =
      let ne = NotIn-last a x xs d.0 in
      let step : Linked (put (put next p (some z)) (last_of x xs) (some p))
          (put (put prev p (some (last_of x xs))) z (some p)) a x =
        ground arith in
      (step, append-Chain p x xs z hp.1 hz hx.1 d.1 c.1)

  -- A process is taken out of a chain.
  remove-Chain :
      (a : ℕ) (xs : List ℕ) (p : ℕ) (ys : List ℕ) (z : ℕ)
      → Distinct (a ∷ xs ++ p ∷ ys)
      → NotIn z (xs ++ p ∷ ys)
      → Chain next prev a (xs ++ p ∷ ys) z
      → Chain
          (put next (last_of a xs) (some (first_of ys z)))
          (put prev (first_of ys z) (some (last_of a xs)))
          a
          (xs ++ ys)
          z
  remove-Chain a [] p [] z d hz c = (ground arith, ground arith)
  remove-Chain a [] p (y ∷ ys) z d hz c = (
    (ground arith, ground arith),
    frame a y (some y) (some a) y ys z d.0.1 d.1.1.0 (λ e. hz.1.0 (sym e)) c.1.1,
  )
  remove-Chain a (x ∷ xs) p ys z d hz c =
      let (front, _) = NotIn-append a (x ∷ xs) (p ∷ ys) d.0 in
      let (_, back) = NotIn-append x xs (p ∷ ys) d.1.0 in
      let last = NotIn-last a x xs front in
      let first = first_of-ne x ys z back.1 hz.0 in
      ((ground arith, ground arith), remove-Chain x xs p ys z d.1 hz.1 c.1)

add_to_run_list-eq :
    (r : RunList) (p last : ℕ)
    → r.prev r.head ≡ some last
    → p ≢ r.head
    → add_to_run_list p r
      ≡ some (record r {
        next = put (put r.next p (some r.head)) last (some p);
        prev = put (put r.prev p (some last)) r.head (some p);
      })
unfolding add_to_run_list
add_to_run_list-eq r p last e ne = rw e

-- `addToRunList` puts a process that is not in the ring at its end, so that it runs last, and
-- leaves the running process.
pub add_to_run_list-IsRing :
    (r : RunList) (rest : List ℕ) (p : ℕ)
    → IsRing r rest
    → NotIn p (r.head ∷ rest)
    → (r' : RunList) × (add_to_run_list p r ≡ some r')
      × (r'.head ≡ r.head)
      × IsRing r' (rest ++ p ∷ [])
add_to_run_list-IsRing r rest p ring new = (
  record r {
    next = put (put r.next p (some r.head)) (last_of r.head rest) (some p);
    prev = put (put r.prev p (some (last_of r.head rest))) r.head (some p);
  },
  add_to_run_list-eq r p (last_of r.head rest)
      (prev-end r.next r.prev r.head rest r.head ring.chain) new.0,
  refl,
  record {
    chain =
        append-Chain r.next r.prev p r.head rest r.head new new.0 ring.head_once
          (ring.head_once, ring.distinct) ring.chain;
    head_once = append-NotIn r.head rest (p ∷ []) ring.head_once ((λ e. new.0 (sym e)), tt);
    distinct = Distinct-snoc rest p ring.distinct new.1;
  },
)

-- `suspendFromRunList` takes a process that is not running out of the ring and leaves the order of
-- the others.
pub suspend-IsRing :
    (free_stack : Bool) (r : RunList) (xs ys : List ℕ) (p : ℕ)
    → IsRing r (xs ++ p ∷ ys)
    → (r' : RunList) × (suspend_from_run_list free_stack p r ≡ some r')
      × (r'.head ≡ r.head)
      × IsRing r' (xs ++ ys)
unfolding suspend_from_run_list
suspend-IsRing free_stack r xs ys p ring =
    let (before, after) = neighbours r.next r.prev r.head xs p ys r.head ring.chain in
    let (front, back) = NotIn-append r.head xs (p ∷ ys) ring.head_once in
    (
      record r {
        next = put r.next (last_of r.head xs) (some (first_of ys r.head));
        prev = put r.prev (first_of ys r.head) (some (last_of r.head xs));
      },
      rw (before, after) (ground (arith, back)),
      refl,
      record {
        chain =
            remove-Chain r.next r.prev r.head xs p ys r.head (ring.head_once, ring.distinct)
              ring.head_once ring.chain;
        head_once = append-NotIn r.head xs ys front back.1;
        distinct = Distinct-remove xs p ys ring.distinct;
      },
    )
