-- ===== src/Vfs/Chain.antt =====
-- The nodes from one of the tree up to the root, and what keeps them.
use yay_os.Base.{
  ℕ, ◌+◌, ◌≤◌, ◌<◌, ◌≡◌, ◌≢◌, refl, ◌∙◌, Option, none, some, List, [], ◌∷◌, arith, add64, sub64,
  u64_mod,
}
use yay_os.Vfs.Entry.{
  ◌>>=◌, DEntry, Tree, store, update, increment_used_count, decrement_used_count,
}

-- The node at an address is alive, in use and without children, and `k` more uses fit.
pub record IsEntry (t : Tree) (k a p n : ℕ) : Type 0 where
  pub entry : DEntry
  pub here : t.entries a ≡ some entry
  pub parent : entry.par ≡ p
  pub numbered : entry.node ≡ some n
  pub leaf : entry.chld ≡ none
  pub next_self : entry.next_entry ≡ some a
  pub prev_self : entry.prev_entry ≡ some a
  pub used : 0 < entry.used_count
  pub room : entry.used_count + k < u64_mod

-- The nodes from an address up to the root stand for the numbers, and were made in order.
abbrev pub Chain : Tree → ℕ → ℕ → List ℕ → Type 0
Chain t k a [] = ⊥
Chain t k a (n ∷ []) = IsEntry t k a a n
Chain t k a (n ∷ m ∷ ns) = (p : ℕ) × (p < a) × IsEntry t k a p n × Chain t k p (m ∷ ns)

-- The node at the front of a chain.
pub Chain-front :
    (t : Tree) (k a n : ℕ) (ns : List ℕ) → Chain t k a (n ∷ ns) → (p : ℕ) × IsEntry t k a p n
Chain-front t k a n [] c = (a, c)
Chain-front t k a n (m ∷ ns) (p, below, e, c) = (p, e)

pub IsEntry-same :
    (t t' : Tree) (k j a p n : ℕ)
    → j ≤ k
    → t'.entries a ≡ t.entries a
    → IsEntry t k a p n
    → IsEntry t' j a p n
IsEntry-same t t' k j a p n h same e = record {
  entry = e.entry;
  here = same ∙ e.here;
  parent = e.parent;
  numbered = e.numbered;
  leaf = e.leaf;
  next_self = e.next_self;
  prev_self = e.prev_self;
  used = e.used;
  room = omega (arith, h, e.room);
}

-- A tree that agrees up to an address has the same chain from there.
pub Chain-same :
    (t t' : Tree) (k j a : ℕ) (ns : List ℕ)
    → j ≤ k
    → ((b : ℕ) → b ≤ a → t'.entries b ≡ t.entries b)
    → Chain t k a ns
    → Chain t' j a ns
Chain-same t t' k j a [] h same c = c
Chain-same t t' k j a (n ∷ []) h same c = IsEntry-same t t' k j a a n h (same a (omega arith)) c
Chain-same t t' k j a (n ∷ m ∷ ns) h same (p, below, e, c) = (
  p,
  below,
  IsEntry-same t t' k j a p n h (same a (omega arith)) e,
  Chain-same t t' k j p (m ∷ ns) h (λ b l. same b (omega (arith, l, below))) c,
)

-- A chain whose first node is replaced.
pub Chain-put :
    (t t' : Tree) (k j a n : ℕ) (ns : List ℕ)
    → j ≤ k
    → ((b : ℕ) → b < a → t'.entries b ≡ t.entries b)
    → ((p : ℕ) → IsEntry t k a p n → IsEntry t' j a p n)
    → Chain t k a (n ∷ ns)
    → Chain t' j a (n ∷ ns)
Chain-put t t' k j a n [] h same put c = put a c
Chain-put t t' k j a n (m ∷ ns) h same put (p, below, e, c) = (
  p,
  below,
  put p e,
  Chain-same t t' k j p (m ∷ ns) h (λ b l. same b (omega (arith, l, below))) c,
)

-- A write through a pointer to a node.
pub update-store :
    (a : ℕ) (f : DEntry → DEntry) (t : Tree) (d : DEntry)
    → t.entries a ≡ some d
    → update a f t ≡ some (store a (some (f d)) t)
update-store a f t d h = rw (update, h) refl

pub store-here : (a : ℕ) (d : Option DEntry) (t : Tree) → (store a d t).entries a ≡ d
store-here a d t = ground arith

pub store-other :
    (a b : ℕ) (d : Option DEntry) (t : Tree) → a ≢ b → (store a d t).entries b ≡ t.entries b
store-other a b d t h = ground (arith, h)

abbrev pub more : DEntry → DEntry
more d = record d { used_count = add64 d.used_count 1 }

abbrev pub less : DEntry → DEntry
less d = record d { used_count = sub64 d.used_count 1 }

pub option-inj : {A : Type 0} (x y : A) → some x ≡ some y → x ≡ y
option-inj x y h = cc

pub bind_some :
    {A B : Type 0} (o : Option A) (x : A) (f : A → Option B) → o ≡ some x → (o >>= f) ≡ f x
bind_some o x f h = rw h refl

pub increment_lem :
    (a : ℕ) (t : Tree) (d : DEntry)
    → t.entries a ≡ some d
    → increment_used_count a t ≡ some (store a (some (more d)) t)
unfolding increment_used_count
increment_lem a t d h = update-store a more t d h

pub decrement_lem :
    (a : ℕ) (t : Tree) (d : DEntry)
    → t.entries a ≡ some d
    → decrement_used_count a t ≡ some (store a (some (less d)) t)
unfolding decrement_used_count
decrement_lem a t d h = update-store a less t d h
