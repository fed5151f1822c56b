-- ===== src/Shell/Editor/Refine.antt =====
-- The editor against a text with a cursor in it.
use yay_os.Base.{
  ◌^◌, ℕ, suc, ◌+◌, ◌-◌, ◌≤◌, ◌<◌, ◌≡◌, refl, sym, ap, subst, ◌∙◌, inl, inr, Bool, true, false,
  Option, none, some, List, [], ◌∷◌, ◌++◌, ◌==◌, if◌then◌else◌, arith, length, take, Bool-cases,
  not, ◌||◌, ◌&&◌,
}
use yay_os.Shell.{putc, puts}
use yay_os.Shell.Buffer.{insert_at, delete_at, take-insert_char, take-remove_char}
use yay_os.Shell.Editor.{
  Line, Mode, key, after_escape, after_bracket, type_char, rub_out, move_left, move_right, is_arrow,
  feed, view, view_in, edit, render, getline, escape, backspace, delete, carriage_return,
}
use yay_os.Shell.Editor.Invariant.{
  IsValid, type_char-IsValid, rub_out-IsValid, move_left-IsValid, move_right-IsValid,
  view_in-IsValid,
}

-- The characters in front of the cursor, the nearest first, and those behind it.
pub record Text : Type 0 where
  pub before : List ℕ
  pub after : List ℕ

abbrev pub reverse_onto : List ℕ → List ℕ → List ℕ
reverse_onto [] ys = ys
reverse_onto (x ∷ xs) ys = reverse_onto xs (x ∷ ys)

abbrev pub characters : Text → List ℕ
characters t = reverse_onto t.before t.after

unfoldable pub type_text : ℕ → ℕ → Text → Text
type_text size c t =
    if length t.before + length t.after == size then t else record t { before = c ∷ t.before }

unfoldable pub rub_text : Text → Text
rub_text t = elim t.before [ [] ↦ t | x ∷ xs ↦ record t { before = xs } ]

unfoldable pub left_text : Text → Text
left_text t = elim t.before [ [] ↦ t | x ∷ xs ↦ record { before = xs; after = x ∷ t.after } ]

unfoldable pub right_text : Text → Text
right_text t = elim t.after [ [] ↦ t | x ∷ xs ↦ record { before = x ∷ t.before; after = xs } ]

-- What a byte of input means for the text.
unfoldable pub feed_text : ℕ → Mode → ℕ → Text → Option (Mode × Text)
unfolding type_text rub_text left_text right_text
feed_text size key c t =
    if c == carriage_return
    then none
    else if (c == backspace) || (c == delete)
    then some (key, rub_text t)
    else if c == escape
    then some (after_escape, t)
    else some (key, type_text size c t)
feed_text size after_escape c t =
    if c == b'[' then some (after_bracket, t) else some (after_bracket, type_text size c t)
feed_text size after_bracket c t =
    let t' = if is_arrow c then t else type_text size c (type_text size b'[' t) in
    if (c == b'A') || (c == b'B')
    then some (key, t')
    else if c == b'D'
    then some (key, left_text t')
    else some (key, right_text t')

unfoldable pub edit_text : ℕ → Mode → Text → List ℕ → Option Text
unfolding feed_text
edit_text size m t [] = none
edit_text size m t (c ∷ cs) = elim (feed_text size m c t) [
  | none ↦ some t
  | some (m', t') ↦ edit_text size m' t' cs
]

-- The line shows the text.
pub record Represents (l : Line) (t : Text) : Type 0 where
  pub shown : take l.len l.buf ≡ characters t
  pub cursor : l.pos ≡ length t.before
  pub total : l.len ≡ length t.before + length t.after

insert_at-reverse_onto :
    (b a : List ℕ) (j c : ℕ)
    → insert_at (length b + j) c (reverse_onto b a) ≡ reverse_onto b (insert_at j c a)
unfolding insert_at
insert_at-reverse_onto [] a j c = let e : 0 + j ≡ j = omega arith in rw e
insert_at-reverse_onto (x ∷ b) a j c =
    let e : suc (length b) + j ≡ length b + suc j = omega arith in
    rw e (insert_at-reverse_onto b (x ∷ a) (suc j) c)

delete_at-reverse_onto :
    (b a : List ℕ) (j : ℕ)
    → delete_at (length b + j) (reverse_onto b a) ≡ reverse_onto b (delete_at j a)
unfolding delete_at
delete_at-reverse_onto [] a j = let e : 0 + j ≡ j = omega arith in rw e
delete_at-reverse_onto (x ∷ b) a j =
    let e : suc (length b) + j ≡ length b + suc j = omega arith in
    rw e (delete_at-reverse_onto b (x ∷ a) (suc j))

abbrev text : List ℕ → List ℕ → Text
text b a = record { before = b; after = a }

inserted :
    (b a : List ℕ) (i c : ℕ)
    → i ≡ length b
    → insert_at i c (reverse_onto b a) ≡ reverse_onto b (c ∷ a)
unfolding insert_at
inserted b a i c e =
    let f : i ≡ length b + 0 = omega (arith, e) in rw f (insert_at-reverse_onto b a 0 c)

deleted :
    (b a : List ℕ) (i x : ℕ)
    → i ≡ length b
    → delete_at i (reverse_onto b (x ∷ a)) ≡ reverse_onto b a
unfolding delete_at
deleted b a i x e =
    let f : i ≡ length b + 0 = omega (arith, e) in rw f (delete_at-reverse_onto b (x ∷ a) 0)

module _ (size : ℕ) (l : Line) (v : IsValid size l) where
  type_char-Represents :
      (t : Text) → Represents l t → (c : ℕ) → Represents (type_char size c l) (type_text size c t)
  unfolding type_char type_text
  type_char-Represents t r c = elim (Bool-cases (l.len == size)) [
    | inl full ↦ rw (full, ← r.total, full) r
    | inr room ↦
        rw (← r.total, room)
          (record {
            shown =
                take-insert_char l.buf l.pos l.len c v.cursor (omega (arith, v.fits, v.buffer))
                ∙ (rw r.shown (inserted t.before t.after l.pos c r.cursor));
            cursor = omega (arith, r.cursor);
            total = omega (arith, r.total);
          })
  ]

  rub_out-text :
      (b a : List ℕ) → Represents l (text b a) → Represents (rub_out l) (rub_text (text b a))
  unfolding rub_out rub_text
  rub_out-text [] a r = let e : (l.pos == 0) ≡ true = ground (arith, r.cursor) in rw e r
  rub_out-text (x ∷ b) a r =
      let e : (l.pos == 0) ≡ false = ground (arith, r.cursor) in
      rw e (record {
        shown =
            take-remove_char l.buf (l.pos - 1) l.len (omega (arith, r.cursor, r.total))
              (omega (arith, v.fits, v.buffer))
            ∙ (rw r.shown (deleted b a (l.pos - 1) x (omega (arith, r.cursor))));
        cursor = omega (arith, r.cursor);
        total = omega (arith, r.total);
      })

  move_left-text :
      (b a : List ℕ) → Represents l (text b a) → Represents (move_left l) (left_text (text b a))
  unfolding move_left left_text
  move_left-text [] a r = let e : (l.pos == 0) ≡ true = ground (arith, r.cursor) in rw e r
  move_left-text (x ∷ b) a r =
      let e : (l.pos == 0) ≡ false = ground (arith, r.cursor) in
      rw e (record {
        shown = r.shown;
        cursor = omega (arith, r.cursor);
        total = omega (arith, r.total);
      })

  move_right-text :
      (b a : List ℕ) → Represents l (text b a) → Represents (move_right l) (right_text (text b a))
  unfolding move_right right_text
  move_right-text b [] r =
      let e : (l.pos == l.len) ≡ true = ground (arith, r.cursor, r.total) in rw e r
  move_right-text b (x ∷ a) r =
      let e : (l.pos == l.len) ≡ false = ground (arith, r.cursor, r.total) in
      rw e (record {
        shown = r.shown;
        cursor = omega (arith, r.cursor);
        total = omega (arith, r.total);
      })

-- A line in order that shows the text.
pub record Shows (size : ℕ) (l : Line) (t : Text) : Type 0 where
  pub valid : IsValid size l
  pub text : Represents l t

module _ (size : ℕ) (l : Line) (t : Text) (s : Shows size l t) where
  type_char-Shows : (c : ℕ) → Shows size (type_char size c l) (type_text size c t)
  type_char-Shows c = record {
    valid = type_char-IsValid size l s.valid c;
    text = type_char-Represents size l s.valid t s.text c;
  }

  rub_out-Shows : Shows size (rub_out l) (rub_text t)
  rub_out-Shows = record {
    valid = rub_out-IsValid size l s.valid;
    text = rub_out-text size l s.valid t.before t.after s.text;
  }

  move_left-Shows : Shows size (move_left l) (left_text t)
  move_left-Shows = record {
    valid = move_left-IsValid size l s.valid;
    text = move_left-text size l s.valid t.before t.after s.text;
  }

  move_right-Shows : Shows size (move_right l) (right_text t)
  move_right-Shows = record {
    valid = move_right-IsValid size l s.valid;
    text = move_right-text size l s.valid t.before t.after s.text;
  }

  -- What is written out does not matter.
  printed-Shows : (o : List ℕ) → Shows size (record l { out = o }) t
  printed-Shows o = record {
    valid = record { cursor = s.valid.cursor; fits = s.valid.fits; buffer = s.valid.buffer };
    text = record { shown = s.text.shown; cursor = s.text.cursor; total = s.text.total };
  }

  view_in-Shows : (m : Mode) → Shows size (view_in m l) t
  unfolding view
  view_in-Shows key = record {
    valid = view_in-IsValid size l s.valid key;
    text = record { shown = s.text.shown; cursor = s.text.cursor; total = s.text.total };
  }
  view_in-Shows after_escape = s
  view_in-Shows after_bracket = s

-- Both wait for the same next, or both are at the end.
abbrev pub Fed : ℕ → Option (Mode × Line) → Option (Mode × Text) → Type 0
Fed size none none = Unit
Fed size none (some q) = ⊥
Fed size (some p) none = ⊥
Fed size (some (m, l)) (some (m', t)) = (m ≡ m') × Shows size l t

arrow-Fed :
    (size c : ℕ) (l : Line) (t : Text)
    → Shows size l t
    → Fed size
        (if (c == b'A') || (c == b'B')
          then some (key, l)
          else if c == b'D'
          then some (key, move_left l)
          else some (key, move_right l))
        (if (c == b'A') || (c == b'B')
          then some (key, t)
          else if c == b'D'
          then some (key, left_text t)
          else some (key, right_text t))
arrow-Fed size c l t s = elim (Bool-cases ((c == b'A') || (c == b'B'))) [
  | inl y ↦ rw y (refl, s)
  | inr n ↦ elim (Bool-cases (c == b'D')) [
    | inl y ↦ rw (n, y) (refl, move_left-Shows size l t s)
    | inr k ↦ rw (n, k) (refl, move_right-Shows size l t s)
  ]
]

feed-Fed :
    (size : ℕ) (m : Mode) (c : ℕ) (l : Line) (t : Text)
    → Shows size l t
    → Fed size (feed size m c l) (feed_text size m c t)
unfolding feed feed_text
feed-Fed size key c l t s = elim (Bool-cases (c == carriage_return)) [
  | inl y ↦ rw y tt
  | inr n ↦ elim (Bool-cases ((c == backspace) || (c == delete))) [
    | inl y ↦ rw (n, y) (refl, rub_out-Shows size l t s)
    | inr k ↦ elim (Bool-cases (c == escape)) [
      | inl y ↦ rw (n, k, y) (refl, s)
      | inr j ↦ rw (n, k, j) (refl, type_char-Shows size l t s c)
    ]
  ]
]
feed-Fed size after_escape c l t s = elim (Bool-cases (c == b'[')) [
  | inl y ↦ rw y (refl, s)
  | inr n ↦ rw n (
    refl,
    type_char-Shows size (record l { out = l.out ++ putc c }) t
        (printed-Shows size l t s (l.out ++ putc c)) c,
  )
]
feed-Fed size after_bracket c l t s = elim (Bool-cases (is_arrow c)) [
  | inl y ↦ rw y (arrow-Fed size c l t s)
  | inr n ↦
      let first = type_char-Shows size l t s b'[' in
      let both = type_char-Shows size (type_char size b'[' l) (type_text size b'[' t) first c in
      rw n (
        arrow-Fed size c (type_char size c (type_char size b'[' l))
          (type_text size c (type_text size b'[' t)) both)
]

-- Both have ended, and the line shows the text, or neither has.
abbrev pub Ended : ℕ → Option Line → Option Text → Type 0
Ended size none none = Unit
Ended size none (some t) = ⊥
Ended size (some l) none = ⊥
Ended size (some l) (some t) = Shows size l t

edit-Ended :
    (size : ℕ) (m : Mode) (cs : List ℕ) (l : Line) (t : Text)
    → Shows size l t
    → Ended size (edit size m l cs) (edit_text size m t cs)
unfolding edit edit_text
edit-Ended size m [] l t s = tt
edit-Ended size m (c ∷ cs) l t s =
    next (λ m' k u. edit-Ended size m' cs k u) (feed size m c l) (feed_text size m c t)
      (feed-Fed size m c l t s)
  where
    next :
        ((m' : Mode) (k : Line) (u : Text)
          → Shows size k u
          → Ended size (edit size m' k cs) (edit_text size m' u cs))
        → (p : Option (Mode × Line)) (q : Option (Mode × Text)) → Fed size p q
        → Ended size
            (elim p [ none ↦ some l | some (m', l') ↦ edit size m' (view_in m' l') cs ])
            (elim q [ none ↦ some t | some (m', t') ↦ edit_text size m' t' cs ])
    next go none none f = s
    next go none (some q) f = absurd f
    next go (some p) none f = absurd f
    next go (some (m₁, l')) (some (m₂, t')) (e, f) =
        rw e (go m₂ (view_in m₂ l') t' (view_in-Shows size l' t' f m₂))

-- `getline` edits a text: for a buffer with more than `size` bytes and any input, it ends exactly
-- when the editing of an empty text with a cursor does, its cursor is then at most its length, its
-- length at most `size`, and the front part of its buffer is the edited text.
pub getline-Ended :
    (size : ℕ) (buf input : List ℕ)
    → size < length buf
    → Ended size (getline size buf input) (edit_text size key (text [] []) input)
unfolding getline view
getline-Ended size buf input h =
    finish (edit size key start input) (edit_text size key (text [] []) input) (
      edit-Ended size key input start (text [] []) (record {
        valid = record { cursor = omega arith; fits = omega arith; buffer = h };
        text = record { shown = refl; cursor = refl; total = refl };
      }))
  where
    start : Line
    start = view (record { buf = buf; pos = 0; len = 0; prev_len = 0; out = [] })

    finish :
        (p : Option Line) (q : Option Text)
        → Ended size p q
        → Ended size
            (elim p [
              | none ↦ none
              | some l ↦
                  some (record l {
                    out = l.out ++ (render l.buf l.len (2 ^ 64 - 1) ++ puts (10 ∷ []));
                  })
            ])
            q
    finish none none f = tt
    finish none (some q) f = absurd f
    finish (some l) none f = absurd f
    finish (some l) (some t) f =
        printed-Shows size l t f (l.out ++ (render l.buf l.len (2 ^ 64 - 1) ++ puts (10 ∷ [])))

-- A key that is no control character stands for itself.
abbrev pub is_plain : ℕ → Bool
is_plain c = not ((c == carriage_return) || (((c == backspace) || (c == delete)) || (c == escape)))

abbrev pub all_plain : List ℕ → Bool
all_plain [] = true
all_plain (c ∷ cs) = is_plain c && all_plain cs

no_controls :
    (a b c p : Bool)
    → (not (a || (b || c)) && p) ≡ true
    → (a ≡ false) × (b ≡ false) × (c ≡ false) × (p ≡ true)
no_controls a b c p h = ground arith

typed :
    (size : ℕ) (cs b : List ℕ)
    → all_plain cs ≡ true
    → length b + length cs ≤ size
    → edit_text size key (text b []) (cs ++ (carriage_return ∷ []))
      ≡ some (text (reverse_onto cs b) [])
unfolding edit_text feed_text type_text
typed size [] b p h = refl
typed size (c ∷ cs) b p h =
    let (no_return, no_rub, no_escape, rest) =
      no_controls (c == carriage_return) ((c == backspace) || (c == delete)) (c == escape)
        (all_plain cs) p in
    let room : (length b + 0 == size) ≡ false = ground (arith, h) in
    let step : feed_text size key c (text b []) ≡ some (key, text (c ∷ b) []) =
      rw (no_return, no_rub, no_escape, room) refl in
    subst
      (λ x.
        elim x [
          | none ↦ some (text b [])
          | some (m', t') ↦ edit_text size m' t' (cs ++ (carriage_return ∷ []))
        ]
        ≡ some (text (reverse_onto cs (c ∷ b)) []))
      (sym step) (typed size cs (c ∷ b) rest (omega (arith, h)))

reverse_onto-reverse_onto :
    (xs ys zs : List ℕ) → reverse_onto (reverse_onto xs ys) zs ≡ reverse_onto ys (xs ++ zs)
reverse_onto-reverse_onto [] ys zs = refl
reverse_onto-reverse_onto (x ∷ xs) ys zs = reverse_onto-reverse_onto xs (x ∷ ys) zs

append_empty : (xs : List ℕ) → xs ++ [] ≡ xs
append_empty [] = refl
append_empty (x ∷ xs) = ap (◌∷◌ x) (append_empty xs)

abbrev pub line_text : Option Line → Option (List ℕ)
line_text none = none
line_text (some l) = some (take l.len l.buf)

shown_text :
    (size : ℕ) (p : Option Line) (t : Text)
    → Ended size p (some t)
    → line_text p ≡ some (characters t)
shown_text size none t e = absurd e
shown_text size (some l) t e = ap some e.text.shown

-- For a buffer with more than `size` bytes, typing at most `size` bytes that are no control
-- characters (13, 8, 127 and 27) and then the return key ends the line with exactly these bytes.
pub getline-typed :
    (size : ℕ) (buf cs : List ℕ)
    → size < length buf
    → all_plain cs ≡ true
    → length cs ≤ size
    → line_text (getline size buf (cs ++ (carriage_return ∷ []))) ≡ some cs
getline-typed size buf cs h p k =
    let e = getline-Ended size buf (cs ++ (carriage_return ∷ [])) h in
    shown_text size (getline size buf (cs ++ (carriage_return ∷ []))) (text (reverse_onto cs []) [])
      (subst (Ended size (getline size buf (cs ++ (carriage_return ∷ []))))
        (typed size cs [] p (omega (arith, k))) e)
    ∙ (ap some (reverse_onto-reverse_onto cs [] [] ∙ append_empty cs))
