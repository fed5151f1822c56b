-- ===== src/Security/Strings.antt =====
-- The check of a 0-terminated string.
use yay_os.Base.{
  ℕ, zero, suc, ◌+◌, ◌%◌, ◌≤◌, ◌<◌, ◌≡◌, ◌≢◌, ◌⊎◌, refl, dec_lt, subst, Bool, true, false, ◌==◌,
  arith, if◌then◌else◌, not, ◌&&◌, Bool-cases, inl, inr, add64, u64_mod,
}
use yay_os.Utils.{align_down}
use yay_os.Paging.{Tables, page_size}
use yay_os.Security.{virtual_page_condition_check, string_loop, validate_c_string}
use yay_os.Security.Pages.{page_check-align_down}

module _ (tables : Tables) (bytes : ℕ → ℕ) (start : ℕ) (u w c : Bool) where
  -- From `i` on the first 0 byte stands at `length`, and in front of it the byte at each multiple of
  -- 4096 from the start is on a page that passes.
  pub record IsTerminated (i length : ℕ) : Type 0 where
    pub behind : i ≤ length
    pub ended : bytes (add64 start length) ≡ 0
    pub before : (j : ℕ) → i ≤ j → j < length → bytes (add64 start j) ≢ 0
    pub checked :
        (j : ℕ)
        → i ≤ j
        → j ≤ length
        → j % page_size ≡ 0
        → virtual_page_condition_check tables (add64 start j) u w c ≡ true

  -- What a round that returns true has found.
  round_cases :
      (p q r : Bool)
      → (if p then false else if q then true else r) ≡ true
      → (p ≡ false) × ((q ≡ true) ⊎ ((q ≡ false) × (r ≡ true)))
  round_cases p q r = ground arith

  here :
      (i : ℕ)
      → ((i % page_size == 0)
          && not (virtual_page_condition_check tables (align_down (add64 start i) page_size) u w c))
        ≡ false
      → i % page_size ≡ 0
      → virtual_page_condition_check tables (add64 start i) u w c ≡ true
  here i h e = ground (arith, h, e, page_check-align_down tables (add64 start i) u w c)

  found_here :
      (i : ℕ)
      → (i % page_size ≡ 0 → virtual_page_condition_check tables (add64 start i) u w c ≡ true)
      → bytes (add64 start i) ≡ 0
      → IsTerminated i i
  found_here i ok e = record {
    behind = omega arith;
    ended = e;
    before = λ j l m. absurd (omega (arith, l, m));
    checked = λ j l m mult.
        let same : i ≡ j = omega (arith, l, m) in
        subst (λ q. virtual_page_condition_check tables (add64 start q) u w c ≡ true) same
          (ok (omega (arith, same, mult)));
  }

  found_later :
      (i k : ℕ)
      → (i % page_size ≡ 0 → virtual_page_condition_check tables (add64 start i) u w c ≡ true)
      → bytes (add64 start i) ≢ 0
      → IsTerminated (i + 1) k
      → IsTerminated i k
  found_later i k ok e t = record {
    behind = omega (arith, t.behind);
    ended = t.ended;
    before = λ j l m. elim (dec_lt i j) [
      | yes later ↦ t.before j (omega (arith, later)) m
      | no now ↦
          let same : i ≡ j = omega (arith, l, now) in subst (λ q. bytes (add64 start q) ≢ 0) same e
    ];
    checked = λ j l m mult. elim (dec_lt i j) [
      | yes later ↦ t.checked j (omega (arith, later)) m mult
      | no now ↦
          let same : i ≡ j = omega (arith, l, now) in
          subst (λ q. virtual_page_condition_check tables (add64 start q) u w c ≡ true) same
            (ok (omega (arith, same, mult)))
    ];
  }

  found :
      (n i : ℕ)
      → i + n < u64_mod
      → string_loop tables bytes n i start u w c ≡ true
      → (k : ℕ) × (k < i + n) × IsTerminated i k
  unfolding string_loop
  found zero i fits h = cc
  found (suc n) i fits h =
      let next : add64 i 1 ≡ i + 1 = omega (arith, fits) in
      let (p, q) =
        round_cases _ (bytes (add64 start i) == 0)
          (string_loop tables bytes n (add64 i 1) start u w c) h in
      elim q [
        | inl ended ↦ (i, omega arith, found_here i (here i p) (ground (arith, ended)))
        | inr rest ↦
            let (k, l, t) =
              found n (i + 1) (omega (arith, fits))
                (subst (λ m. string_loop tables bytes n m start u w c ≡ true) next rest.1) in
            (k, omega (arith, l), found_later i k (here i p) (ground (arith, rest.0)) t)
      ]

  short_tail :
      (m n i : ℕ)
      → 0 < i
      → m < n
      → i + m < page_size
      → bytes (add64 start (i + m)) ≡ 0
      → string_loop tables bytes n i start u w c ≡ true
  unfolding string_loop
  short_tail m zero i h k l e = absurd (omega (arith, k))
  short_tail zero (suc n) i h k l e =
      let inner : (i % page_size == 0) ≡ false = ground (arith, h, l) in
      let at : i + 0 ≡ i = omega arith in
      let ended : (bytes (add64 start i) == 0) ≡ true =
        ground (arith, subst (λ q. bytes (add64 start q) ≡ 0) at e) in
      rw (inner, ended) refl
  short_tail (suc m) (suc n) i h k l e =
      let inner : (i % page_size == 0) ≡ false = ground (arith, h, l) in
      let at : i + suc m ≡ i + 1 + m = omega arith in
      let next : add64 i 1 ≡ i + 1 = omega (arith, l) in
      let rest =
        short_tail m n (i + 1) (omega arith) (omega (arith, k)) (omega (arith, l))
          (subst (λ q. bytes (add64 start q) ≡ 0) at e) in
      rw (inner, next, rest) (ground arith)

  pick :
      (a : ℕ)
      → a ≡ start
      → (rest : Bool) → ((bytes start == 0) ≡ false → rest ≡ true)
      → (if (0 % page_size == 0)
            && not (virtual_page_condition_check tables (align_down a page_size) u w c)
          then false
          else if bytes a == 0
          then true
          else rest)
        ≡ virtual_page_condition_check tables start u w c
  pick a e rest h =
      let page = page_check-align_down tables start u w c in
      rw (e, page)
        (elim (Bool-cases (bytes start == 0)) [
          | inl ended ↦ rw ended (ground arith)
          | inr more ↦ rw (h more) (ground arith)
        ])

  -- A first round that passes its page, when it or the rest ends.
  first_round :
      (n k : ℕ)
      → start < u64_mod
      → k ≤ n
      → k < page_size
      → bytes (add64 start k) ≡ 0
      → string_loop tables bytes (suc n) 0 start u w c
        ≡ virtual_page_condition_check tables start u w c
  unfolding string_loop
  first_round n k s h l e =
      pick (add64 start 0) (omega (arith, s)) (string_loop tables bytes n (add64 0 1) start u w c)
        (later k h l e)
    where
      later :
          (k : ℕ)
          → k ≤ n
          → k < page_size
          → bytes (add64 start k) ≡ 0
          → (bytes start == 0) ≡ false
          → string_loop tables bytes n 1 start u w c ≡ true
      later zero h l e more =
          let at : add64 start 0 ≡ start = omega (arith, s) in
          absurd (ground (arith, more, subst (λ q. bytes q ≡ 0) at e))
      later (suc k) h l e more =
          let at : suc k ≡ 1 + k = omega arith in
          short_tail k n 1 (omega arith) (omega (arith, h)) (omega (arith, l))
            (subst (λ q. bytes (add64 start q) ≡ 0) at e)

-- When the check of a string passes, a 0 byte is among the first `max_length + 1` bytes, and each
-- multiple of 4096 bytes from the start up to the first 0 byte is on a page that passes.
pub string_check_sound :
    (tables : Tables) (bytes : ℕ → ℕ) (start : ℕ) (u w c : Bool) (max_length : ℕ)
    → max_length + 1 < u64_mod
    → validate_c_string tables bytes start u w c max_length ≡ true
    → (k : ℕ) × (k ≤ max_length) × IsTerminated tables bytes start u w c 0 k
unfolding validate_c_string
string_check_sound tables bytes start u w c max_length h t =
    let (k, l, terminated) =
      found tables bytes start u w c (max_length + 1) 0 (omega (arith, h)) t in
    (k, omega (arith, l), terminated)

-- Of a string with a 0 byte at `k`, below 4096 and not above the maximal length, only the page of
-- the first byte is checked, also when the string goes on in the next page.
pub string_check-first_page :
    (tables : Tables) (bytes : ℕ → ℕ) (start : ℕ) (u w c : Bool) (max_length k : ℕ)
    → start < u64_mod
    → k ≤ max_length
    → k < page_size
    → bytes (add64 start k) ≡ 0
    → validate_c_string tables bytes start u w c max_length
      ≡ virtual_page_condition_check tables start u w c
unfolding validate_c_string
string_check-first_page tables bytes start u w c max_length k s h l e =
    let rounds : max_length + 1 ≡ suc max_length = omega arith in
    rw rounds (first_round tables bytes start u w c max_length k s h l e)
