-- ===== src/Security/Ranges.antt =====
-- The check of a range of addresses.
use yay_os.Base.{
  ℕ, zero, suc, ◌+◌, ◌-◌, ◌*◌, ◌/◌, ◌%◌, ◌≤◌, ◌<◌, ◌≡◌, ◌≢◌, ◌↔◌, refl, max, ap, sym, subst, ◌∙◌,
  Bool, true, false, arith, ltb, if◌then◌else◌, not, add64, u64_mod,
}
use yay_os.Utils.{align_down, align_up}
use yay_os.Paging.{Tables, page_size}
use yay_os.Security.{virtual_page_condition_check, range_loop, virtual_range_condition_check}
use yay_os.Security.Pages.{page_check-align_down}

both :
    (t b r : Bool)
    → t ≡ true
    → (if t then if not b then false else r else true) ≡ true
    → (b ≡ true) × (r ≡ true)
both true true true e h = (refl, refl)
both true true false e h = cc
both true false r e h = cc
both false b r e h = cc

either :
    (t b r : Bool)
    → (t ≡ true → b ≡ true)
    → (t ≡ true → r ≡ true)
    → (if t then if not b then false else r else true) ≡ true
either false b r h k = refl
either true b r h k = rw (h refl, k refl) refl

module _ (tables : Tables) (u w c : Bool) where
  -- The page of an address passes.
  abbrev pub Passes : ℕ → Type 0
  Passes a = virtual_page_condition_check tables a u w c ≡ true

  -- A round at a page in front of the end.
  first_round :
      (fuel page end : ℕ)
      → page < end
      → end < u64_mod
      → page + page_size < u64_mod
      → range_loop tables (suc fuel) page end u w c ≡ true
      → Passes page × (range_loop tables fuel (page + page_size) end u w c ≡ true)
  unfolding range_loop
  first_round fuel page end h k l t =
      let next : add64 page page_size ≡ page + page_size = omega (arith, l) in
      let (p, r) = both (ltb page end) _ _ (ground (arith, h)) t in
      (p, subst (λ q. range_loop tables fuel q end u w c ≡ true) next r)

  no_fuel : (page end : ℕ) → range_loop tables zero page end u w c ≢ true
  unfolding range_loop
  no_fuel page end = cc

  loop_sound :
      (fuel page n : ℕ)
      → (page + n * page_size < u64_mod)
      → range_loop tables fuel page (page + n * page_size) u w c ≡ true
      → (k : ℕ) → k < n
      → Passes (page + k * page_size)
  loop_sound fuel page zero fits h k l = absurd (omega (arith, l))
  loop_sound zero page (suc n) fits h k l = absurd (no_fuel page _ h)
  loop_sound (suc fuel) page (suc n) fits h zero l =
      subst Passes (omega arith)
        (first_round fuel page _ (omega arith) fits (omega (arith, fits)) h).0
  loop_sound (suc fuel) page (suc n) fits h (suc k) l =
      let same : page + suc n * page_size ≡ page + page_size + n * page_size = omega arith in
      let rest = (first_round fuel page _ (omega arith) fits (omega (arith, fits)) h).1 in
      subst Passes (omega arith) (
        loop_sound fuel (page + page_size) n (omega (arith, fits))
          (subst (λ e. range_loop tables fuel (page + page_size) e u w c ≡ true) same rest) k
          (omega (arith, l)))

  loop_complete :
      (fuel page n : ℕ)
      → n < fuel
      → (page + n * page_size < u64_mod)
      → ((k : ℕ) → k < n → Passes (page + k * page_size))
      → range_loop tables fuel page (page + n * page_size) u w c ≡ true
  unfolding range_loop
  loop_complete zero page n l fits h = absurd (omega (arith, l))
  loop_complete (suc fuel) page zero l fits h =
      let ended : ltb page (page + zero * page_size) ≡ false = ground arith in rw ended refl
  loop_complete (suc fuel) page (suc n) l fits h =
      let next : page + page_size ≡ add64 page page_size = omega (arith, fits) in
      let same : page + page_size + n * page_size ≡ page + suc n * page_size = omega arith in
      let rest =
        loop_complete fuel (page + page_size) n (omega arith) (omega (arith, fits))
          (λ k m. subst Passes (omega arith) (h (suc k) (omega (arith, m)))) in
      either _ _ _ (λ t. subst Passes (omega arith) (h 0 (omega arith)))
        (λ t.
          subst (λ q. range_loop tables fuel q (page + suc n * page_size) u w c ≡ true) next
            (subst (λ e. range_loop tables fuel (page + page_size) e u w c ≡ true) same rest))

abbrev first : ℕ → ℕ
first start = start / page_size

abbrev rounds : ℕ → ℕ → ℕ
rounds start size = (start + size + page_size - 1) / page_size - first start

module _ (tables : Tables) (u w c : Bool) (start size : ℕ) (h : 0 < size)
    (k : start + size + page_size ≤ u64_mod) where
  as_loop :
      virtual_range_condition_check tables start size u w c
      ≡ range_loop tables
          (rounds start size + 1)
          (first start * page_size)
          (first start * page_size + rounds start size * page_size)
          u
          w
          c
  unfolding virtual_range_condition_check align_down align_up
  as_loop =
      let end : (add64 start size + page_size - 1) % u64_mod / page_size * page_size
          ≡ first start * page_size + rounds start size * page_size =
        omega (arith, k, h) in
      let fuel : (first start * page_size + rounds start size * page_size) / page_size
            - first start * page_size / page_size
            + 1
          ≡ rounds start size + 1 =
        omega arith in
      rw (end, fuel) refl

  pages_fit : first start * page_size + rounds start size * page_size < u64_mod
  pages_fit = omega (arith, k, h)

same_page :
    (tables : Tables) (u w c : Bool) (a b : ℕ)
    → a / page_size ≡ b / page_size
    → Passes tables u w c a
    → Passes tables u w c b
unfolding align_down
same_page tables u w c a b e h =
    sym (page_check-align_down tables b u w c)
    ∙ ap (λ q. virtual_page_condition_check tables (q * page_size) u w c) (sym e)
    ∙ page_check-align_down tables a u w c
    ∙ h

-- The check of a range that holds at least one byte and ends a page below 2^64 is passed exactly
-- when the page of each of its bytes passes.
pub range_check_lem :
    (tables : Tables) (u w c : Bool) (start size : ℕ)
    → 0 < size
    → start + size + page_size ≤ u64_mod
    → (virtual_range_condition_check tables start size u w c ≡ true) ↔ (
        (a : ℕ) → start ≤ a → a < start + size → virtual_page_condition_check tables a u w c ≡ true)
range_check_lem tables u w c start size h k = (sound, complete)
  where
    sound :
        virtual_range_condition_check tables start size u w c ≡ true
        → (a : ℕ) → start ≤ a
        → a < start + size
        → virtual_page_condition_check tables a u w c ≡ true
    sound t a l m =
        let n = rounds start size in
        let fits = pages_fit tables u w c start size h k in
        let looped = sym (as_loop tables u w c start size h k) ∙ t in
        same_page tables u w c (first start * page_size + (a / page_size - first start) * page_size)
          a (omega (arith, l))
          (loop_sound tables u w c (n + 1) (first start * page_size) n fits looped
            (a / page_size - first start) (omega (arith, l, m, k)))

    complete :
        ((a : ℕ)
          → start ≤ a
          → a < start + size
          → virtual_page_condition_check tables a u w c ≡ true)
        → virtual_range_condition_check tables start size u w c ≡ true
    complete t =
        let n = rounds start size in
        let fits = pages_fit tables u w c start size h k in
        as_loop tables u w c start size h k
        ∙ loop_complete tables u w c (n + 1) (first start * page_size) n (omega arith) fits (λ j l.
          let at = max start (first start * page_size + j * page_size) in
          same_page tables u w c at _ (omega (arith, l)) (t at (omega arith) (omega (arith, l, h))))

-- A range of at most 2^64 - 4096 bytes that reaches into the last page below 2^64 or beyond it
-- passes the check, whatever the page tables are: the rounded end wraps around to a value at or in
-- front of the beginning.
pub range_check-wraps :
    (tables : Tables) (u w c : Bool) (start size : ℕ)
    → start < u64_mod
    → size ≤ u64_mod - page_size
    → u64_mod < start + size + page_size
    → virtual_range_condition_check tables start size u w c ≡ true
unfolding virtual_range_condition_check align_down align_up range_loop
range_check-wraps tables u w c start size h k l =
    let begin = start / page_size * page_size in
    let end = (add64 start size + page_size - 1) % u64_mod / page_size * page_size in
    let ended : ltb begin end ≡ false = ground (arith, h, k, l) in
    let fuel : end / page_size - begin / page_size + 1 ≡ 1 = omega (arith, h, k, l) in
    rw (fuel, ended) refl
