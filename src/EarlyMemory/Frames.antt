-- ===== src/EarlyMemory/Frames.antt =====
-- The frames of the early allocator, YYSloth/src/memory/tmpphysalloc.cpp.
use yay_os.Base.{
  ℕ, zero, suc, ◌+◌, ◌<◌, ◌≤◌, ◌≡◌, refl, subst, true, some, List, [], ◌∷◌, add64, arith, u64_mod,
  Option-cases, inl, inr, sym, ◌∙◌,
}
use mathlib.Core.Option.{some-injective}
use yay_os.Utils.{align_up}
use yay_os.Utils.Align.{align_up_lem}
use yay_os.PhysAlloc.{MemoryMapEntry, BootMemory}
use yay_os.EarlyMemory.{
  TempPhysAllocator, adjust, adjust_round, adjust_rounds, new_frame, check_multiboot_overlap,
  check_initrd_overlap, after_current_memory_area, before_current_memory_area,
}

-- All areas begin two pages below the end of the address space or before.
abbrev pub AreasFit : List MemoryMapEntry → Type 0
AreasFit [] = Unit
AreasFit (e ∷ es) = (e.base + 8192 ≤ u64_mod) × AreasFit es

-- No address goes back, and what is left are areas of the map.
abbrev Forward : ℕ → TempPhysAllocator → Type 0
Forward addr t = (addr ≤ t.current_phys_addr) × AreasFit t.areas

adjust-Forward :
    (es : List MemoryMapEntry) (addr : ℕ) (t : TempPhysAllocator)
    → AreasFit es
    → adjust es addr ≡ some t
    → Forward addr t
unfolding adjust before_current_memory_area
adjust-Forward [] addr t f h = cc
adjust-Forward (e ∷ es) addr t (f, fs) h = ground (
  arith,
  h,
  align_up_lem e.base 4096 (omega arith) (omega (arith, f)),
  adjust-Forward es addr t fs,
  adjust-Forward es (align_up e.base 4096) t fs,
)

check_overlaps-le :
    (b : BootMemory) (addr : ℕ) → addr ≤ check_initrd_overlap b (check_multiboot_overlap b addr)
unfolding check_initrd_overlap check_multiboot_overlap
check_overlaps-le b addr = ground arith

adjust_round-Forward :
    (b : BootMemory) (t t' : TempPhysAllocator)
    → AreasFit t.areas
    → adjust_round b t ≡ some t'
    → Forward t.current_phys_addr t'
unfolding adjust_round
adjust_round-Forward b t t' f h = elim (Option-cases (adjust t.areas t.current_phys_addr)) [
  | inl n ↦ cc (h, n)
  | inr (q, n) ↦
      let k = adjust-Forward t.areas t.current_phys_addr q f n in
      ground (arith, h, n, k, check_overlaps-le b q.current_phys_addr)
]

adjust_rounds-suc :
    (b : BootMemory) (n : ℕ) (t q : TempPhysAllocator)
    → adjust_round b t ≡ some q
    → adjust_rounds b (suc n) t ≡ adjust_rounds b n q
unfolding adjust_rounds
adjust_rounds-suc b n t q e = rw (adjust_rounds, e) refl

adjust_rounds-Forward :
    (b : BootMemory) (n : ℕ) (t t' : TempPhysAllocator)
    → AreasFit t.areas
    → adjust_rounds b n t ≡ some t'
    → Forward t.current_phys_addr t'
unfolding adjust_rounds
adjust_rounds-Forward b zero t t' f h =
    subst (Forward t.current_phys_addr) (some-injective t t' h) (omega arith, f)
adjust_rounds-Forward b (suc n) t t' f h = elim (Option-cases (adjust_round b t)) [
  | inl e ↦ cc (h, e)
  | inr (q, e) ↦
      let k = adjust_round-Forward b t q f e in
      let r = adjust_rounds-Forward b n q t' k.1 (sym (adjust_rounds-suc b n t q e) ∙ h) in
      (omega (arith, k.0, r.0), r.1)
]

new_frame-eq :
    (b : BootMemory) (t t1 : TempPhysAllocator) (f : ℕ)
    → new_frame b t ≡ some (t1, f)
    → (q : TempPhysAllocator) × (adjust_rounds b 3 t ≡ some q)
      × (f ≡ q.current_phys_addr)
      × (t1 ≡ record q { current_phys_addr = add64 q.current_phys_addr 4096 })
unfolding new_frame
new_frame-eq b t t1 f h = elim (Option-cases (adjust_rounds b 3 t)) [
  | inl e ↦ cc (h, e)
  | inr (q, e) ↦ (q, e, ground (arith, h, e), ground (arith, h, e))
]

-- newFrame hands out a frame at or behind the last one's end, and the next call another one behind
-- it, so that no frame below the end of the address space is handed out twice.
pub new_frame-lt :
    (b : BootMemory) (t t1 t2 : TempPhysAllocator) (f g : ℕ)
    → AreasFit t.areas
    → f + 4096 < u64_mod
    → new_frame b t ≡ some (t1, f)
    → new_frame b t1 ≡ some (t2, g)
    → (t.current_phys_addr ≤ f) × (f + 4096 ≤ g)
new_frame-lt b t t1 t2 f g fit small h k =
    let (q, e, fe, te) = new_frame-eq b t t1 f h in
    let (q', e', ge, te') = new_frame-eq b t1 t2 g k in
    let (first, fit') = adjust_rounds-Forward b 3 t q fit e in
    let start : t1.current_phys_addr ≡ f + 4096 = ground (arith, te, fe, small) in
    let fit1 : AreasFit t1.areas = rw te fit' in
    let (second, _) = adjust_rounds-Forward b 3 t1 q' fit1 e' in
    (omega (arith, fe, first), omega (arith, start, second, ge))

-- The allocator in front of an address of an area.
abbrev pub at_area : MemoryMapEntry → List MemoryMapEntry → ℕ → TempPhysAllocator
at_area e es addr = record { areas = e ∷ es; current_phys_addr = addr }

module _ (b : BootMemory) (e : MemoryMapEntry) (es : List MemoryMapEntry) (addr : ℕ)
    (available : e.available ≡ true) (order : e.base ≤ addr) (below : addr ≤ e.limit + 4096)
    (small : e.limit + 4096 < u64_mod)
    (free : check_initrd_overlap b (check_multiboot_overlap b addr) ≡ addr) where
  adjust-stays : adjust (e ∷ es) addr ≡ some (at_area e es addr)
  unfolding adjust after_current_memory_area before_current_memory_area
  adjust-stays = ground arith

  adjust_round-stays : adjust_round b (at_area e es addr) ≡ some (at_area e es addr)
  unfolding adjust_round
  adjust_round-stays = rw (adjust_round, adjust-stays, free) refl

  -- An address from the base of an available area up to a page behind its limit is handed out,
  -- whether or not it lies in the area, unless the loader's information or the initial ramdisk is
  -- there.
  pub new_frame-area : new_frame b (at_area e es addr) ≡ some (at_area e es (add64 addr 4096), addr)
  unfolding new_frame adjust_rounds
  new_frame-area =
      let t = at_area e es addr in
      let r : adjust_rounds b 3 t ≡ some t =
        adjust_rounds-suc b 2 t t adjust_round-stays
        ∙ adjust_rounds-suc b 1 t t adjust_round-stays
        ∙ adjust_rounds-suc b 0 t t adjust_round-stays in
      rw (new_frame, r) refl
