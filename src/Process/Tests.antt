-- ===== src/Process/Tests.antt =====
-- The theorems on processes and locks at a ring of three processes and small bitmaps.
use yay_os.Base.{
  ℕ, zero, suc, ◌<◌, ◌≡◌, refl, Bool, true, none, some, [], ◌∷◌, ◌++◌, arith, get_or, u64_mod,
  u64_mod,
}
use yay_os.Bits.{test_bit}
use yay_os.Process.{PidBitmap, RunList, put, add_to_run_list}
use yay_os.Process.Pids.{is_taken, IsValid}
use yay_os.Process.Ring.{IsRing, add_to_run_list-IsRing}
use yay_os.Process.Ring.Turn.{schedules, schedules-turn}
use yay_os.Process.Sync.{Semaphore, System, empty_queue}

-- The numbers 0, 1 and 2 are taken.
abbrev pids : PidBitmap
pids = record { words = 7 ∷ []; words_count = 1; last_checked_index = 0 }

word-less : (w i : ℕ) → w < u64_mod → get_or (w ∷ []) i 0 < u64_mod
word-less w zero h = h
word-less w (suc i) h = omega arith

pids-IsValid : IsValid pids
pids-IsValid = record {
  size = refl;
  word = λ i. word-less 7 i (omega arith);
  full = λ j h. absurd (omega arith);
}

first : (p : ℕ) → p < 1 → is_taken pids p ≡ true
unfolding test_bit
first zero h = refl
first (suc p) h = absurd (omega arith)

-- 0 runs, then 1, then 2.
abbrev ring : RunList
ring = record {
  next = put (put (put (λ p. none) 0 (some 1)) 1 (some 2)) 2 (some 0);
  prev = put (put (put (λ p. none) 0 (some 2)) 1 (some 0)) 2 (some 1);
  head = 0;
  idle = 1;
}

ring-IsRing : IsRing ring (1 ∷ 2 ∷ [])
ring-IsRing = record {
  chain = ((refl, refl), ((refl, refl), (refl, refl)));
  head_once = (λ e. ground (arith, e), (λ e. ground (arith, e), tt));
  distinct = ((λ e. ground (arith, e), tt), (tt, tt));
}

add_to_run_list-IsRing_example :
    (r' : RunList) × (add_to_run_list 3 ring ≡ some r')
    × (r'.head ≡ ring.head)
    × IsRing r' ((1 ∷ 2 ∷ []) ++ 3 ∷ [])
add_to_run_list-IsRing_example =
    add_to_run_list-IsRing ring (1 ∷ 2 ∷ []) 3 ring-IsRing
      (λ e. ground (arith, e), (λ e. ground (arith, e), (λ e. ground (arith, e), tt)))

schedules-turn_example :
    (schedules true 2 ring ≡ some (record ring { head = 2 }))
    × IsRing (record ring { head = 2 }) (ring.head ∷ 1 ∷ [])
schedules-turn_example = schedules-turn true ring (1 ∷ []) 2 [] ring-IsRing (refl, tt) refl

abbrev system : Bool → System
system set_up = record {
  run_list = ring;
  interrupts = record { ints_count = 0; enabled = true };
  initialized = set_up;
}

abbrev held : Semaphore
held = record { num = 0; queue = empty_queue; acquired = true }
