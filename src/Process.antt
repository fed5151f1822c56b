-- ===== src/Process.antt =====
-- Process bookkeeping of YYSloth/src/proc: the bitmap of process numbers and the run list of
-- ProcessManager (proc.cpp), the interrupt counter (intlock.cpp), and the pool of kernel stacks
-- (stackpool.cpp). A `Process *` is an index into `m_processData`, `none` for a null pointer.
pub mod Pids
pub mod Ring
pub mod Sync
mod Tests
use yay_os.Base.{
  ℕ, zero, suc, ◌+◌, ◌-◌, ◌*◌, ◌/◌, ◌%◌, Bool, true, false, Option, none, some, List, [], ◌∷◌, ◌==◌,
  ltb, if◌then◌else◌, get_or, modify, not, ◌&&◌,
}
use yay_os.Bits.{set_bit, clear_bit, bit_not, bit_scan_forward}

abbrev pub pid_max : ℕ
pid_max = 65536

-- `m_pidBitmap`, `m_pidBitmapSize` and `m_lastCheckedIndex`.
pub record PidBitmap : Type 0 where
  pub words : List ℕ
  pub words_count : ℕ
  pub last_checked_index : ℕ

-- The loop of `newProcess`, with the rounds left; the static index is the loop's variable.
unfoldable pub new_process_loop : ℕ → PidBitmap → PidBitmap × ℕ
new_process_loop zero b = (b, pid_max)
new_process_loop (suc n) b =
    let i = b.last_checked_index in
    let w = get_or b.words i 0 in
    let rest = new_process_loop n (record b { last_checked_index = i + 1 }) in
    let bit = bit_scan_forward (bit_not w) in
    if bit_not w == 0
    then rest
    else (record b { words = modify b.words i (λ v. set_bit v bit) }, bit + i * 64)

unfoldable pub new_process : PidBitmap → PidBitmap × ℕ
unfolding new_process_loop
new_process b = new_process_loop (b.words_count - b.last_checked_index) b

unfoldable pub free_pid : ℕ → PidBitmap → PidBitmap
free_pid pid b = record b {
  words = modify b.words (pid / 64) (λ v. clear_bit v (pid % 64));
  last_checked_index =
      if ltb (pid / 64) b.last_checked_index then pid / 64 else b.last_checked_index;
}

-- The links of the processes, the running process and the idle process.
pub record RunList : Type 0 where
  pub next : ℕ → Option ℕ
  pub prev : ℕ → Option ℕ
  pub head : ℕ
  pub idle : ℕ

-- A write through a pointer; `none` stands for the fault of a null pointer.
abbrev pub put : (ℕ → Option ℕ) → ℕ → Option ℕ → ℕ → Option ℕ
put f p v q = if p == q then v else f q

unfoldable pub set_next : Option ℕ → Option ℕ → RunList → Option RunList
set_next none v r = none
set_next (some p) v r = some (record r { next = put r.next p v })

unfoldable pub set_prev : Option ℕ → Option ℕ → RunList → Option RunList
set_prev none v r = none
set_prev (some p) v r = some (record r { prev = put r.prev p v })

infixl 5 ◌>>=◌
abbrev pub ◌>>=◌ : {A B : Type 0} → Option A → (A → Option B) → Option B
none >>= f = none
some a >>= f = f a

unfoldable pub add_to_run_list : ℕ → RunList → Option RunList
unfolding set_next set_prev
add_to_run_list p r = do
  let head = some r.head
  let prev = r.prev r.head
  r1 ← set_next (some p) head r
  r2 ← set_prev (some p) prev r1
  r3 ← set_prev head (some p) r2
  set_next prev (some p) r3

-- `schedule`, as far as it moves the head; the registers are the processor's. `free_stack` is
-- `StackPool::freeStackAvailable()`.
unfoldable pub schedule : Bool → RunList → Option RunList
schedule free_stack r = do
  head ← r.next r.head
  if (head == r.idle) && not free_stack
      then r.next head >>= (λ second. some (record r { head = second }))
      else some (record r { head = head })

unfoldable pub suspend_from_run_list : Bool → ℕ → RunList → Option RunList
unfolding set_next set_prev schedule
suspend_from_run_list free_stack p r = do
  let prev = r.prev p
  let next = r.next p
  r1 ← set_next prev next r
  r2 ← set_prev next prev r1
  if p == r.head then schedule free_stack r2 else some r2

-- The interrupt flag and `intsCount`.
pub record Interrupts : Type 0 where
  pub enabled : Bool
  pub ints_count : ℕ

unfoldable pub disable_interrupts : Interrupts → Interrupts
disable_interrupts s = record { enabled = false; ints_count = s.ints_count + 1 }

unfoldable pub enable_interrupts : Interrupts → Interrupts
enable_interrupts s =
    let count = if ltb 0 s.ints_count then s.ints_count - 1 else s.ints_count in
    record { enabled = if count == 0 then true else s.enabled; ints_count = count }

-- The free kernel stacks, the first one in front; a stack's link is stored in the stack.
abbrev pub StackPool : Type 0
StackPool = List ℕ

-- `mapping` is what the kernel's allocator returns for a new stack.
unfoldable pub get_new_stack : ℕ → StackPool → StackPool × ℕ
get_new_stack mapping [] = ([], mapping)
get_new_stack mapping (s ∷ ss) = (ss, s)

unfoldable pub push_stack : ℕ → StackPool → StackPool
push_stack s ss = s ∷ ss

-- The pool left, and the stack that is unmapped.
unfoldable pub free_stack : StackPool → StackPool × Option ℕ
free_stack [] = ([], none)
free_stack (s ∷ ss) = (ss, some s)

unfoldable pub free_stack_available : StackPool → Bool
free_stack_available [] = false
free_stack_available (s ∷ ss) = true
