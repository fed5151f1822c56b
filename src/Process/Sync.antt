-- ===== src/Process/Sync.antt =====
-- Waiting for a lock: ProcessQueue (YYSloth/src/proc/taskqueue.cpp), Semaphore (semaphore.cpp) and
-- Mutex (mutex.cpp). A queue is linked through the `prev` of the waiting processes.
pub mod Locks
use yay_os.Base.{
  ℕ, suc, ◌+◌, ◌-◌, Bool, true, false, Option, none, some, ◌==◌, ltb, if◌then◌else◌, add64, sub64,
  not, ◌&&◌, ◌||◌, is_some, List, [], ◌∷◌,
}
use yay_os.Process.{
  RunList, Interrupts, put, ◌>>=◌, set_prev, suspend_from_run_list, add_to_run_list,
  disable_interrupts, enable_interrupts,
}

pub record ProcessQueue : Type 0 where
  pub task_head : Option ℕ
  pub task_tail : Option ℕ

pub record Semaphore : Type 0 where
  pub num : ℕ
  pub queue : ProcessQueue
  pub acquired : Bool

abbrev pub empty_queue : ProcessQueue
empty_queue = record { task_head = none; task_tail = none }

-- What the operations share: the run list, the interrupt counter, ProcessManager::m_initialized.
pub record System : Type 0 where
  pub run_list : RunList
  pub interrupts : Interrupts
  pub initialized : Bool

unfoldable pub disabled : System → System
unfolding disable_interrupts
disabled s = record s { interrupts = disable_interrupts s.interrupts }

unfoldable pub enabled : System → System
unfolding enable_interrupts
enabled s = record s { interrupts = enable_interrupts s.interrupts }

-- `sleep`, up to the switch to another process. `none` is a fault. `suspendFromRunList` and
-- `addToRunList` disable and enable interrupts once each.
unfoldable pub sleep : Bool → ProcessQueue → System → Option (ProcessQueue × System)
unfolding disabled enabled set_prev suspend_from_run_list
sleep free_stack q s = do
  let s1 = disabled s
  let current = s1.run_list.head
  r1 ← set_prev (some current) none s1.run_list
  (q', r2) ←
      (if is_some q.task_head
        then set_prev q.task_tail (some current) r1
          >>= (λ r. some (record q { task_tail = some current }, r))
        else some (record { task_head = some current; task_tail = some current }, r1))
  r3 ← suspend_from_run_list free_stack current r2
  some (q', enabled (disabled (record s1 { run_list = r3 })))

unfoldable pub awake : ProcessQueue → System → Option (ProcessQueue × System × Bool)
unfolding disabled enabled add_to_run_list
awake q s = elim q.task_head [
  | none ↦ some (q, enabled (disabled s), false)
  | some p ↦
      let s1 = disabled s in
      add_to_run_list p s1.run_list >>= (λ r. some (
        record q { task_head = s1.run_list.prev p },
        enabled (enabled (disabled (record s1 { run_list = r }))),
        true,
      ))
]

unfoldable pub semaphore : ℕ → Semaphore
semaphore n = record { num = n; queue = empty_queue; acquired = false }

unfoldable pub acquire : Bool → ℕ → Semaphore → System → Option (Semaphore × System)
unfolding sleep disabled enabled
acquire free_stack n m s = do
  let s1 = disabled s
  (q, s2) ← (if m.acquired || ltb m.num n then sleep free_stack m.queue s1 else some (m.queue, s1))
  some (record { num = sub64 m.num n; queue = q; acquired = true }, enabled s2)

unfoldable pub release : ℕ → Semaphore → System → Option (Semaphore × System)
unfolding awake disabled enabled
release n m s = do
  let s1 = disabled s
  (q, s2, woken) ← awake m.queue s1
  some (
    record { num = add64 m.num n; queue = q; acquired = if woken then m.acquired else false },
    enabled s2,
  )

unfoldable pub someone_waiting : Semaphore → Bool
someone_waiting m = is_some m.queue.task_head

unfoldable pub lock : Bool → Semaphore → System → Option (Semaphore × System)
unfolding acquire
lock free_stack m s = if s.initialized then acquire free_stack 1 m s else some (m, s)

unfoldable pub unlock : Semaphore → System → Option (Semaphore × System)
unfolding release
unlock m s = if s.initialized then release 1 m s else some (m, s)

-- The calls on one mutex and its semaphore.
pub data Call : Type 0 where
  locks unlocks : Call
  acquires releases : ℕ → Call

unfoldable pub step : Bool → Call → Semaphore × System → Option (Semaphore × System)
unfolding lock unlock acquire release
step free_stack locks (m, s) = lock free_stack m s
step free_stack unlocks (m, s) = unlock m s
step free_stack (acquires n) (m, s) = acquire free_stack n m s
step free_stack (releases n) (m, s) = release n m s

unfoldable pub run : Bool → List Call → Semaphore × System → Option (Semaphore × System)
run free_stack [] c = some c
run free_stack (k ∷ ks) c = step free_stack k c >>= (λ d. run free_stack ks d)
