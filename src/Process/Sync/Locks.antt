-- ===== src/Process/Sync/Locks.antt =====
-- What the locks do, and do not.
use yay_os.Base.{
  ℕ, ◌-◌, ◌≤◌, ◌<◌, ◌≡◌, ◌≢◌, inl, inr, Bool, true, false, none, some, ◌==◌, is_some, List, [], ◌∷◌,
  arith, u64_mod, Option-cases, subst, ◌∙◌,
}
use yay_os.Process.{Interrupts, ◌>>=◌, disable_interrupts, enable_interrupts}
use yay_os.Process.Sync.{
  ProcessQueue, Semaphore, System, disabled, sleep, acquire, lock, unlock, Call, locks, unlocks,
  acquires, releases, step, run,
}

-- The flag says whether no section is open.
abbrev pub IsConsistent : Interrupts → Type 0
IsConsistent i = i.enabled ≡ (i.ints_count == 0)

-- A section that is opened and closed leaves the interrupts as they were, at any depth.
pub enable-disable :
    (i : Interrupts) → IsConsistent i → enable_interrupts (disable_interrupts i) ≡ i
unfolding enable_interrupts disable_interrupts
enable-disable i h = ground arith

-- Inside a section the interrupts stay disabled until its own end.
pub nested_disabled :
    (i : Interrupts)
    → IsConsistent i
    → (enable_interrupts (disable_interrupts (disable_interrupts i))).enabled ≡ false
unfolding enable_interrupts disable_interrupts
nested_disabled i h = ground arith

-- The process is not the last one of a queue.
abbrev pub NotTail : ProcessQueue → ℕ → Type 0
NotTail q p = (is_some q.task_head ≡ true) → q.task_tail ≢ some p

-- `sleep` clears the `prev` link of the running process and then takes the process out of the run
-- list through that link, so it always faults, unless the process is already last in a
-- queue that is not empty.
pub sleep_faults :
    (free_stack : Bool) (q : ProcessQueue) (s : System)
    → NotTail q s.run_list.head
    → sleep free_stack q s ≡ none
unfolding sleep
sleep_faults free_stack q s ok = ground (arith, ok)

-- A semaphore that is not held and has enough left is taken at once.
pub acquire_free :
    (free_stack : Bool) (n : ℕ) (m : Semaphore) (s : System)
    → IsConsistent s.interrupts
    → m.acquired ≡ false
    → n ≤ m.num
    → m.num < u64_mod
    → acquire free_stack n m s ≡ some (record m { num = m.num - n; acquired = true }, s)
unfolding acquire
acquire_free free_stack n m s ok free enough small = ground (arith, enable-disable s.interrupts ok)

-- A semaphore that is held cannot be waited for: `acquire` faults, unless the running process is
-- already last in a queue that is not empty.
pub acquire_held :
    (free_stack : Bool) (n : ℕ) (m : Semaphore) (s : System)
    → m.acquired ≡ true
    → NotTail m.queue s.run_list.head
    → acquire free_stack n m s ≡ none
unfolding acquire disabled
acquire_held free_stack n m s held ok =
    ground (arith, sleep_faults free_stack m.queue (disabled s) ok)

-- Calls leave `m_initialized` alone.
initialized-step :
    (free_stack : Bool) (k : Call) (m m' : Semaphore) (s s' : System)
    → step free_stack k (m, s) ≡ some (m', s')
    → s'.initialized ≡ s.initialized
unfolding step
initialized-step free_stack locks m m' s s' h = ground arith
initialized-step free_stack unlocks m m' s s' h = ground arith
initialized-step free_stack (acquires n) m m' s s' h = ground arith
initialized-step free_stack (releases n) m m' s s' h = ground arith

initialized-run :
    (free_stack : Bool) (ks : List Call) (m m' : Semaphore) (s s' : System)
    → run free_stack ks (m, s) ≡ some (m', s')
    → s'.initialized ≡ s.initialized
unfolding run
initialized-run free_stack [] m m' s s' h = ground arith
initialized-run free_stack (k ∷ ks) m m' s s' h = elim (Option-cases (step free_stack k (m, s))) [
  | inl failed ↦ cc (subst (λ o. (o >>= (λ d. run free_stack ks d)) ≡ some (m', s')) failed h)
  | inr ((m1, s1), done) ↦
      let h1 = subst (λ o. (o >>= (λ d. run free_stack ks d)) ≡ some (m', s')) done h in
      initialized-run free_stack ks m1 m' s1 s' h1 ∙ initialized-step free_stack k m m1 s s1 done
]

-- From a state in which `m_initialized` is not set, which no call sets, `lock` and `unlock` of a
-- mutex do nothing after any calls: every process gets every lock.
pub locks_do_nothing :
    (free_stack : Bool) (ks : List Call) (m m' : Semaphore) (s s' : System)
    → s.initialized ≡ false
    → run free_stack ks (m, s) ≡ some (m', s')
    → (lock free_stack m' s' ≡ some (m', s')) × (unlock m' s' ≡ some (m', s'))
unfolding lock unlock
locks_do_nothing free_stack ks m m' s s' unset h =
    ground (arith, initialized-run free_stack ks m m' s s' h)

lock-free :
    (free_stack : Bool) (m : Semaphore) (s : System)
    → IsConsistent s.interrupts
    → s.initialized ≡ true
    → m.acquired ≡ false
    → 0 < m.num
    → m.num < u64_mod
    → lock free_stack m s ≡ some (record m { num = m.num - 1; acquired = true }, s)
unfolding lock
lock-free free_stack m s ok set_up free enough small =
    ground (arith, acquire_free free_stack 1 m s ok free)

unlock-held :
    (m : Semaphore) (s : System)
    → IsConsistent s.interrupts
    → s.initialized ≡ true
    → m.acquired ≡ false
    → m.queue.task_head ≡ none
    → 0 < m.num
    → m.num < u64_mod
    → unlock (record m { num = m.num - 1; acquired = true }) s ≡ some (m, s)
unfolding unlock
unlock-held m s ok set_up free nobody enough small =
    ground (arith, enable-disable s.interrupts ok, enable-disable (disable_interrupts s.interrupts))

-- With `m_initialized` set, a free mutex on which nobody waits is locked, and unlocking it gives back the mutex and the
-- system as they were.
pub unlock-lock :
    (free_stack : Bool) (m : Semaphore) (s : System)
    → IsConsistent s.interrupts
    → s.initialized ≡ true
    → m.acquired ≡ false
    → m.queue.task_head ≡ none
    → 0 < m.num
    → m.num < u64_mod
    → (lock free_stack m s >>= (λ (m', s'). unlock m' s')) ≡ some (m, s)
unlock-lock free_stack m s ok set_up free nobody enough small =
    rw (lock-free free_stack m s ok set_up free enough small)
      (unlock-held m s ok set_up free nobody enough small)
