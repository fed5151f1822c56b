-- ===== src/SystemCalls/Status.antt =====
-- The system calls on processes and constants: `YY_GetProcStatus` and `YY_QueryAPIInfo` of
-- YYSloth/src/proc/userapi.cpp.
use yay_os.Base.{
  ℕ, ◌<◌, ◌≡◌, ◌≢◌, refl, ◌⊎◌, inl, inr, true, false, Option, none, some, ◌==◌, ltb, if◌then◌else◌,
  not, arith, Bool-cases,
}
use yay_os.Base.Int.{ℤ, pos, minus_one, to_int64}
use yay_os.Paging.{Tables}
use yay_os.Security.{virtual_range_condition_check}
use yay_os.Process.{pid_max, PidBitmap, free_pid}

pub record Process : Type 0 where
  pub ppid : ℕ
  pub dead : ℕ
  pub return_code : ℤ
  pub status : ℤ

-- The processes by number, the numbers in use and the running process.
pub record Processes : Type 0 where
  pub data_of : ℕ → Process
  pub pids : PidBitmap
  pub running : ℕ

-- `sizeof(YY_ProcessStatus)`
abbrev pub process_status_size : ℕ
process_status_size = 16

abbrev pub changed : (ℕ → Process) → ℕ → Process → ℕ → Process
changed map key value other = if other == key then value else map other

-- `proc->ppid = 0; freePid(pid)`.
unfoldable pub collect : ℕ → Processes → Processes
collect pid s = record s {
  data_of = changed s.data_of pid (record (s.data_of pid) { ppid = 0 });
  pids = free_pid pid s.pids;
}

-- The state, the result, and what is stored in the buffer. A null pointer is 0.
unfoldable pub get_proc_status : Tables → ℕ → ℕ → Processes → Processes × ℤ × Option (ℤ × ℤ)
get_proc_status tables pid buf s =
    let proc = s.data_of pid in
    if not (ltb pid pid_max)
    then (s, minus_one, none)
    else if not (proc.ppid == s.running)
    then (s, minus_one, none)
    else if proc.dead == 1
    then (if buf == 0
        then (collect pid s, to_int64 proc.dead, none)
        else if not (virtual_range_condition_check tables buf process_status_size true true false)
        then (s, minus_one, none)
        else (collect pid s, to_int64 proc.dead, some (proc.return_code, proc.status)))
    else (s, to_int64 proc.dead, none)

unfoldable pub query_api_info : ℕ → ℤ
query_api_info id =
    if id == 1
    then pos 4096
    else if id == 3
    then pos 4096
    else if id == 2
    then pos 4096
    else if id == 4
    then pos 1024
    else if id == 6
    then pos 65536
    else if id == 5
    then pos 4096
    else minus_one

collected :
    (tables : Tables) (pid buf : ℕ) (s : Processes)
    → pid < pid_max
    → (s.data_of pid).ppid ≡ s.running
    → (s.data_of pid).dead ≡ 1
    → (buf ≡ 0)
      ⊎ (virtual_range_condition_check tables buf process_status_size true true false ≡ true)
    → get_proc_status tables pid buf s ≡ (
      collect pid s,
      pos 1,
      if buf == 0 then none else some ((s.data_of pid).return_code, (s.data_of pid).status),
    )
unfolding get_proc_status
collected tables pid buf s h child dead buffer =
    let a : ltb pid pid_max ≡ true = ground (arith, h) in
    let b : ((s.data_of pid).ppid == s.running) ≡ true = ground (arith, child) in
    rw (a, b, dead)
      (elim (Bool-cases (buf == 0)) [
        | inl null ↦ rw null refl
        | inr given ↦ elim buffer [
          | inl null ↦ absurd (ground (arith, null, given))
          | inr passes ↦ rw (given, passes) refl
        ]
      ])

refused :
    (tables : Tables) (pid buf : ℕ) (s : Processes)
    → pid < pid_max
    → (s.data_of pid).ppid ≢ s.running
    → get_proc_status tables pid buf s ≡ (s, minus_one, none)
unfolding get_proc_status
refused tables pid buf s h other =
    let a : ltb pid pid_max ≡ true = ground (arith, h) in
    let b : ((s.data_of pid).ppid == s.running) ≡ false = ground (arith, other) in rw (a, b) refl

-- The status of a dead child is given out once: for a child of the running process, which is not
-- number 0, that is dead, a call whose buffer is null or passes its check returns 1, stores what
-- the child left if there is a buffer, and frees the number of the child; the same call again
-- returns -1 and changes nothing.
pub get_proc_status-once :
    (tables : Tables) (pid buf : ℕ) (s : Processes)
    → pid < pid_max
    → (s.data_of pid).ppid ≡ s.running
    → 0 < s.running
    → (s.data_of pid).dead ≡ 1
    → (buf ≡ 0)
      ⊎ (virtual_range_condition_check tables buf process_status_size true true false ≡ true)
    → (s' : Processes) × (get_proc_status tables pid buf s ≡ (
      s',
      pos 1,
      if buf == 0 then none else some ((s.data_of pid).return_code, (s.data_of pid).status),
    ))
      × (s'.pids ≡ free_pid pid s.pids)
      × (get_proc_status tables pid buf s' ≡ (s', minus_one, none))
unfolding collect
get_proc_status-once tables pid buf s h child running dead buffer = (
  collect pid s,
  collected tables pid buf s h child dead buffer,
  refl,
  refused tables pid buf (collect pid s) h (ground (arith, running)),
)
