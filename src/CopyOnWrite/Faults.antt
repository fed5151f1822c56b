-- ===== src/CopyOnWrite/Faults.antt =====
-- The check of an access at one level of the tables: `checkAndMoveToNext` of
-- YYSloth/src/memory/cow.cpp.
use yay_os.Base.{ℕ, ◌≡◌, Bool, not, ◌&&◌, ◌||◌, arith, if◌then◌else◌}
use yay_os.Bits.{test_bit}
use yay_os.Paging.{Tables, present, writable, user_accessible, cow, walk_to}
use yay_os.CopyOnWrite.{next, violation, kernel_panic, check_and_move_to_next}

-- The error code of a page fault.
abbrev from_userspace : ℕ → Bool
from_userspace code = test_bit code 2

abbrev writable_access : ℕ → Bool
writable_access code = test_bit code 1

abbrev instruction_fetch : ℕ → Bool
instruction_fetch code = test_bit code 4

-- The access is allowed at this level, if need be after a copy.
abbrev pub allowed : ℕ → ℕ → Bool
allowed entry code =
    present entry
    && (user_accessible entry || not (from_userspace code))
    && not (instruction_fetch code && test_bit entry 63)
    && (cow entry || not (writable_access code) || writable entry)

-- The check goes on to the next table exactly for an access that the entry allows; an access from
-- user space that it does not allow stops the process, and one from the kernel the machine.
pub check_and_move_to_next-allowed :
    (t : Tables) (current index code : ℕ)
    → check_and_move_to_next t current index code ≡ (
        if allowed (t current index) code
        then next (walk_to current index)
        else if from_userspace code
        then violation
        else kernel_panic)
unfolding check_and_move_to_next
check_and_move_to_next-allowed t current index code = ground arith
