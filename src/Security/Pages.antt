-- ===== src/Security/Pages.antt =====
-- The check of one page.
use yay_os.Base.{
  ℕ, ◌*◌, ◌/◌, ◌%◌, ◌^◌, ◌≡◌, refl, Bool, true, false, List, [], ◌∷◌, arith, not, ◌&&◌, ◌||◌,
}
use yay_os.Bits.{test_bit}
use yay_os.Bits.Step.{and_digit}
use yay_os.Utils.{align_down}
use yay_os.Paging.{
  Tables, page_size, get_p4_index, get_p3_index, get_p2_index, get_p1_index,
  p4_table_virtual_address, present, writable, user_accessible, cow, was_writable, walk_to,
}
use yay_os.Security.{is_p_writable, is_no_execute, entries_check, virtual_page_condition_check}

-- The entries that the processor walks through for an address, the top one first.
abbrev pub walk : Tables → ℕ → List ℕ
walk tables a =
    let t3 = walk_to p4_table_virtual_address (get_p4_index a) in
    let t2 = walk_to t3 (get_p3_index a) in
    let t1 = walk_to t2 (get_p2_index a) in
    tables p4_table_virtual_address (get_p4_index a)
    ∷ tables t3 (get_p3_index a)
    ∷ tables t2 (get_p2_index a)
    ∷ tables t1 (get_p1_index a)
    ∷ []

abbrev pub all : {A : Type 0} → (A → Bool) → List A → Bool
all p [] = true
all p (x ∷ xs) = p x && all p xs

-- What an entry on the way allows: the page is there, users reach it when they have to, and it is
-- or was writable when that is asked for.
abbrev pub grants : Bool → Bool → ℕ → Bool
grants is_user is_writable e =
    present e
    && (not is_user || user_accessible e)
    && (not is_writable || writable e || (cow e && was_writable e))

-- A present entry is taken for one that forbids execution.
present-is_no_execute : (e : ℕ) → present e ≡ true → is_no_execute e ≡ true
unfolding is_no_execute test_bit
present-is_no_execute e h = ground (arith, and_digit e 1)

data_entries :
    (e4 e3 e2 e1 : ℕ) (u w : Bool)
    → entries_check e4 e3 e2 e1 u w false ≡ all (grants u w) (e4 ∷ e3 ∷ e2 ∷ e1 ∷ [])
unfolding entries_check is_p_writable
data_entries e4 e3 e2 e1 true true = ground arith
data_entries e4 e3 e2 e1 true false = ground arith
data_entries e4 e3 e2 e1 false true = ground arith
data_entries e4 e3 e2 e1 false false = ground arith

-- For data the check of a page is passed exactly when each of the four entries on the way to it is
-- present, is open to users where that is asked for, and, where writing is asked for, is writable
-- or a copy-on-write entry that was.
pub page_check-walk :
    (tables : Tables) (page : ℕ) (u w : Bool)
    → virtual_page_condition_check tables page u w false ≡ all (grants u w) (walk tables page)
unfolding virtual_page_condition_check
page_check-walk tables page u w = data_entries _ _ _ _ u w

-- No page passes the check for code: the test of bit 63 reads the present bit instead.
pub code_check_refuses :
    (tables : Tables) (page : ℕ) (u w : Bool)
    → virtual_page_condition_check tables page u w true ≡ false
unfolding virtual_page_condition_check entries_check
code_check_refuses tables page u w =
    let e4 = tables p4_table_virtual_address (get_p4_index page) in
    ground (arith, present-is_no_execute e4)

-- All bytes of a page share the entries.
pub page_check-align_down :
    (tables : Tables) (a : ℕ) (u w c : Bool)
    → virtual_page_condition_check tables (align_down a page_size) u w c
      ≡ virtual_page_condition_check tables a u w c
unfolding virtual_page_condition_check align_down get_p4_index get_p3_index get_p2_index
    get_p1_index
page_check-align_down tables a u w c =
    let i4 : a / page_size * page_size / 2 ^ 39 % 512 ≡ a / 2 ^ 39 % 512 = omega arith in
    let i3 : a / page_size * page_size / 2 ^ 30 % 512 ≡ a / 2 ^ 30 % 512 = omega arith in
    let i2 : a / page_size * page_size / 2 ^ 21 % 512 ≡ a / 2 ^ 21 % 512 = omega arith in
    let i1 : a / page_size * page_size / 2 ^ 12 % 512 ≡ a / 2 ^ 12 % 512 = omega arith in
    rw (i4, i3, i2, i1) refl
