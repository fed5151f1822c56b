-- ===== src/Logging.antt =====
-- Printing to the log: YYSloth/src/core/log.cpp. An operation gives the characters that it sends to the
-- serial port. A string is the list of its bytes in front of the final 0.
pub mod Digits
mod Tests
use yay_os.Base.{
  ℕ, zero, suc, ◌+◌, ◌-◌, ◌/◌, ◌%◌, ◌^◌, Bool, true, false, Option, none, some, List, [], ◌∷◌, ◌++◌,
  ◌==◌, leb, ltb, if◌then◌else◌, u64_mod, sub64,
}
use yay_os.Base.Int.{ℤ, pos, negsuc, to_uint64}

unfoldable pub get_char_from_digit : ℕ → ℕ
get_char_from_digit digit = if leb 10 digit then (b'A' + digit - 10) % 256 else (b'0' + digit) % 256

-- On fuel: a number below 2^64 has at most 64 digits.
unfoldable pub print_rec : ℕ → ℕ → ℕ → List ℕ
unfolding get_char_from_digit
print_rec zero num base = []
print_rec (suc fuel) num base =
    let front = print_rec fuel (num / base) base in
    if num == 0 then [] else front ++ (get_char_from_digit (num % base) ∷ [])

unfoldable pub print_uint64 : ℕ → ℕ → List ℕ
print_uint64 val base = if val == 0 then b'0' ∷ [] else print_rec 64 val base

unfoldable pub print_int64 : ℤ → ℕ → List ℕ
print_int64 (pos n) base = print_uint64 n base
print_int64 (negsuc n) base = b'-' ∷ print_uint64 (sub64 0 (to_uint64 (negsuc n))) base

unfoldable pub print_pointer : ℕ → ℕ → List ℕ
unfolding get_char_from_digit
print_pointer zero pointer = []
print_pointer (suc depth) pointer =
    print_pointer depth (pointer / 16) ++ (get_char_from_digit (pointer % 16) ∷ [])

-- The variable arguments: integers as the caller passes them, strings and characters.
pub data Arg : Type 0 where
  unsigned : ℕ → Arg
  signed : ℤ → Arg
  text : List ℕ → Arg
  character : ℕ → Arg

-- The low 32 bits, for `va_arg(args, int32_t)` and `va_arg(args, uint32_t)`.
abbrev pub low_32 : ℕ → ℕ
low_32 n = n % 2 ^ 32

abbrev pub to_int32 : ℤ → ℤ
to_int32 z =
    let low = low_32 (to_uint64 z) in
    if ltb low (2 ^ 31) then pos low else negsuc (2 ^ 32 - 1 - low)

-- What the conversion with a letter prints, `none` where the next argument is of another kind.
unfoldable pub convert : Bool → ℕ → Arg → Option (List ℕ)
convert wide c (unsigned n) =
    if c == b'u'
    then some (print_uint64 (if wide then n else low_32 n) 10)
    else if c == b'p'
    then some (print_pointer 16 n)
    else none
convert wide c (signed z) =
    if c == b'd' then some (print_int64 (if wide then z else to_int32 z) 10) else none
convert wide c (text s) = if c == b's' then some s else none
convert wide c (character k) = if c == b'c' then some (k ∷ []) else none

-- A conversion takes an argument; any other letter prints nothing.
abbrev pub is_conversion : ℕ → Bool
is_conversion c =
    if c == b'd'
    then true
    else if c == b'u'
    then true
    else if c == b'p'
    then true
    else if c == b's'
    then true
    else c == b'c'

abbrev pub is_integer : ℕ → Bool
is_integer c = if c == b'u' then true else c == b'd'

-- What a conversion prints in front of the rest.
unfoldable pub take_arg : Bool → ℕ → List Arg → (List Arg → Option (List ℕ)) → Option (List ℕ)
take_arg wide c [] rest = none
take_arg wide c (a ∷ args) rest = elim (convert wide c a) [
  | none ↦ none
  | some out ↦ elim (rest args) [ none ↦ none | some more ↦ some (out ++ more) ]
]

abbrev pub send : ℕ → Option (List ℕ) → Option (List ℕ)
send c none = none
send c (some more) = some (c ∷ more)

-- Where the loop stands: at a character, behind `%`, behind `%l`, or behind `%ll`.
pub data Mode : Type 0 where
  plain : Mode
  percent : Mode
  long_one : Mode
  long_two : Mode

-- `logVarargs`: `none` where a format that ends inside a conversion makes the loop run past its
-- end, or an argument is missing or of another kind.
unfoldable pub log_varargs : Mode → List ℕ → List Arg → Option (List ℕ)
log_varargs plain [] args = some []
log_varargs percent [] args = none
log_varargs long_one [] args = none
log_varargs long_two [] args = none
log_varargs plain (c ∷ fmt) args =
    let sent = send c (log_varargs plain fmt args) in
    let conversion = log_varargs percent fmt args in if c == b'%' then conversion else sent
log_varargs percent (c ∷ fmt) args =
    let skipped = log_varargs plain fmt args in
    let long = log_varargs long_one fmt args in
    if c == b'%'
    then send b'%' skipped
    else if c == b'l'
    then long
    else if is_conversion c
    then take_arg false c args (λ args'. log_varargs plain fmt args')
    else skipped
log_varargs long_one (c ∷ fmt) args =
    let skipped = log_varargs plain fmt args in
    let long = log_varargs long_two fmt args in
    if c == b'l'
    then long
    else if is_integer c
    then take_arg true c args (λ args'. log_varargs plain fmt args')
    else skipped
log_varargs long_two (c ∷ fmt) args =
    let skipped = log_varargs plain fmt args in
    if is_integer c then take_arg true c args (λ args'. log_varargs plain fmt args') else skipped
