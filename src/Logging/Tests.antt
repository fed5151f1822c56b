-- ===== src/Logging/Tests.antt =====
-- Printing a number and a line.
use yay_os.Base.{◌≡◌, refl, some, none, [], ◌∷◌, arith}
use yay_os.Base.Int.{negsuc}
use yay_os.Logging.{
  get_char_from_digit, print_rec, print_uint64, print_int64, unsigned, signed, plain, log_varargs,
  take_arg, convert,
}
use yay_os.Logging.Digits.{value, value-print_uint64}

two_arguments :
    log_varargs plain
      (b'%' ∷ b'd' ∷ 32 ∷ b'%' ∷ b'l' ∷ b'l' ∷ b'u' ∷ [])
      (signed (negsuc 11) ∷ unsigned 7 ∷ [])
    ≡ some (b'-' ∷ b'1' ∷ b'2' ∷ 32 ∷ b'7' ∷ [])
unfolding log_varargs take_arg convert print_int64 print_uint64 print_rec get_char_from_digit
two_arguments = refl

ends_in_percent : log_varargs plain (b'%' ∷ []) [] ≡ none
unfolding log_varargs
ends_in_percent = refl

value-print_uint64_example : value 16 0 (print_uint64 48879 16) ≡ 48879
value-print_uint64_example = value-print_uint64 48879 16 (omega arith) (omega arith) (omega arith)
