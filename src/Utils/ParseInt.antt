-- ===== src/Utils/ParseInt.antt =====
-- src/utils/parse_int.h: an `int` of 32 bits from a text. The error is the end of the message.
pub mod Laws
use nametag.Common.{
  ℕ, ◌+◌, ◌-◌, ◌*◌, ◌/◌, ◌^◌, Bool, true, false, not, ◌&&◌, ◌||◌, List, [], ◌∷◌, ltb, leb, ◌==◌,
  if◌then◌else◌,
}
use nametag.Common.Bytes.{Bytes}
use nametag.Common.Int.{ℤ, pos, sub_ℕ}

pub data ParseError : Type 0 where
  empty_string non_digit overflow underflow : ParseError

pub data ParseResult : Type 0 where
  refused : ParseError → ParseResult
  parsed : ℤ → ParseResult

abbrev pub is_space : ℕ → Bool
is_space c = c == b' ' || c == 12 || c == 10 || c == 13 || c == 9 || c == 11

abbrev pub is_digit : ℕ → Bool
is_digit c = leb b'0' c && leb c b'9'

unfoldable pub skip_spaces : Bytes → Bytes
skip_spaces [] = []
skip_spaces (c ∷ str) = if is_space c then skip_spaces str else c ∷ str

-- The sign, and what is behind it.
unfoldable pub skip_sign : Bytes → Bool × Bytes
skip_sign [] = (true, [])
skip_sign (c ∷ str) = if c == b'+' || c == b'-' then (c == b'+', str) else (true, c ∷ str)

-- The greatest absolute value: of `numeric_limits<int>::max()`, and of `min()` for a minus.
abbrev pub limit : Bool → ℕ
limit true = 2 ^ 31 - 1
limit false = 2 ^ 31

abbrev pub out_of_range : Bool → ParseError
out_of_range true = overflow
out_of_range false = underflow

-- The value of a sign and an absolute value.
abbrev pub signed : Bool → ℕ → ℤ
signed true value = pos value
signed false value = sub_ℕ 0 value

-- What is done behind the digits.
unfoldable pub end_of_int : Bool → ℕ → Bytes → ParseResult
unfolding skip_spaces
end_of_int positive value str = elim (skip_spaces str) [
  | [] ↦ parsed (signed positive value)
  | c ∷ rest ↦ refused non_digit
]

-- The loop over the digits. `value` is the absolute value; division in C++ rounds towards 0, so
-- `value < (min + digit) / 10` compares absolute values as the test of a positive value does.
unfoldable pub parse_digits : Bool → ℕ → Bytes → ParseResult
unfolding end_of_int
parse_digits positive value [] = end_of_int positive value []
parse_digits positive value (c ∷ str) =
    if is_digit c
    then if ltb ((limit positive - (c - b'0')) / 10) value
      then refused (out_of_range positive)
      else parse_digits positive (10 * value + (c - b'0')) str
    else end_of_int positive value (c ∷ str)

-- Behind the sign. The test is the code's, and fails for no byte.
unfoldable pub parse_value : Bool → Bytes → ParseResult
unfolding parse_digits
parse_value positive [] = refused empty_string
parse_value positive (c ∷ str) =
    if not (leb b'0' c || leb c b'9') then refused non_digit else parse_digits positive 0 (c ∷ str)

unfoldable pub parse_int : Bytes → ParseResult
unfolding skip_sign parse_value
parse_int str = let behind = skip_sign (skip_spaces str) in parse_value behind.0 behind.1
