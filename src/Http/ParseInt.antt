-- ===== src/Http/ParseInt.antt =====
-- Integers in protocol text: src/net/base/parse_number.cc. `StringToNumber` hands the text to
-- quiche or absl and is an argument.
pub mod Documented
mod Tests
use nginx_quic_stack.Base.{
  ℕ, Bool, true, false, ◌&&◌, ◌||◌, not, List, [], ◌∷◌, Option, none, some, if◌then◌else◌, ◌==◌,
  leb, is_nil,
}
use nginx_quic_stack.Base.Bytes.{Bytes}
use nginx_quic_stack.Base.Int.{ℤ}

pub data ParseIntFormat : Type 0 where
  non_negative : ParseIntFormat
  optionally_negative : ParseIntFormat

pub data ParseIntError : Type 0 where
  failed_parse : ParseIntError
  failed_underflow : ParseIntError
  failed_overflow : ParseIntError

pub data ParseIntResult : Type 0 where
  parsed : ℤ → ParseIntResult
  failed : ParseIntError → ParseIntResult

abbrev pub is_ascii_digit : ℕ → Bool
is_ascii_digit c = leb b'0' c && leb c b'9'

-- `find_first_not_of("0123456789") == npos`.
abbrev pub only_digits : Bytes → Bool
only_digits [] = true
only_digits (c ∷ text) = is_ascii_digit c && only_digits text

abbrev pub is_non_negative : ParseIntFormat → Bool
is_non_negative non_negative = true
is_non_negative optionally_negative = false

module _ (string_to_number : Bytes → Option ℤ) where
  -- Why the number was not read.
  abbrev error_of : Bool → Bytes → ParseIntError
  error_of starts_with_negative numeric_portion =
      if not (is_nil numeric_portion) && only_digits numeric_portion
      then (if starts_with_negative then failed_underflow else failed_overflow)
      else failed_parse

  abbrev dispatch : Option ℤ → ParseIntError → ParseIntResult
  dispatch none e = failed e
  dispatch (some v) e = parsed v

  unfoldable pub parse_int_helper : Bytes → ParseIntFormat → ParseIntResult
  parse_int_helper [] format = failed failed_parse
  parse_int_helper (c ∷ text) format =
      let starts_with_negative = c == b'-' in
      if not (is_ascii_digit c) && (is_non_negative format || not starts_with_negative)
      then failed failed_parse
      else dispatch (string_to_number (c ∷ text))
          (error_of starts_with_negative (if starts_with_negative then text else c ∷ text))
