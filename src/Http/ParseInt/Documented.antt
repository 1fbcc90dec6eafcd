-- ===== src/Http/ParseInt/Documented.antt =====
-- What src/net/base/parse_number.h says of a text: the number that it is, or which bound it misses.
use nginx_quic_stack.Base.{
  ℕ, ◌+◌, ◌-◌, ◌*◌, Bool, true, false, ◌&&◌, ◌||◌, not, ◌≡◌, [], ◌∷◌, Option, none, some,
  if◌then◌else◌, ◌==◌, leb, is_nil, arith, Bool-cases, inl, inr, ◌∙◌, ap,
}
use nginx_quic_stack.Base.Bytes.{Bytes}
use nginx_quic_stack.Base.Int.{ℤ, pos, negsuc, ltb_ℤ, ◌≤ℤ◌}
use nginx_quic_stack.Http.ParseInt.{
  ParseIntFormat, failed_parse, failed_underflow, failed_overflow, ParseIntResult, parsed, failed,
  is_ascii_digit, only_digits, is_non_negative, parse_int_helper,
}

abbrev value_behind : ℕ → Bytes → ℕ
value_behind read [] = read
value_behind read (c ∷ text) = value_behind (read * 10 + (c - b'0')) text

abbrev negated : ℕ → ℤ
negated n = if n == 0 then pos 0 else negsuc (n - 1)

-- The number of a text of the form 1*DIGIT.
abbrev digits_of : Bytes → Option ℕ
digits_of text = if not (is_nil text) && only_digits text then some (value_behind 0 text) else none

-- The bounds of the type.
pub record Bounds : Type 0 where
  pub lowest : ℤ
  pub highest : ℤ
  pub lowest_bound : lowest ≤ℤ pos 0
  pub highest_bound : pos 0 ≤ℤ highest

abbrev pub in_range : Bounds → Option ℤ → Option ℤ
in_range b none = none
in_range b (some v) = if ltb_ℤ v b.lowest || ltb_ℤ b.highest v then none else some v

-- ["-"] 1*DIGIT as a number.
abbrev pub numeral : Bytes → Option ℤ
numeral [] = none
numeral (c ∷ text) =
    if c == b'-'
    then elim (digits_of text) [ none ↦ none | some n ↦ some (negated n) ]
    else elim (digits_of (c ∷ text)) [ none ↦ none | some n ↦ some (pos n) ]

abbrev judge : Bounds → Option ℤ → ParseIntResult
judge b none = failed failed_parse
judge b (some v) =
    if ltb_ℤ v b.lowest
    then failed failed_underflow
    else if ltb_ℤ b.highest v
    then failed failed_overflow
    else parsed v

abbrev starts_with_minus : Bytes → Bool
starts_with_minus [] = false
starts_with_minus (c ∷ text) = c == b'-'

abbrev pub documented : Bounds → ParseIntFormat → Bytes → ParseIntResult
documented b format text =
    if is_non_negative format && starts_with_minus text
    then failed failed_parse
    else judge b (numeral text)

-- The texts that are handed on: a digit or, if the format has it, a minus sign in front, and no
-- white space, which absl would skip.
abbrev pub no_space : Bytes → Bool
no_space [] = true
no_space (c ∷ text) = not (leb c b' ') && no_space text

abbrev pub handed_on : ParseIntFormat → Bytes → Bool
handed_on format [] = false
handed_on format (c ∷ text) =
    (is_ascii_digit c || (not (is_non_negative format) && (c == b'-'))) && no_space (c ∷ text)

-- For every format, every type's bounds (which contain 0), and every text without white space,
-- where the library reads a text that starts with a digit (or with a minus sign, if the format has
-- it) exactly as its number if that is in the bounds: ParseIntHelper gives the result that the
-- header documents, the number of a text of the form 1*DIGIT (with a minus sign in front, if the
-- format has it), an underflow or an overflow if it is below or above the bounds, and a parse
-- failure for every other text.
pub parse_int_helper_lem :
    (b : Bounds) (string_to_number : Bytes → Option ℤ) (format : ParseIntFormat)
    → ((text : Bytes)
        → handed_on format text ≡ true
        → string_to_number text ≡ in_range b (numeral text))
    → (text : Bytes) → no_space text ≡ true
    → parse_int_helper string_to_number text format ≡ documented b format text
unfolding parse_int_helper
parse_int_helper_lem b f format law [] clean = ground arith
parse_int_helper_lem b f format law (c ∷ text) clean =
    elim (Bool-cases (is_ascii_digit c || (not (is_non_negative format) && (c == b'-')))) [
      | inl starts ↦
          let read : f (c ∷ text) ≡ in_range b (numeral (c ∷ text)) =
            law (c ∷ text) (ap (λ s. s && no_space (c ∷ text)) starts ∙ clean) in
          rw read (ground (arith, starts, b.lowest_bound, b.highest_bound))
      | inr other ↦ ground (arith, other)
    ]
