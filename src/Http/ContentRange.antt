-- ===== src/Http/ContentRange.antt =====
-- `HttpUtil::ParseContentRangeHeaderFor206` of src/http_parser/http_util.cc.
mod Refusal
mod Tests
use nginx_quic_stack.Base.{
  ℕ, ◌+◌, ◌-◌, Bool, true, false, ◌||◌, not, [], ◌∷◌, Option, none, some, if◌then◌else◌, ◌==◌, all,
  drop, ◌>>=◌, ◌≡◌,
}
use nginx_quic_stack.Base.Bytes.{Bytes, codes}
use nginx_quic_stack.Base.Int.{ℤ, pos, leb_ℤ, ltb_ℤ}
use nginx_quic_stack.Http.Ascii.{AsciiCase}
use nginx_quic_stack.Http.ParseInt.{is_ascii_digit}
use nginx_quic_stack.Http.Pieces.{StringPiece, is_space, c_str, text_of, whole, trim_lws, find_char}

-- `absl::SimpleAtoi` reads a text of digits, with white space around it and a sign at its front.
pub record NumberReader : Type 0 where
  pub simple_atoi : Bytes → Option ℤ
  pub number_bytes :
      (text : Bytes) (v : ℤ)
      → simple_atoi text ≡ some v
      → all (λ c. is_ascii_digit c || is_space c || (c == b'-') || (c == b'+')) text ≡ true

-- `substr` from a place on.
abbrev pub substr_from : ℕ → StringPiece → StringPiece
substr_from n p = record { from = drop n p.from; size = p.size - n }

pub record ContentRange : Type 0 where
  pub first_byte_position : ℤ
  pub last_byte_position : ℤ
  pub instance_length : ℤ

module _ (ascii : AsciiCase) (numbers : NumberReader) where
  -- `StringToInt64` of a piece's `data()`, which reads on to the end of the text.
  abbrev pub read_on : StringPiece → Option ℤ
  read_on p = numbers.simple_atoi (c_str p.from)

  unfoldable pub positions_of : StringPiece → StringPiece → StringPiece → Option ContentRange
  positions_of first last length = read_on first >>= λ f.
      (if leb_ℤ (pos 0) f then read_on last else none) >>= λ l.
      (if leb_ℤ f l then read_on length else none) >>= λ n.
      (if ltb_ℤ l n
        then some (record { first_byte_position = f; last_byte_position = l; instance_length = n })
        else none)

  -- Behind the unit: `first-last/length`. The pieces are trimmed.
  abbrev pub behind_slash : StringPiece → StringPiece → Option ℕ → Option ContentRange
  behind_slash first rest none = none
  behind_slash first rest (some slash) =
      positions_of first (trim_lws (record rest { size = slash }))
        (trim_lws (substr_from (slash + 1) rest))

  abbrev pub behind_minus : StringPiece → Option ℕ → Option ContentRange
  behind_minus rest none = none
  behind_minus rest (some minus) =
      let later = substr_from (minus + 1) rest in
      behind_slash (trim_lws (record rest { size = minus })) later
        (find_char b'/' later.size later.from)

  abbrev pub behind_unit : StringPiece → Option ℕ → Option ContentRange
  behind_unit spec none = none
  behind_unit spec (some space) =
      let rest = substr_from (space + 1) spec in
      if ascii.lower_case_equals_ascii (text_of (trim_lws (record spec { size = space })))
        (codes "bytes")
      then behind_minus rest (find_char b'-' rest.size rest.from)
      else none

  -- `none` is a result of false, where all three positions are -1.
  unfoldable pub parse_content_range_header_for_206 : Bytes → Option ContentRange
  unfolding positions_of trim_lws find_char
  parse_content_range_header_for_206 content_range_spec =
      let spec = trim_lws (whole content_range_spec) in
      behind_unit spec (find_char b' ' spec.size spec.from)
