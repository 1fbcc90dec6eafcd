-- ===== src/Http/RangeHeader.antt =====
-- `HttpUtil::ParseRangeHeader` of src/http_parser/http_util.cc, with the values of a list.
pub mod Refusal
mod Tests
use nginx_quic_stack.Base.{
  ℕ, ◌+◌, ◌-◌, zero, suc, Bool, true, false, ◌&&◌, ◌||◌, not, List, [], ◌∷◌, ◌++◌, Option, none,
  some, if◌then◌else◌, ◌==◌, leb, length, take, drop, is_nil, ◌>>=◌, ◌≡◌,
}
use nginx_quic_stack.Base.Bytes.{Bytes, codes}
use nginx_quic_stack.Base.Int.{ℤ, pos, ◌≤ℤ◌}
use nginx_quic_stack.Http.ByteRange.Defs.{
  HttpByteRange, new_range, is_valid, has_first_byte_position,
}
use nginx_quic_stack.Http.Pieces.{StringPiece, contains, is_space, c_str, trim_lws, find_char}

-- Each piece runs to the end of the text.
abbrev pub Within : Bytes → List StringPiece → Type 0
Within text [] = Unit {0}
Within text (p ∷ pieces) = ((before : Bytes) × (text ≡ before ++ p.from)) × Within text pieces

-- `absl::SimpleAtoi` reads a number where the whole text is one, between white space, with one sign
-- at its front at most. `gurl_base`: the tokens of a text, between commas that are not quoted, lie
-- in it.
pub record NumbersAndTokens : Type 0 where
  pub simple_atoi : Bytes → Option ℤ
  pub minus_in_front :
      (c : ℕ) (text : Bytes) (v : ℤ)
      → is_space c ≡ false
      → simple_atoi (c ∷ text) ≡ some v
      → contains b'-' text ≡ false
  pub minus_not_positive : (text : Bytes) (v : ℤ) → simple_atoi (b'-' ∷ text) ≡ some v → v ≤ℤ pos 0
  pub lower_case_equals_ascii : Bytes → Bytes → Bool
  pub tokens : Bytes → List StringPiece
  pub tokens_within : (text : Bytes) → Within text (tokens text)

module _ (lib : NumbersAndTokens) where
  open lib use {simple_atoi, lower_case_equals_ascii, tokens}

  -- `HttpUtil::StringToInt64`, which reads the piece's text on to its end.
  abbrev pub string_to_int64 : StringPiece → Option ℤ
  string_to_int64 p = simple_atoi (c_str p.from)

  unfoldable pub set_first : StringPiece → Option HttpByteRange
  set_first first =
      if first.size == 0
      then some new_range
      else (string_to_int64 first >>= λ v. some (record new_range { first_byte_position = v }))

  -- The last position is read where the first one starts.
  unfoldable pub set_last : StringPiece → StringPiece → HttpByteRange → Option HttpByteRange
  set_last first last range =
      if last.size == 0
      then (if has_first_byte_position range then some range else none)
      else (string_to_int64 first >>= λ v. some (
          if has_first_byte_position range
          then record range { last_byte_position = v }
          else record range { suffix_length = v }))

  unfoldable pub range_at : ℕ → StringPiece → Option HttpByteRange
  unfolding set_first set_last trim_lws
  range_at m value =
      let first = trim_lws (record value { size = m }) in
      let last =
        trim_lws (record { from = drop (m + 1) value.from; size = value.size - (m + 1) }) in
      set_first first >>= λ range.
      set_last first last range >>= λ r. if is_valid r then some r else none

  -- One value of the list; `none` where the function returns false.
  unfoldable pub range_of_value : StringPiece → Option HttpByteRange
  unfolding range_at find_char
  range_of_value value = find_char b'-' value.size value.from >>= λ m. range_at m value

  -- The loop over the tokens, which are trimmed, and passed over when empty.
  unfoldable pub add_ranges : List StringPiece → List HttpByteRange → List HttpByteRange × Bool
  unfolding range_of_value
  add_ranges [] ranges = (ranges, not (is_nil ranges))
  add_ranges (token ∷ rest) ranges =
      if (trim_lws token).size == 0
      then add_ranges rest ranges
      else elim (range_of_value (trim_lws token)) [
        | none ↦ (ranges, false)
        | some r ↦ add_ranges rest (ranges ++ r ∷ [])
      ]

  unfoldable pub ranges_behind : ℕ → Bytes → List HttpByteRange → List HttpByteRange × Bool
  unfolding add_ranges trim_lws
  ranges_behind equal_char spec ranges =
      let bytes_unit = trim_lws (record { from = spec; size = equal_char }) in
      if lower_case_equals_ascii (take bytes_unit.size bytes_unit.from) (codes "bytes")
      then add_ranges (tokens (drop (equal_char + 1) spec)) ranges
      else (ranges, false)

  unfoldable pub parse_range_header : Bytes → List HttpByteRange → List HttpByteRange × Bool
  unfolding ranges_behind find_char
  parse_range_header spec ranges = elim (find_char b'=' (length spec) spec) [
    | none ↦ (ranges, false)
    | some equal_char ↦ ranges_behind equal_char spec ranges
  ]
