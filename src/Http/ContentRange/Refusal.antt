-- ===== src/Http/ContentRange/Refusal.antt =====
-- No content range is accepted, since the first number is read up to the end of the header.
use nginx_quic_stack.Base.{
  ℕ, ◌+◌, ◌-◌, zero, suc, true, false, ◌||◌, [], ◌∷◌, Option, none, some, ◌==◌, all, drop,
  drop-drop, length, ◌≡◌, refl, ap, sym, ◌∙◌, arith, Option-cases, Bool-cases, inl, inr,
}
use nginx_quic_stack.Base.Bytes.{Bytes, codes}
use nginx_quic_stack.Http.Ascii.{AsciiCase}
use nginx_quic_stack.Http.ParseInt.{is_ascii_digit}
use nginx_quic_stack.Http.Pieces.{
  StringPiece, contains, is_space, c_str, text_of, whole, trim_left, trim_lws, find_char,
}
use nginx_quic_stack.Http.Texts.{c_str_lem}
use nginx_quic_stack.Http.RangeHeader.Refusal.{find_char-contains}
use nginx_quic_stack.Http.ContentRange.{
  substr_from, NumberReader, read_on, positions_of, behind_slash, behind_minus, behind_unit,
  parse_content_range_header_for_206,
}

contains-drop : (c n : ℕ) (text : Bytes) → contains c (drop n text) ≡ true → contains c text ≡ true
contains-drop c zero text h = h
contains-drop c (suc n) [] h = h
contains-drop c (suc n) (x ∷ text) h = ground (arith, contains-drop c n text)

-- Trimming a piece does not go beyond it.
contains-trim :
    (c n : ℕ) (text : Bytes)
    → contains c (drop n text) ≡ true
    → contains c (trim_left n text).from ≡ true
unfolding trim_left
contains-trim c zero text h = h
contains-trim c (suc n) [] h = cc
contains-trim c (suc n) (x ∷ text) h =
    ground (arith, contains-trim c n text, contains-drop c n text)

no_number :
    (text : Bytes)
    → contains b'/' text ≡ true
    → all (λ c. is_ascii_digit c || is_space c || (c == b'-') || (c == b'+')) text ≡ false
no_number [] h = cc
no_number (x ∷ text) h = ground (arith, no_number text)

no_nul-drop : (n : ℕ) (text : Bytes) → contains 0 text ≡ false → contains 0 (drop n text) ≡ false
no_nul-drop zero text h = h
no_nul-drop (suc n) [] h = refl
no_nul-drop (suc n) (x ∷ text) h = ground (arith, no_nul-drop n text)

no_nul-trim :
    (n : ℕ) (text : Bytes) → contains 0 text ≡ false → contains 0 (trim_left n text).from ≡ false
unfolding trim_left
no_nul-trim zero text h = h
no_nul-trim (suc n) [] h = refl
no_nul-trim (suc n) (x ∷ text) h = ground (arith, no_nul-trim n text)

no_nul-trim_lws :
    (text : Bytes) → contains 0 text ≡ false → contains 0 (trim_lws (whole text)).from ≡ false
unfolding trim_lws
no_nul-trim_lws text plain = no_nul-trim (length text) text plain

module _ (ascii : AsciiCase) (numbers : NumberReader) where
  slash_is_no_number :
      (text : Bytes)
      → contains b'/' text ≡ true
      → contains 0 text ≡ false
      → numbers.simple_atoi (c_str text) ≡ none
  slash_is_no_number text slash plain = elim (Option-cases (numbers.simple_atoi (c_str text))) [
    | inl refused ↦ refused
    | inr (v, read) ↦
        let bytes =
          numbers.number_bytes text v
            (ap numbers.simple_atoi (sym (c_str_lem text plain)) ∙ read) in
        absurd (ground (arith, bytes, no_number text slash))
  ]

  positions_of-none :
      (first last length : StringPiece)
      → read_on ascii numbers first ≡ none
      → positions_of ascii numbers first last length ≡ none
  unfolding positions_of
  positions_of-none first last length h = rw h refl

  behind_slash-none :
      (first rest : StringPiece) (slash : Option ℕ)
      → read_on ascii numbers first ≡ none
      → behind_slash ascii numbers first rest slash ≡ none
  behind_slash-none first rest none h = refl
  behind_slash-none first rest (some slash) h = positions_of-none first _ _ h

  first_unread :
      (rest : StringPiece) (minus slash : ℕ)
      → contains 0 rest.from ≡ false
      → find_char b'/' (rest.size - (minus + 1)) (drop (minus + 1) rest.from) ≡ some slash
      → read_on ascii numbers (trim_lws (record rest { size = minus })) ≡ none
  unfolding trim_lws
  first_unread rest minus slash plain found =
      let later =
        find_char-contains b'/' (rest.size - (minus + 1)) slash (drop (minus + 1) rest.from)
          found in
      let from_minus : contains b'/' (drop minus rest.from) ≡ true =
        contains-drop b'/' 1 (drop minus rest.from)
          (ap (contains b'/') (drop-drop 1 minus rest.from) ∙ later) in
      slash_is_no_number (trim_left minus rest.from).from
        (contains-trim b'/' minus rest.from from_minus) (no_nul-trim minus rest.from plain)

  behind_minus-none :
      (rest : StringPiece) (minus : Option ℕ)
      → contains 0 rest.from ≡ false
      → behind_minus ascii numbers rest minus ≡ none
  behind_minus-none rest none plain = refl
  behind_minus-none rest (some minus) plain =
      elim (Option-cases (find_char b'/' (rest.size - (minus + 1)) (drop (minus + 1) rest.from))) [
        | inl no_slash ↦ rw no_slash refl
        | inr (slash, found) ↦ rw found (
            behind_slash-none (trim_lws (record rest { size = minus }))
              (substr_from (minus + 1) rest) (some slash)
              (first_unread rest minus slash plain found))
      ]

  behind_unit-none :
      (spec : StringPiece) (space : Option ℕ)
      → contains 0 spec.from ≡ false
      → behind_unit ascii numbers spec space ≡ none
  behind_unit-none spec none plain = refl
  behind_unit-none spec (some space) plain =
      let rest = substr_from (space + 1) spec in
      let refused =
        behind_minus-none rest (find_char b'-' rest.size rest.from)
          (no_nul-drop (space + 1) spec.from plain) in
      elim (Bool-cases (
        ascii.lower_case_equals_ascii (text_of (trim_lws (record spec { size = space })))
          (codes "bytes"))) [ inl unit ↦ rw unit refused | inr other ↦ rw other refl ]

  -- For every header text without NUL, well formed or not: ParseContentRangeHeaderFor206 returns
  -- false, since the first number is read up to the end of the text, where a slash stands.
  pub parse_content_range_header_for_206_refused :
      (content_range_spec : Bytes)
      → contains 0 content_range_spec ≡ false
      → parse_content_range_header_for_206 ascii numbers content_range_spec ≡ none
  unfolding parse_content_range_header_for_206
  parse_content_range_header_for_206_refused content_range_spec plain =
      let spec = trim_lws (whole content_range_spec) in
      behind_unit-none spec (find_char b' ' spec.size spec.from)
        (no_nul-trim_lws content_range_spec plain)
