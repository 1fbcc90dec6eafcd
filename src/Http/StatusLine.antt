-- ===== src/Http/StatusLine.antt =====
-- The status line of a response: `ParseVersion` and `ParseStatusLine` of
-- src/http_parser/http_response_headers.cc. A line is the text before a NUL.
use nginx_quic_stack.Base.{
  ℕ, ◌-◌, suc, Bool, ◌&&◌, not, [], ◌∷◌, ◌++◌, Option, none, some, if◌then◌else◌, ◌==◌, is_nil,
  length, drop,
}
use nginx_quic_stack.Base.Bytes.{Bytes, codes}
use nginx_quic_stack.Base.Int.{ℤ, pos}
use nginx_quic_stack.Http.Ascii.{AsciiCase}
use nginx_quic_stack.Http.ParseInt.{is_ascii_digit}
use nginx_quic_stack.Http.Pieces.{char_at, find_char}
use nginx_quic_stack.Http.Tokens.{IntReader}
use nginx_quic_stack.Http.Version.{HttpVersion, version, eq_version, le_version}

-- The status line: its text, normalised, with the code and the version it says.
pub record StatusLine : Type 0 where
  pub text : Bytes
  pub code : ℤ
  pub of_version : HttpVersion

abbrev pub from_space : Bytes → Bytes
from_space [] = []
from_space (c ∷ text) = let rest = from_space text in if c == b' ' then c ∷ text else rest

abbrev pub skip_spaces : Bytes → Bytes
skip_spaces [] = []
skip_spaces (c ∷ text) = let rest = skip_spaces text in if c == b' ' then rest else c ∷ text

abbrev pub digits_of : Bytes → Bytes
digits_of [] = []
digits_of (c ∷ text) = let rest = digits_of text in if is_ascii_digit c then c ∷ rest else []

abbrev pub behind_digits : Bytes → Bytes
behind_digits [] = []
behind_digits (c ∷ text) =
    let rest = behind_digits text in if is_ascii_digit c then rest else c ∷ text

abbrev pub strip_spaces : Bytes → Bytes
strip_spaces [] = []
strip_spaces (c ∷ text) =
    let rest = strip_spaces text in if is_nil rest && (c == b' ') then [] else c ∷ rest

-- The digits around a dot at place `dot`; behind the end of the line stands a NUL.
abbrev version_at : Option ℕ → Bytes → HttpVersion
version_at none p = version 0 0
version_at (some dot) p =
    let major = char_at 1 p in
    let minor = char_at (suc dot) p in
    if is_ascii_digit major && is_ascii_digit minor
    then version (major - b'0') (minor - b'0')
    else version 0 0

version_from : Bytes → HttpVersion
version_from [] = version 0 0
version_from (c ∷ p) =
    if c == b'/' then version_at (find_char b'.' (length (c ∷ p)) (c ∷ p)) (c ∷ p) else version 0 0

-- One of 0.9, 1.0, 1.1 and 2.0.
unfoldable pub clamp_version : HttpVersion → Bool → HttpVersion × Bytes
unfolding eq_version le_version
clamp_version parsed has_headers =
    if eq_version parsed (version 0 9) && not has_headers
    then (version 0 9, codes "HTTP/0.9")
    else if eq_version parsed (version 2 0)
    then (version 2 0, codes "HTTP/2.0")
    else if le_version (version 1 1) parsed
    then (version 1 1, codes "HTTP/1.1")
    else (version 1 0, codes "HTTP/1.0")

pub or_left : Option ℤ → ℤ → ℤ
or_left none left = left
or_left (some n) left = n

-- `code` is the line from the status code on, `digits` are its digits.
unfoldable pub status_text : Bytes → Bytes → Bytes → Bytes
status_text front code digits =
    let reason = strip_spaces (skip_spaces (behind_digits code)) in
    front ++ (b' ' ∷ (digits ++ (if is_nil reason then [] else b' ' ∷ reason)))

-- The number is read from the status code up to the end of the line.
unfoldable pub status_with : IntReader → HttpVersion × Bytes → Bytes → StatusLine
unfolding or_left status_text
status_with numbers (v, front) code =
    let digits = digits_of code in
    if is_nil digits
    then record { text = front ++ codes " 200"; code = pos 200; of_version = v }
    else record {
      text = status_text front code digits;
      code = or_left (numbers.string_to_int code) (numbers.left_over code);
      of_version = v;
    }

module _ (ascii : AsciiCase) where
  unfoldable pub parse_version : Bytes → HttpVersion
  unfolding version_from
  parse_version line =
      if ascii.starts_with line (codes "http") then version_from (drop 4 line) else version 0 0

  unfoldable pub parse_status_line : IntReader → Bytes → Bool → StatusLine
  unfolding parse_version clamp_version status_with
  parse_status_line numbers line has_headers =
      let (v, front) = clamp_version (parse_version line) has_headers in
      if is_nil (from_space line)
      then record { text = front ++ codes " 200 OK"; code = pos 200; of_version = v }
      else status_with numbers (v, front) (skip_spaces (from_space line))
