-- ===== src/Http/ResponseHeaders.antt =====
-- `HttpResponseHeaders` of src/http_parser/http_response_headers.cc: the head of a response as one
-- text, with NUL behind each line, and its headers as places in that text.
pub mod Lookup
pub mod Edit
pub mod Ends
pub mod Printed
pub mod Spans
pub mod Plain
pub mod Represents
pub mod Edited
pub mod Edits
pub mod Values
pub mod Lines
pub mod Created
pub mod Caching
pub mod Redirect
pub mod Mime
pub mod Freshness
mod Tests
use nginx_quic_stack.Base.{
  ℕ, ◌+◌, ◌-◌, zero, suc, Bool, true, false, ◌&&◌, ◌||◌, not, List, [], ◌∷◌, ◌++◌, Option, none,
  some, if◌then◌else◌, ◌==◌, ltb, is_nil, length, take, drop,
}
use nginx_quic_stack.Base.Bytes.{Bytes, codes}
use nginx_quic_stack.Base.Int.{ℤ, pos}
use nginx_quic_stack.Http.Ascii.{AsciiCase}
use nginx_quic_stack.Http.ParseInt.{is_ascii_digit}
use nginx_quic_stack.Http.Pieces.{
  StringPiece, contains, is_lws, char_at, c_str, text_of, trim_lws, find_char,
}
use nginx_quic_stack.Http.Tokens.{StringTokenizer, IntReader}
use nginx_quic_stack.Http.Util.{is_token, is_non_coalescing_header}
use nginx_quic_stack.Http.Util.Assemble.{assemble_raw_headers}
use nginx_quic_stack.Http.StatusLine.{StatusLine, parse_status_line}
use nginx_quic_stack.Http.Version.{HttpVersion}

-- A continuation, which has an empty name, is a further value of the header before it.
pub record ParsedHeader : Type 0 where
  pub name : StringPiece
  pub value : StringPiece

unfoldable pub is_continuation : ParsedHeader → Bool
is_continuation h = h.name.size == 0

pub record HttpResponseHeaders : Type 0 where
  pub parsed : List ParsedHeader
  pub raw_headers : Bytes
  pub response_code : ℤ
  pub http_version : HttpVersion

unfoldable pub has_embedded_nulls : Bytes → Bool
has_embedded_nulls text = contains 0 text

-- What stands behind the first NUL, if there is one.
abbrev pub behind_nul : Bytes → Option Bytes
behind_nul [] = none
behind_nul (c ∷ text) = let rest = behind_nul text in if c == 0 then some text else rest

abbrev pub has_more : Option Bytes → Bool
has_more none = false
has_more (some []) = false
has_more (some (c ∷ text)) = not (c == 0)

unfoldable pub ends_with_nuls : Bytes → Bool
ends_with_nuls [] = false
ends_with_nuls (x ∷ []) = false
ends_with_nuls (x ∷ y ∷ []) = (x == 0) && (y == 0)
ends_with_nuls (x ∷ y ∷ z ∷ text) = ends_with_nuls (y ∷ z ∷ text)

-- The loop that ends the headers with two NULs: it pushes at most two.
unfoldable pub pad_nuls : ℕ → Bytes → Bytes
unfolding ends_with_nuls
pad_nuls zero raw = raw
pad_nuls (suc fuel) raw =
    let padded = pad_nuls fuel (raw ++ 0 ∷ []) in if ends_with_nuls raw then raw else padded

-- `HeadersIterator::GetNext` at one line, whose first colon is at place `colon`.
unfoldable pub header_at : ℕ → StringPiece → Option ParsedHeader
header_at zero line = none
header_at (suc k) line =
    let name = trim_lws (record { from = line.from; size = suc k }) in
    if is_lws (char_at 0 line.from)
    then none
    else if is_token (text_of name)
    then some (record {
      name = name;
      value =
          trim_lws (record { from = drop (suc k + 1) line.from; size = line.size - (suc k + 1) });
    })
    else none

abbrev pub header_found : Option ℕ → StringPiece → Option ParsedHeader
header_found none line = none
header_found (some colon) line = header_at colon line

unfoldable pub read_line : StringPiece → Option ParsedHeader
unfolding header_at
read_line line = header_found (find_char b':' line.size line.from) line

-- The texts between commas, as places.
abbrev pub places : Bytes → List Bytes → List StringPiece
places from [] = []
places from (t ∷ ts) =
    record { from = from; size = length t } ∷ places (drop (length t + 1) from) ts

-- The first value with the name, the later ones as continuations.
abbrev pub continued : List StringPiece → List ParsedHeader
continued [] = []
continued (p ∷ values) =
    record { name = record { from = []; size = 0 }; value = trim_lws p } ∷ continued values

abbrev pub headed : StringPiece → List StringPiece → List ParsedHeader
headed name [] = []
headed name (p ∷ values) = record { name = name; value = trim_lws p } ∷ continued values

module _ (ascii : AsciiCase) (tokenizer : StringTokenizer) where
  -- The private `AddHeader`: what it puts behind the parsed headers.
  unfoldable pub add_parsed : ParsedHeader → List ParsedHeader
  add_parsed h =
      if (h.value.size == 0) || is_non_coalescing_header ascii (text_of h.name)
      then h ∷ []
      else headed h.name (places h.value.from (tokenizer.comma_tokens (text_of h.value)))

  abbrev pub add_read : Option ParsedHeader → List ParsedHeader → List ParsedHeader
  add_read none headers = headers
  add_read (some h) headers = add_parsed h ++ headers

  unfoldable pub read_headers : List StringPiece → List ParsedHeader
  unfolding read_line add_parsed
  read_headers [] = []
  read_headers (line ∷ lines) = add_read (read_line line) (read_headers lines)

  module _ (numbers : IntReader) where
    abbrev parse_behind : StatusLine → Option Bytes → HttpResponseHeaders
    parse_behind status none = record {
      parsed = [];
      raw_headers = status.text ++ 0 ∷ 0 ∷ [];
      response_code = status.code;
      http_version = status.of_version;
    }
    parse_behind status (some rest) =
        let raw = pad_nuls 2 (status.text ++ 0 ∷ rest) in
        record {
          parsed = read_headers (tokenizer.tokens (0 ∷ []) (drop (length status.text + 1) raw));
          raw_headers = raw;
          response_code = status.code;
          http_version = status.of_version;
        }

    unfoldable pub parse : Bytes → HttpResponseHeaders
    unfolding parse_status_line read_headers pad_nuls
    parse raw_input =
        let rest = behind_nul raw_input in
        parse_behind (parse_status_line ascii numbers (c_str raw_input) (has_more rest)) rest

    unfoldable pub try_to_create : Bytes → Option HttpResponseHeaders
    unfolding has_embedded_nulls parse assemble_raw_headers
    try_to_create headers =
        if has_embedded_nulls headers || ltb 2147483647 (length headers)
        then none
        else some (parse (assemble_raw_headers ascii tokenizer headers))
