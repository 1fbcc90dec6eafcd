-- ===== src/Http/RequestHeaders.antt =====
-- `HttpRequestHeaders` of src/http_parser/http_request_headers.hh and
-- src/http_parser/http_request_headers.cc: a vector of names and values, whose names are compared
-- without case.
pub mod Laws
pub mod FromString
pub mod RoundTrip
mod Tests
use nginx_quic_stack.Base.{
  Bool, true, false, List, [], ◌∷◌, ◌++◌, Option, none, some, if◌then◌else◌, ◌==◌,
}
use nginx_quic_stack.Base.Bytes.{Bytes, codes}
use nginx_quic_stack.Http.Ascii.{AsciiCase}
use nginx_quic_stack.Http.Pieces.{c_str}

pub record HeaderKeyValuePair : Type 0 where
  pub key : Bytes
  pub value : Bytes

abbrev pub HttpRequestHeaders : Type 0
HttpRequestHeaders = List HeaderKeyValuePair

module _ (ascii : AsciiCase) where
  open ascii use {equals_case_insensitive_ascii}

  -- What `FindHeader` points at; `none` is `end()`.
  unfoldable pub find_header : Bytes → HttpRequestHeaders → Option HeaderKeyValuePair
  find_header key [] = none
  find_header key (h ∷ headers) =
      if equals_case_insensitive_ascii key h.key then some h else find_header key headers

  unfoldable pub get_header : Bytes → HttpRequestHeaders → Option Bytes
  get_header key headers = elim (find_header key headers) [ none ↦ none | some h ↦ some h.value ]

  -- `SetHeaderInternal`: a new value in the place of the old one, or a new pair at the end.
  unfoldable pub set_header : Bytes → Bytes → HttpRequestHeaders → HttpRequestHeaders
  set_header key value [] = record { key = key; value = value } ∷ []
  set_header key value (h ∷ headers) =
      if equals_case_insensitive_ascii key h.key
      then record h { value = value } ∷ headers
      else h ∷ set_header key value headers

  unfoldable pub set_header_if_missing : Bytes → Bytes → HttpRequestHeaders → HttpRequestHeaders
  set_header_if_missing key value headers = elim (find_header key headers) [
    | none ↦ headers ++ record { key = key; value = value } ∷ []
    | some h ↦ headers
  ]

  unfoldable pub remove_header : Bytes → HttpRequestHeaders → HttpRequestHeaders
  remove_header key [] = []
  remove_header key (h ∷ headers) =
      if equals_case_insensitive_ascii key h.key then headers else h ∷ remove_header key headers

  unfoldable pub merge_from : HttpRequestHeaders → HttpRequestHeaders → HttpRequestHeaders
  merge_from headers [] = headers
  merge_from headers (o ∷ other) = merge_from (set_header o.key o.value headers) other

-- "%s: %s\r\n" of each pair, and an empty line.
abbrev pub header_line : HeaderKeyValuePair → Bytes
header_line h = c_str h.key ++ (codes ": " ++ (c_str h.value ++ codes "\r\n"))

unfoldable pub lines_of : HttpRequestHeaders → Bytes
lines_of [] = []
lines_of (h ∷ headers) = header_line h ++ lines_of headers

unfoldable pub to_string : HttpRequestHeaders → Bytes
unfolding lines_of
to_string headers = lines_of headers ++ codes "\r\n"
