-- ===== src/Http/Util.antt =====
-- Tests and transformations of text in `HttpUtil` of src/http_parser/http_util.cc. A `char` is a
-- byte; the tests of the source treat the bytes from 128 on alike, signed or not.
pub mod Quoting
pub mod Blank
pub mod Assemble
pub mod StatusCodes
mod Tests
use nginx_quic_stack.Base.{
  ℕ, ◌+◌, zero, suc, Bool, true, false, ◌&&◌, ◌||◌, not, List, [], ◌∷◌, ◌++◌, Option, none, some,
  if◌then◌else◌, ◌==◌, leb, all, is_nil, length, drop, take, min, ◌-◌,
}
use nginx_quic_stack.Base.Bytes.{Bytes, codes, same}
use nginx_quic_stack.Http.Ascii.{AsciiCase}
use nginx_quic_stack.Http.Pieces.{contains, is_lws}

unfoldable pub is_token_char : ℕ → Bool
is_token_char c = not (leb 127 c || leb c 32 || contains c (codes "()<>@,;:\\\"/[]?={}"))

unfoldable pub is_token : Bytes → Bool
unfolding is_token_char
is_token text = not (is_nil text) && all is_token_char text

unfoldable pub is_parm_name : Bytes → Bool
unfolding is_token_char
is_parm_name text =
    not (is_nil text) && all (λ c. is_token_char c && not (contains c (codes "*'%"))) text

unfoldable pub is_valid_header_name : Bytes → Bool
unfolding is_token
is_valid_header_name = is_token

unfoldable pub is_valid_header_value : Bytes → Bool
is_valid_header_value = all (λ c. not (c == 0 || c == b'\r' || c == b'\n'))

unfoldable pub is_method_safe : Bytes → Bool
is_method_safe method =
    same method (codes "GET")
    || same method (codes "HEAD")
    || same method (codes "OPTIONS")
    || same method (codes "TRACE")

unfoldable pub is_method_idempotent : Bytes → Bool
unfolding is_method_safe
is_method_idempotent method =
    is_method_safe method || same method (codes "PUT") || same method (codes "DELETE")

abbrev any_lower : (Bytes → Bool) → List Bytes → Bool
any_lower p [] = false
any_lower p (field ∷ fields) = p field || any_lower p fields

-- `kForbiddenHeaderFields` and `kNonCoalescingHeaders`.
abbrev pub k_forbidden_header_fields : List Bytes
k_forbidden_header_fields =
    codes "accept-charset"
    ∷ codes "accept-encoding"
    ∷ codes "access-control-request-headers"
    ∷ codes "access-control-request-method"
    ∷ codes "connection"
    ∷ codes "content-length"
    ∷ codes "cookie"
    ∷ codes "cookie2"
    ∷ codes "date"
    ∷ codes "dnt"
    ∷ codes "expect"
    ∷ codes "host"
    ∷ codes "keep-alive"
    ∷ codes "origin"
    ∷ codes "referer"
    ∷ codes "te"
    ∷ codes "trailer"
    ∷ codes "transfer-encoding"
    ∷ codes "upgrade"
    ∷ codes "user-agent"
    ∷ codes "via"
    ∷ []

abbrev pub k_non_coalescing_headers : List Bytes
k_non_coalescing_headers =
    codes "date"
    ∷ codes "expires"
    ∷ codes "last-modified"
    ∷ codes "location"
    ∷ codes "retry-after"
    ∷ codes "set-cookie"
    ∷ codes "www-authenticate"
    ∷ codes "proxy-authenticate"
    ∷ codes "strict-transport-security"
    ∷ []

module _ (ascii : AsciiCase) where
  open ascii use {lower_case_equals_ascii, starts_with}

  unfoldable pub is_safe_header : Bytes → Bool
  is_safe_header name =
      if starts_with name (codes "proxy-") || starts_with name (codes "sec-")
      then false
      else not (any_lower (lower_case_equals_ascii name) k_forbidden_header_fields)

  unfoldable pub is_non_coalescing_header : Bytes → Bool
  is_non_coalescing_header name = any_lower (lower_case_equals_ascii name) k_non_coalescing_headers

  -- The first of the places 0 to `slop` where the text says "http".
  unfoldable pub http_from : ℕ → Bytes → Option ℕ
  http_from zero text =
      if lower_case_equals_ascii (take 4 text) (codes "http") then some 0 else none
  http_from (suc slop) [] = none
  http_from (suc slop) (c ∷ text) =
      let later = http_from slop text in
      if lower_case_equals_ascii (take 4 (c ∷ text)) (codes "http")
      then some 0
      else elim later [ none ↦ none | some i ↦ some (suc i) ]

  unfoldable pub locate_start_of_status_line : Bytes → Option ℕ
  unfolding http_from
  locate_start_of_status_line buf =
      if leb 4 (length buf) then http_from (min (length buf - 4) 4) buf else none

abbrev pub is_quote : ℕ → Bool
is_quote c = c == b'"'

-- `str.back()`, and `str.remove_suffix(1)`.
abbrev pub last_of : ℕ → Bytes → ℕ
last_of c [] = c
last_of c (x ∷ text) = last_of x text

abbrev pub drop_last : Bytes → Bytes
drop_last [] = []
drop_last (c ∷ []) = []
drop_last (c ∷ x ∷ text) = c ∷ drop_last (x ∷ text)

-- The loop of `UnquoteImpl`.
unescape : Bool → Bool → Bytes → Bytes → Option Bytes
unescape strict prev_escape unescaped [] = if strict && prev_escape then none else some unescaped
unescape strict prev_escape unescaped (c ∷ text) =
    let escaping = unescape strict true unescaped text in
    let pushed = unescape strict false (unescaped ++ c ∷ []) text in
    if (c == b'\\') && not prev_escape
    then escaping
    else if strict && not prev_escape && is_quote c
    then none
    else pushed

unfoldable pub unquote_impl : Bytes → Bool → Option Bytes
unfolding unescape
unquote_impl [] strict = none
unquote_impl (c ∷ text) strict =
    if not (is_quote c)
    then none
    else if is_nil text || not (last_of c text == c)
    then none
    else unescape strict false [] (drop_last text)

abbrev pub or_text : Bytes → Option Bytes → Bytes
or_text text none = text
or_text text (some out) = out

unfoldable pub unquote : Bytes → Bytes
unfolding unquote_impl
unquote text = or_text text (unquote_impl text false)

unfoldable pub strict_unquote : Bytes → Option Bytes
unfolding unquote_impl
strict_unquote text = unquote_impl text true

unfoldable pub escape_quotes : Bytes → Bytes
escape_quotes [] = []
escape_quotes (c ∷ text) =
    let rest = escape_quotes text in
    if is_quote c || (c == b'\\') then b'\\' ∷ c ∷ rest else c ∷ rest

unfoldable pub quote : Bytes → Bytes
unfolding escape_quotes
quote text = b'"' ∷ (escape_quotes text ++ b'"' ∷ [])

-- `LocateEndOfHeadersHelper`: its loop from place `i`.
end_of_headers : ℕ → ℕ → Bool → Bytes → Option ℕ
end_of_headers i last_c was_lf [] = none
end_of_headers i last_c was_lf (c ∷ buf) =
    let next =
      end_of_headers (i + 1) c
        (if c == b'\n'
          then true
          else if not (c == b'\r') || not (last_c == b'\n')
          then false
          else was_lf)
        buf in
    if (c == b'\n') && was_lf then some (i + 1) else next

unfoldable pub locate_end_of_additional_headers : Bytes → ℕ → Option ℕ
unfolding end_of_headers
locate_end_of_additional_headers buf i = end_of_headers i b'\n' true (drop i buf)

unfoldable pub locate_end_of_headers : Bytes → ℕ → Option ℕ
unfolding end_of_headers
locate_end_of_headers buf i = end_of_headers i 0 false (drop i buf)
