-- ===== src/Http/ResponseHeaders/Edit.antt =====
-- Changing response headers: each operation builds a new text of the head and parses it again.
use nginx_quic_stack.Base.{
  Bool, false, ◌||◌, ◌&&◌, not, List, [], ◌∷◌, ◌++◌, Option, none, some, if◌then◌else◌,
}
use nginx_quic_stack.Base.Bytes.{Bytes, codes, same}
use nginx_quic_stack.Http.Ascii.{AsciiCase}
use nginx_quic_stack.Http.Pieces.{c_str}
use nginx_quic_stack.Http.Tokens.{StringTokenizer, IntReader}
use nginx_quic_stack.Http.Util.{drop_last}
use nginx_quic_stack.Http.ResponseHeaders.{HttpResponseHeaders, has_embedded_nulls, parse}
use nginx_quic_stack.Http.ResponseHeaders.Lookup.{HeaderEntry, entries, get_status_line}

-- `HeaderSet`: a set of names in lower case.
abbrev pub contains_name : Bytes → List Bytes → Bool
contains_name name [] = false
contains_name name (n ∷ names) = same n name || contains_name name names

abbrev pub k_non_updated_headers : List Bytes
k_non_updated_headers =
    codes "connection"
    ∷ codes "proxy-connection"
    ∷ codes "keep-alive"
    ∷ codes "www-authenticate"
    ∷ codes "proxy-authenticate"
    ∷ codes "proxy-authorization"
    ∷ codes "te"
    ∷ codes "trailer"
    ∷ codes "transfer-encoding"
    ∷ codes "upgrade"
    ∷ codes "content-location"
    ∷ codes "content-md5"
    ∷ codes "etag"
    ∷ codes "content-encoding"
    ∷ codes "content-range"
    ∷ codes "content-type"
    ∷ codes "content-length"
    ∷ codes "x-frame-options"
    ∷ codes "x-xss-protection"
    ∷ []

abbrev pub k_non_updated_header_prefixes : List Bytes
k_non_updated_header_prefixes = codes "x-content-" ∷ codes "x-webkit-" ∷ []

abbrev any_of : (Bytes → Bool) → List Bytes → Bool
any_of p [] = false
any_of p (x ∷ xs) = p x || any_of p xs

-- The lines that a test of their names lets through, with NUL behind each.
abbrev pub lines_where : (Bytes → Bool) → List HeaderEntry → Bytes
lines_where keep [] = []
lines_where keep (e ∷ es) =
    let rest = lines_where keep es in if keep e.name then e.line ++ 0 ∷ rest else rest

-- The lines printed again, less those that are equal to one.
abbrev pub lines_other : (Bytes → Bytes → Bool) → List HeaderEntry → Bytes
lines_other gone [] = []
lines_other gone (e ∷ es) =
    let rest = lines_other gone es in
    if gone e.name e.value then rest else e.name ++ (codes ": " ++ (e.value ++ 0 ∷ rest))

module _ (ascii : AsciiCase) where
  open ascii use {to_lower_ascii, lower_case_equals_ascii, starts_with}

  unfoldable pub should_update_header : Bytes → Bool
  should_update_header name =
      not (any_of (lower_case_equals_ascii name) k_non_updated_headers)
      && not (any_of (starts_with name) k_non_updated_header_prefixes)

  -- The names of the new headers that are taken over.
  abbrev pub updated_names : List HeaderEntry → List Bytes
  updated_names [] = []
  updated_names (e ∷ es) =
      let rest = updated_names es in
      if should_update_header e.name then to_lower_ascii e.name ∷ rest else rest

  abbrev pub lowered : List Bytes → List Bytes
  lowered [] = []
  lowered (n ∷ names) = to_lower_ascii n ∷ lowered names

  module _ (tokenizer : StringTokenizer) (numbers : IntReader) where
    unfoldable pub merge_with_headers :
        Bytes → List Bytes → HttpResponseHeaders → HttpResponseHeaders
    unfolding parse entries
    merge_with_headers raw_headers headers_to_remove h = parse ascii tokenizer numbers (
        raw_headers
        ++ (lines_where (λ name. not (contains_name (to_lower_ascii name) headers_to_remove))
              (entries h.parsed)
            ++ 0 ∷ []))

    unfoldable pub update : HttpResponseHeaders → HttpResponseHeaders → HttpResponseHeaders
    unfolding merge_with_headers should_update_header
    update new_headers h =
        let taken = entries new_headers.parsed in
        merge_with_headers (c_str h.raw_headers ++ 0 ∷ lines_where should_update_header taken)
          (updated_names taken) h

    unfoldable pub remove_header : Bytes → HttpResponseHeaders → HttpResponseHeaders
    unfolding merge_with_headers
    remove_header name h =
        merge_with_headers (c_str h.raw_headers ++ 0 ∷ []) (to_lower_ascii name ∷ []) h

    unfoldable pub remove_headers : List Bytes → HttpResponseHeaders → HttpResponseHeaders
    unfolding merge_with_headers
    remove_headers header_names h =
        merge_with_headers (c_str h.raw_headers ++ 0 ∷ []) (lowered header_names) h

    unfoldable pub remove_header_line : Bytes → Bytes → HttpResponseHeaders → HttpResponseHeaders
    unfolding parse entries get_status_line
    remove_header_line name value h = parse ascii tokenizer numbers (
        get_status_line h
        ++ 0
          ∷ (lines_other (λ n v. same (to_lower_ascii name) (to_lower_ascii n) && same value v)
                (entries h.parsed)
              ++ 0 ∷ []))

    unfoldable pub add_header : Bytes → Bytes → HttpResponseHeaders → HttpResponseHeaders
    unfolding parse
    add_header name value h =
        parse ascii tokenizer numbers
          (drop_last h.raw_headers ++ (name ++ (codes ": " ++ (value ++ 0 ∷ 0 ∷ []))))

    unfoldable pub set_header : Bytes → Bytes → HttpResponseHeaders → HttpResponseHeaders
    unfolding remove_header add_header
    set_header name value h = add_header name value (remove_header name h)

    unfoldable pub add_cookie : Bytes → HttpResponseHeaders → HttpResponseHeaders
    unfolding add_header
    add_cookie cookie_string h = add_header (codes "Set-Cookie") cookie_string h

    -- The check for NULs stops the program.
    unfoldable pub replace_status_line : Bytes → HttpResponseHeaders → Option HttpResponseHeaders
    unfolding merge_with_headers has_embedded_nulls
    replace_status_line new_status h =
        if has_embedded_nulls new_status
        then none
        else some (merge_with_headers (new_status ++ 0 ∷ []) [] h)
