-- ===== src/Http/ResponseHeaders/Caching.antt =====
-- Which response headers a cache leaves out, and numbers in headers.
use nginx_quic_stack.Base.{
  Bool, true, false, ◌||◌, not, List, [], ◌∷◌, ◌++◌, Option, none, some, if◌then◌else◌, ◌==◌, ltb,
  is_nil, length, take, drop, ◌>>=◌,
}
use nginx_quic_stack.Base.Bytes.{Bytes, codes, same}
use nginx_quic_stack.Base.Int.{ℤ, pos, negsuc, leb_ℤ}
use nginx_quic_stack.Http.Ascii.{AsciiCase}
use nginx_quic_stack.Http.ContentRange.{
  ContentRange, NumberReader, parse_content_range_header_for_206,
}
use nginx_quic_stack.Http.Pieces.{text_of, trim_lws, whole}
use nginx_quic_stack.Http.Util.{last_of, drop_last}
use nginx_quic_stack.Http.ResponseHeaders.{HttpResponseHeaders}
use nginx_quic_stack.Http.ResponseHeaders.Edit.{contains_name}
use nginx_quic_stack.Http.ResponseHeaders.Lookup.{enumerate_header, all_values}

abbrev pub k_hop_by_hop_response_headers : List Bytes
k_hop_by_hop_response_headers =
    codes "connection"
    ∷ codes "proxy-connection"
    ∷ codes "keep-alive"
    ∷ codes "trailer"
    ∷ codes "transfer-encoding"
    ∷ codes "upgrade"
    ∷ []

abbrev pub k_challenge_response_headers : List Bytes
k_challenge_response_headers = codes "www-authenticate" ∷ codes "proxy-authenticate" ∷ []

abbrev pub k_cookie_response_headers : List Bytes
k_cookie_response_headers = codes "set-cookie" ∷ codes "set-cookie2" ∷ codes "clear-site-data" ∷ []

abbrev pub k_security_state_headers : List Bytes
k_security_state_headers = codes "strict-transport-security" ∷ []

-- `HeaderSet::insert`, of one name and of all.
abbrev insert_name : Bytes → List Bytes → List Bytes
insert_name name names = if contains_name name names then names else name ∷ names

abbrev insert_names : List Bytes → List Bytes → List Bytes
insert_names [] names = names
insert_names (n ∷ more) names = insert_names more (insert_name n names)

unfoldable pub add_hop_by_hop_headers : List Bytes → List Bytes
add_hop_by_hop_headers result = insert_names k_hop_by_hop_response_headers result

unfoldable pub add_cookie_headers : List Bytes → List Bytes
add_cookie_headers result = insert_names k_cookie_response_headers result

unfoldable pub add_challenge_headers : List Bytes → List Bytes
add_challenge_headers result = insert_names k_challenge_response_headers result

unfoldable pub add_hop_content_range_headers : List Bytes → List Bytes
add_hop_content_range_headers result = insert_name (codes "Content-Range") result

unfoldable pub add_security_state_headers : List Bytes → List Bytes
add_security_state_headers result = insert_names k_security_state_headers result

-- The items between commas.
abbrev items_from : Bytes → Bytes → List Bytes
items_from item [] = item ∷ []
items_from item (c ∷ text) =
    let next = items_from [] text in
    let on = items_from (item ++ c ∷ []) text in if c == b',' then item ∷ next else on

module _ (ascii : AsciiCase) where
  abbrev insert_items : List Bytes → List Bytes → List Bytes
  insert_items [] result = result
  insert_items (item ∷ items) result =
      let trimmed = text_of (trim_lws (whole item)) in
      insert_items items
        (if is_nil trimmed then result else insert_name (ascii.to_lower_ascii trimmed) result)

  abbrev ends_quoted : Bytes → Bool
  ends_quoted [] = false
  ends_quoted (c ∷ text) = last_of c text == b'"'

  -- One cache-control value: `no-cache="names"`.
  insert_quoted : Bytes → List Bytes → List Bytes
  unfolding trim_lws same
  insert_quoted value result =
      if not (ltb 10 (length value)) || not (same (take 10 value) (codes "no-cache=\""))
      then result
      else if not (ends_quoted value)
      then result
      else insert_items (items_from [] (drop 10 (drop_last value))) result

  abbrev insert_values : List Bytes → List Bytes → List Bytes
  insert_values [] result = result
  insert_values (value ∷ values) result = insert_values values (insert_quoted value result)

  unfoldable pub add_non_cacheable_headers : HttpResponseHeaders → List Bytes → List Bytes
  unfolding insert_quoted all_values
  add_non_cacheable_headers h result =
      insert_values (all_values ascii (codes "cache-control") h) result

  abbrev any_name : Bytes → List Bytes → Bool
  any_name name [] = false
  any_name name (n ∷ names) = ascii.equals_case_insensitive_ascii n name || any_name name names

  unfoldable pub is_cookie_response_header : Bytes → Bool
  is_cookie_response_header name = any_name name k_cookie_response_headers

  -- `EnumerateHeader` from a new iterator.
  unfoldable pub first_value : Bytes → HttpResponseHeaders → Option Bytes
  unfolding enumerate_header
  first_value name h = enumerate_header ascii name true h.parsed >>= λ (value, rest). some value

  module _ (numbers : NumberReader) where
    abbrev non_negative_or : Option ℤ → ℤ
    non_negative_or none = negsuc 0
    non_negative_or (some n) = if leb_ℤ (pos 0) n then n else negsuc 0

    abbrev length_in : Option Bytes → ℤ
    length_in none = negsuc 0
    length_in (some []) = negsuc 0
    length_in (some (c ∷ text)) =
        if c == b'+' then negsuc 0 else non_negative_or (numbers.simple_atoi (c ∷ text))

    unfoldable pub get_int64_header_value : Bytes → HttpResponseHeaders → ℤ
    unfolding first_value
    get_int64_header_value header h = length_in (first_value header h)

    unfoldable pub get_content_length : HttpResponseHeaders → ℤ
    unfolding get_int64_header_value
    get_content_length h = get_int64_header_value (codes "content-length") h

    unfoldable pub get_content_range_for_206 : HttpResponseHeaders → Option ContentRange
    unfolding first_value parse_content_range_header_for_206
    get_content_range_for_206 h = first_value (codes "Content-Range") h >>= λ spec.
        parse_content_range_header_for_206 ascii numbers spec
