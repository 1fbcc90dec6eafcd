-- ===== src/Net/Escape.antt =====
-- src/net/base/escape.cc: percent escapes by maps of characters, and escapes for HTML.
mod Decode
mod Html
mod Tests
use nginx_quic_stack.Base.{
  ℕ, ◌/◌, ◌%◌, ◌^◌, Bool, true, false, ◌&&◌, List, [], ◌∷◌, ◌++◌, if◌then◌else◌, ◌==◌, zero, suc,
  Option, none, some,
}
use nginx_quic_stack.Base.Bytes.{Bytes, codes}
use nginx_quic_stack.Http.Pieces.{char_at, contains}

-- Eight words of 32 bits.
pub record Charmap : Type 0 where
  pub map : List ℕ

unfoldable pub contains_char : Charmap → ℕ → Bool
contains_char charmap c = char_at (c / 32) charmap.map / 2 ^ (c % 32) % 2 == 1

unfoldable pub int_to_hex : ℕ → ℕ
int_to_hex i = char_at i (codes "0123456789ABCDEF")

abbrev pub k_unreserved_charmap : Charmap
k_unreserved_charmap = record {
  map =
      4294967295 ∷ 4227899391 ∷ 2013265921 ∷ 3087007745 ∷ 4294967295 ∷ 4294967295 ∷ 4294967295
      ∷ 4294967295 ∷ [];
}

abbrev pub k_non_ascii_charmap_and_percent : Charmap
k_non_ascii_charmap_and_percent = record {
  map = 0 ∷ 32 ∷ 0 ∷ 0 ∷ 4294967295 ∷ 4294967295 ∷ 4294967295 ∷ 4294967295 ∷ [];
}

abbrev pub k_non_ascii_charmap : Charmap
k_non_ascii_charmap = record {
  map = 0 ∷ 0 ∷ 0 ∷ 0 ∷ 4294967295 ∷ 4294967295 ∷ 4294967295 ∷ 4294967295 ∷ [];
}

abbrev pub k_query_charmap : Charmap
k_query_charmap = record {
  map =
      4294967295 ∷ 4227897469 ∷ 2013265921 ∷ 3087007745 ∷ 4294967295 ∷ 4294967295 ∷ 4294967295
      ∷ 4294967295 ∷ [];
}

abbrev pub k_path_charmap : Charmap
k_path_charmap = record {
  map =
      4294967295 ∷ 3556769837 ∷ 2013265920 ∷ 3087007745 ∷ 4294967295 ∷ 4294967295 ∷ 4294967295
      ∷ 4294967295 ∷ [];
}

abbrev pub k_url_escape : Charmap
k_url_escape = record {
  map =
      4294967295 ∷ 4160751869 ∷ 2013265921 ∷ 3087007745 ∷ 4294967295 ∷ 4294967295 ∷ 4294967295
      ∷ 4294967295 ∷ [];
}

abbrev pub k_external_handler_charmap : Charmap
k_external_handler_charmap = record {
  map =
      4294967295 ∷ 1342177317 ∷ 1342177280 ∷ 3087007745 ∷ 4294967295 ∷ 4294967295 ∷ 4294967295
      ∷ 4294967295 ∷ [];
}

-- `IsHexDigit` belongs to gurl_base.
module _ (is_hex_digit : ℕ → Bool) where
  abbrev two_digits : Bytes → Bool
  two_digits [] = false
  two_digits (c ∷ []) = false
  two_digits (c ∷ d ∷ text) = is_hex_digit c && is_hex_digit d

  unfoldable pub escape : Charmap → Bool → Bool → Bytes → Bytes
  unfolding contains_char int_to_hex
  escape charmap use_plus keep_escaped [] = []
  escape charmap use_plus keep_escaped (c ∷ text) =
      let rest = escape charmap use_plus keep_escaped text in
      if use_plus && (b' ' == c)
      then b'+' ∷ rest
      else if keep_escaped && (b'%' == c) && two_digits text
      then b'%' ∷ rest
      else if contains_char charmap c
      then b'%' ∷ int_to_hex (c / 16) ∷ int_to_hex (c % 16) ∷ rest
      else c ∷ rest

  unfoldable pub escape_all_except_unreserved : Bytes → Bytes
  unfolding escape
  escape_all_except_unreserved text = escape k_unreserved_charmap false false text

  unfoldable pub escape_non_ascii_and_percent : Bytes → Bytes
  unfolding escape
  escape_non_ascii_and_percent input = escape k_non_ascii_charmap_and_percent false false input

  unfoldable pub escape_non_ascii : Bytes → Bytes
  unfolding escape
  escape_non_ascii input = escape k_non_ascii_charmap false false input

  unfoldable pub escape_query_param_value : Bytes → Bool → Bytes
  unfolding escape
  escape_query_param_value text use_plus = escape k_query_charmap use_plus false text

  unfoldable pub escape_path : Bytes → Bytes
  unfolding escape
  escape_path path = escape k_path_charmap false false path

  unfoldable pub escape_url_encoded_data : Bytes → Bool → Bytes
  unfolding escape
  escape_url_encoded_data path use_plus = escape k_url_escape use_plus false path

  unfoldable pub escape_external_handler_value : Bytes → Bytes
  unfolding escape
  escape_external_handler_value text = escape k_external_handler_charmap false true text

unfoldable pub append_escaped_char_for_html : ℕ → Bytes
append_escaped_char_for_html c =
    if c == b'<'
    then codes "&lt;"
    else if c == b'>'
    then codes "&gt;"
    else if c == b'&'
    then codes "&amp;"
    else if c == b'"'
    then codes "&quot;"
    else if c == b'\''
    then codes "&#39;"
    else c ∷ []

unfoldable pub escape_for_html : Bytes → Bytes
unfolding append_escaped_char_for_html
escape_for_html [] = []
escape_for_html (c ∷ input) = append_escaped_char_for_html c ++ escape_for_html input

abbrev is_prefix : Bytes → Bytes → Bool
is_prefix [] text = true
is_prefix (x ∷ prefix) [] = false
is_prefix (x ∷ prefix) (c ∷ text) = (c == x) && is_prefix prefix text

-- `kEscapeToChars` at a place: the character, and the length of its code less one.
abbrev escaped_at : Bytes → Option (ℕ × ℕ)
escaped_at text =
    if is_prefix (codes "&lt;") text
    then some (b'<', 3)
    else if is_prefix (codes "&gt;") text
    then some (b'>', 3)
    else if is_prefix (codes "&amp;") text
    then some (b'&', 4)
    else if is_prefix (codes "&quot;") text
    then some (b'"', 5)
    else if is_prefix (codes "&#39;") text
    then some (b'\'', 4)
    else none

-- The loop; `skip` bytes belong to the code that has been replaced.
unfoldable pub unescape_from : ℕ → Bytes → Bytes
unescape_from skip [] = []
unescape_from (suc skip) (c ∷ text) = unescape_from skip text
unescape_from zero (c ∷ text) =
    if c == b'&'
    then elim (escaped_at (c ∷ text)) [
      | none ↦ c ∷ unescape_from zero text
      | some (replacement, more) ↦ replacement ∷ unescape_from more text
    ]
    else c ∷ unescape_from zero text

unfoldable pub unescape_for_html : Bytes → Bytes
unfolding unescape_from
unescape_for_html input = if contains b'&' input then unescape_from 0 input else input
