-- ===== src/Net/Escape/Tests.antt =====
-- Escapes at concrete texts.
use nginx_quic_stack.Base.{ℕ, Bool, true, false, ◌||◌, ◌&&◌, leb, [], ◌∷◌, ◌≡◌, refl}
use nginx_quic_stack.Base.Bytes.{codes}
use nginx_quic_stack.Http.ParseInt.{is_ascii_digit}
use nginx_quic_stack.Net.Escape.{
  k_unreserved_charmap, contains_char, escape, escape_all_except_unreserved, escape_non_ascii,
  escape_for_html, unescape_for_html,
}
use nginx_quic_stack.Net.Escape.Html.{unescape_for_html-escape_for_html}
use nginx_quic_stack.Net.Escape.Decode.{decode, decode-escape}

abbrev hex_digit : ℕ → Bool
hex_digit c = is_ascii_digit c || (leb b'A' c && leb c b'F') || (leb b'a' c && leb c b'f')

unreserved : escape_all_except_unreserved hex_digit (codes "a b/~%") ≡ codes "a%20b%2F~%25"
unfolding escape_all_except_unreserved
unreserved = refl

non_ascii : escape_non_ascii hex_digit (b'a' ∷ 228 ∷ []) ≡ codes "a%E4"
unfolding escape_non_ascii
non_ascii = refl

html : escape_for_html (codes "a<b") ≡ codes "a&lt;b"
unfolding escape_for_html
html = refl

percent_in_map : contains_char k_unreserved_charmap b'%' ≡ true
unfolding contains_char
percent_in_map = refl

decode-escape_example :
    decode (escape hex_digit k_unreserved_charmap false false (37 ∷ 255 ∷ 97 ∷ []))
    ≡ 37 ∷ 255 ∷ 97 ∷ []
decode-escape_example =
    decode-escape hex_digit k_unreserved_charmap (37 ∷ 255 ∷ 97 ∷ []) percent_in_map refl

unescape_for_html-escape_for_html_example :
    unescape_for_html (escape_for_html (codes "a<&amp;'b")) ≡ codes "a<&amp;'b"
unescape_for_html-escape_for_html_example = unescape_for_html-escape_for_html (codes "a<&amp;'b")
