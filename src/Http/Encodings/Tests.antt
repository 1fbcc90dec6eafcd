-- ===== src/Http/Encodings/Tests.antt =====
-- Encodings at concrete inputs.
use nginx_quic_stack.Base.{true, false, [], ◌∷◌, ◌&&◌, not, ◌≡◌, refl}
use nginx_quic_stack.Base.Bytes.{Bytes, codes, same}
use nginx_quic_stack.Concrete.Tokenizer.{one_pass_tokenizer, tokens_in}
use nginx_quic_stack.Concrete.{ascii_case}
use nginx_quic_stack.Http.Encodings.Accepted.{
  none_refused, allowed_by, allows_some, parse_accept_encoding-Allows,
}
use nginx_quic_stack.Http.Encodings.Mirrored.{in_completed}
use nginx_quic_stack.Http.Encodings.{has_text, parse_accept_encoding, parse_content_encoding}
use nginx_quic_stack.Http.Pieces.{contains}

abbrev accepted : Bytes
accepted = codes "gzip;q=0.5, br , deflate;q=0"

parse_accept_encoding-Allows_example :
    ((parse_accept_encoding ascii_case one_pass_tokenizer accepted []).0
      ≡ not (contains b'"' accepted)
        && none_refused ascii_case (one_pass_tokenizer.tokens (codes ",") accepted))
    × ((parse_accept_encoding ascii_case one_pass_tokenizer accepted []).0 ≡ true
        → (e : Bytes)
        → has_text e (parse_accept_encoding ascii_case one_pass_tokenizer accepted []).1
          ≡ in_completed
              (allowed_by ascii_case (one_pass_tokenizer.tokens (codes ",") accepted))
              (allows_some ascii_case (one_pass_tokenizer.tokens (codes ",") accepted))
              e)
parse_accept_encoding-Allows_example =
    parse_accept_encoding-Allows ascii_case one_pass_tokenizer accepted []

three_encodings :
    parse_accept_encoding ascii_case one_pass_tokenizer accepted []
    ≡ (true, codes "gzip" ∷ codes "br" ∷ codes "identity" ∷ codes "x-gzip" ∷ [])
unfolding parse_accept_encoding tokens_in same
three_encodings = refl

weight_above_one :
    (parse_accept_encoding ascii_case one_pass_tokenizer (codes "gzip;q=1.1") []).0 ≡ false
unfolding parse_accept_encoding tokens_in same
weight_above_one = refl

two_used :
    parse_content_encoding ascii_case one_pass_tokenizer (codes "GZIP, br") []
    ≡ (true, codes "gzip" ∷ codes "br" ∷ [])
unfolding parse_content_encoding tokens_in same
two_used = refl
