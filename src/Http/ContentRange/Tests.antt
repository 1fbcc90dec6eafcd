-- ===== src/Http/ContentRange/Tests.antt =====
-- A content range at a concrete header.
use nginx_quic_stack.Base.{
  ℕ, ◌+◌, ◌-◌, ◌*◌, ◌||◌, true, [], ◌∷◌, Option, none, some, if◌then◌else◌, ◌==◌, all, ◌≡◌, refl,
  arith,
}
use nginx_quic_stack.Base.Bytes.{Bytes, codes}
use nginx_quic_stack.Base.Int.{ℤ, pos}
use nginx_quic_stack.Concrete.{ascii_case}
use nginx_quic_stack.Http.ParseInt.{is_ascii_digit}
use nginx_quic_stack.Http.Pieces.{is_space}
use nginx_quic_stack.Http.ContentRange.{NumberReader, parse_content_range_header_for_206}
use nginx_quic_stack.Http.ContentRange.Refusal.{parse_content_range_header_for_206_refused}

number_from : ℕ → Bytes → Option ℤ
number_from n [] = some (pos n)
number_from n (c ∷ text) =
    let rest = number_from (10 * n + (c - b'0')) text in if is_ascii_digit c then rest else none

number_from-bytes :
    (n : ℕ) (text : Bytes) (v : ℤ)
    → number_from n text ≡ some v
    → all (λ c. is_ascii_digit c || is_space c || (c == b'-') || (c == b'+')) text ≡ true
unfolding number_from
number_from-bytes n [] v h = refl
number_from-bytes n (c ∷ text) v h = ground (arith, number_from-bytes (10 * n + (c - b'0')) text v)

abbrev digits_only : NumberReader
digits_only = record { simple_atoi = number_from 0; number_bytes = number_from-bytes 0 }

parse_content_range_header_for_206_refused_example :
    parse_content_range_header_for_206 ascii_case digits_only (codes "bytes 0-49/100") ≡ none
parse_content_range_header_for_206_refused_example =
    parse_content_range_header_for_206_refused ascii_case digits_only (codes "bytes 0-49/100") refl
