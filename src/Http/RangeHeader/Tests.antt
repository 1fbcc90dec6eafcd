-- ===== src/Http/RangeHeader/Tests.antt =====
-- A range header at concrete inputs.
use nginx_quic_stack.Base.{
  ℕ, ◌+◌, ◌-◌, ◌*◌, Bool, true, false, ◌&&◌, ◌≡◌, refl, [], ◌∷◌, Option, none, some, if◌then◌else◌,
  ◌==◌, leb, length, arith, subst, ◌>>=◌,
}
use nginx_quic_stack.Base.Bytes.{Bytes, codes, same}
use nginx_quic_stack.Base.Int.{ℤ, pos, negsuc, ◌≤ℤ◌}
use nginx_quic_stack.Http.Pieces.{contains}
use nginx_quic_stack.Http.RangeHeader.{NumbersAndTokens, parse_range_header}
use nginx_quic_stack.Http.RangeHeader.Refusal.{parse_range_header_refused}

-- Decimal digits behind a number.
digits_behind : ℕ → Bytes → Option ℕ
digits_behind read [] = some read
digits_behind read (c ∷ text) =
    let rest = digits_behind (read * 10 + (c - b'0')) text in
    if leb b'0' c && leb c b'9' then rest else none

negative : ℕ → ℤ
negative n = if n == 0 then pos 0 else negsuc (n - 1)

signed : ℕ → Bytes → Option ℤ
unfolding digits_behind negative
signed c text =
    if c == b'-'
    then (digits_behind 0 text >>= λ n. some (negative n))
    else (digits_behind 0 (c ∷ text) >>= λ n. some (pos n))

number : Bytes → Option ℤ
unfolding signed
number [] = none
number (c ∷ text) = signed c text

digits_behind-contains :
    (read n : ℕ) (text : Bytes) → digits_behind read text ≡ some n → contains b'-' text ≡ false
unfolding digits_behind
digits_behind-contains read n [] h = refl
digits_behind-contains read n (c ∷ text) h =
    ground (arith, digits_behind-contains (read * 10 + (c - b'0')) n text)

from_digits :
    (o : Option ℕ) (f : ℕ → ℤ) (v : ℤ)
    → (o >>= λ n. some (f n)) ≡ some v
    → (n : ℕ) × ((o ≡ some n) × (f n ≡ v))
from_digits none f v h = cc
from_digits (some n) f v h = (n, (refl, cc))

signed_minus :
    (b : Bool) (c : ℕ) (text : Bytes) (v : ℤ)
    → (if b
        then (digits_behind 0 text >>= λ n. some (negative n))
        else (digits_behind 0 (c ∷ text) >>= λ n. some (pos n)))
      ≡ some v
    → contains b'-' text ≡ false
signed_minus true c text v h =
    let (n, (read, value)) = from_digits (digits_behind 0 text) negative v h in
    digits_behind-contains 0 n text read
signed_minus false c text v h =
    let (n, (read, value)) = from_digits (digits_behind 0 (c ∷ text)) pos v h in
    let both : contains b'-' (c ∷ text) ≡ false = digits_behind-contains 0 n (c ∷ text) read in
    ground (arith, both)

number-minus :
    (c : ℕ) (text : Bytes) (v : ℤ) → number (c ∷ text) ≡ some v → contains b'-' text ≡ false
unfolding number signed
number-minus c text v h = signed_minus (c == b'-') c text v h

negative_bound : (n : ℕ) → negative n ≤ℤ pos 0
unfolding negative
negative_bound n = ground arith

number-not_positive : (text : Bytes) (v : ℤ) → number (b'-' ∷ text) ≡ some v → v ≤ℤ pos 0
unfolding number signed
number-not_positive text v h =
    let (n, (read, value)) = from_digits (digits_behind 0 text) negative v h in
    subst (λ x. x ≤ℤ pos 0) value (negative_bound n)

abbrev one_token : NumbersAndTokens
one_token = record {
  simple_atoi = number;
  minus_in_front = λ c text v solid h. number-minus c text v h;
  minus_not_positive = number-not_positive;
  lower_case_equals_ascii = same;
  tokens = λ text. record { from = text; size = length text } ∷ [];
  tokens_within = λ text. (([], refl), tt);
}

parse_range_header_refused_example :
    parse_range_header one_token (codes "bytes=0-9") [] ≡ ([], false)
parse_range_header_refused_example = parse_range_header_refused one_token (codes "bytes=0-9") refl
