-- ===== src/Stream/Response/Decimal.antt =====
-- `std::to_string` of a size, and how its digits read.
use nginx_quic_stack.Base.{
  ℕ, ◌+◌, ◌-◌, ◌*◌, ◌/◌, ◌%◌, ◌<◌, ◌≡◌, ◌∙◌, ap, zero, suc, [], ◌∷◌, arith, ltb, Bool-cases, inl,
  inr,
}
use nginx_quic_stack.Base.Bytes.{Bytes}
use nginx_quic_stack.Stream.Response.Text.{digits, decimal}

-- What a text of digits says behind a number that was read.
abbrev pub number_from : ℕ → Bytes → ℕ
number_from read [] = read
number_from read (c ∷ text) = number_from (read * 10 + (c - 48)) text

number_from-digits :
    (fuel n : ℕ) (out : Bytes) → n < fuel → number_from 0 (digits fuel n out) ≡ number_from n out
unfolding digits
number_from-digits zero n out h = ground arith
number_from-digits (suc fuel) n out h = elim (Bool-cases (ltb n 10)) [
  | inl small ↦ rw small (ap (λ m. number_from m out) (omega arith))
  | inr large ↦ rw large (
      number_from-digits fuel (n / 10) ((48 + n % 10) ∷ out) (ground (arith, large))
      ∙ ap (λ m. number_from m out) (omega arith))
]

-- The digits printed for a size, read as a decimal number, are that size, for every size.
pub number_from-decimal : (n : ℕ) → number_from 0 (decimal n) ≡ n
unfolding decimal
number_from-decimal n = number_from-digits (n + 1) n [] (omega arith)
