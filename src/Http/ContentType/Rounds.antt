-- ===== src/Http/ContentType/Rounds.antt =====
-- The loop over the parameters of a content type ends.
use nginx_quic_stack.Base.{ℕ, ◌≤◌, zero, suc, Bool, true, false, [], ◌∷◌, length, ◌≡◌, refl, arith}
use nginx_quic_stack.Base.Bytes.{Bytes, codes}
use nginx_quic_stack.Http.Ascii.{AsciiCase}
use nginx_quic_stack.Http.ContentType.{
  before_any, from_any, skip_lws, quoted_value, value_at, after_name, next_parameter,
  FoundParameters, take_parameter, take_parameters,
}

length-from_any : (stops text : Bytes) → length (from_any stops text) ≤ length text
length-from_any stops [] = omega arith
length-from_any stops (c ∷ text) = ground (arith, length-from_any stops text)

length-skip_lws : (text : Bytes) → length (skip_lws text) ≤ length text
length-skip_lws [] = omega arith
length-skip_lws (c ∷ text) = ground (arith, length-skip_lws text)

length-quoted_value :
    (escaped : Bool) (text : Bytes) → length (quoted_value escaped text).1 ≤ length text
unfolding quoted_value
length-quoted_value escaped [] = omega arith
length-quoted_value true (c ∷ text) = ground (arith, length-quoted_value false text)
length-quoted_value false (c ∷ text) =
    ground (arith, length-quoted_value true text, length-quoted_value false text)

length-value_at : (name text : Bytes) → length (value_at name text).1 ≤ length text
unfolding value_at
length-value_at name [] = omega arith
length-value_at name (c ∷ text) = ground (
  arith,
  length-from_any (codes ";") (c ∷ text),
  length-from_any (codes ";") (quoted_value false text).1,
  length-quoted_value false text,
)

length-after_name : (name text : Bytes) → length (after_name name text).1 ≤ length text
length-after_name name [] = omega arith
length-after_name name (c ∷ text) =
    ground (arith, length-value_at name (skip_lws text), length-skip_lws text)

length-next_parameter : (text : Bytes) → length (next_parameter text).1 ≤ length text
unfolding next_parameter
length-next_parameter text =
    let start = skip_lws text in
    let name = before_any (codes ";=") start in
    omega (
      arith,
      length-after_name name (from_any (codes ";=") start),
      length-from_any (codes ";=") start,
      length-skip_lws text,
    )

take_parameters_fuel :
    (ascii : AsciiCase) (f g : ℕ) (text : Bytes) (p : FoundParameters)
    → length text ≤ f
    → length text ≤ g
    → take_parameters ascii f text p ≡ take_parameters ascii g text p
unfolding take_parameters
take_parameters_fuel ascii zero zero text p h k = refl
take_parameters_fuel ascii zero (suc g) [] p h k = refl
take_parameters_fuel ascii (suc f) zero [] p h k = refl
take_parameters_fuel ascii (suc f) (suc g) [] p h k = refl
take_parameters_fuel ascii zero (suc g) (c ∷ text) p h k = absurd (omega arith)
take_parameters_fuel ascii (suc f) zero (c ∷ text) p h k = absurd (omega arith)
take_parameters_fuel ascii (suc f) (suc g) (c ∷ text) p h k =
    let next = next_parameter text in
    let shrinks = length-next_parameter text in
    take_parameters_fuel ascii f g next.1 (take_parameter ascii next.0 p)
      (omega (arith, h, shrinks)) (omega (arith, k, shrinks))

-- The loop ends: as many rounds as there are bytes are enough.
pub take_parameters_enough :
    (ascii : AsciiCase) (fuel : ℕ) (text : Bytes) (p : FoundParameters)
    → length text ≤ fuel
    → take_parameters ascii fuel text p ≡ take_parameters ascii (length text) text p
take_parameters_enough ascii fuel text p h =
    take_parameters_fuel ascii fuel (length text) text p h (omega arith)
