-- ===== src/Http/ParseInt/Tests.antt =====
-- Integers at concrete texts.
use nginx_quic_stack.Base.{◌≡◌, refl, arith, Option}
use nginx_quic_stack.Base.Bytes.{Bytes, codes}
use nginx_quic_stack.Base.Int.{ℤ, pos, negsuc}
use nginx_quic_stack.Http.ParseInt.{optionally_negative, failed_underflow, failed, parse_int_helper}
use nginx_quic_stack.Http.ParseInt.Documented.{
  Bounds, in_range, numeral, documented, parse_int_helper_lem,
}

-- A signed type of eight bits.
abbrev int8 : Bounds
int8 = record {
  lowest = negsuc 127;
  highest = pos 127;
  lowest_bound = omega arith;
  highest_bound = omega arith;
}

abbrev to_int8 : Bytes → Option ℤ
to_int8 text = in_range int8 (numeral text)

parse_int_helper_lem_example :
    parse_int_helper to_int8 (codes "-129") optionally_negative
    ≡ documented int8 optionally_negative (codes "-129")
parse_int_helper_lem_example =
    parse_int_helper_lem int8 to_int8 optionally_negative (λ text h. refl) (codes "-129") refl

too_low : parse_int_helper to_int8 (codes "-129") optionally_negative ≡ failed failed_underflow
unfolding parse_int_helper
too_low = refl
