-- ===== src/Http/ByteRange/Tests.antt =====
-- Byte ranges at concrete inputs.
use nginx_quic_stack.Base.{◌≡◌, refl, true, false, arith}
use nginx_quic_stack.Base.Int.{pos}
use nginx_quic_stack.Http.ByteRange.Defs.{suffix, right_unbounded, compute_bounds}
use nginx_quic_stack.Http.ByteRange.Selection.{
  Selects, from_to, range_of, compute_bounds-Selects, compute_bounds_spent,
}

compute_bounds-Selects_example :
    Selects (from_to 2 9) 5 (compute_bounds (range_of (from_to 2 9)) (pos 5))
compute_bounds-Selects_example = compute_bounds-Selects (from_to 2 9) 5

compute_bounds_spent_example :
    ((compute_bounds (right_unbounded (pos 7)) (pos 5)).0.has_computed_bounds ≡ true)
    × (compute_bounds (compute_bounds (right_unbounded (pos 7)) (pos 5)).0 (pos 10)
        ≡ ((compute_bounds (right_unbounded (pos 7)) (pos 5)).0, false))
compute_bounds_spent_example =
    compute_bounds_spent (right_unbounded (pos 7)) (pos 5) (pos 10) (omega arith)

-- The last three of two bytes are both.
suffix_run :
    ((compute_bounds (suffix (pos 3)) (pos 2)).0.first_byte_position ≡ pos 0)
    × ((compute_bounds (suffix (pos 3)) (pos 2)).0.last_byte_position ≡ pos 1)
unfolding compute_bounds
suffix_run = (refl, refl)
