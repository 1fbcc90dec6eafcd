-- ===== src/Http/ByteRange/Defs.antt =====
-- The fields and operations of `HttpByteRange`.
use nginx_quic_stack.Base.{Bool, true, false, ◌&&◌, ◌||◌, not, if◌then◌else◌}
use nginx_quic_stack.Base.Int.{ℤ, pos, negsuc, ◌-ℤ◌, ltb_ℤ, leb_ℤ, eqb_ℤ, min_ℤ}

abbrev pub k_position_not_specified : ℤ
k_position_not_specified = negsuc 0

pub record HttpByteRange : Type 0 where
  pub first_byte_position : ℤ
  pub last_byte_position : ℤ
  pub suffix_length : ℤ
  pub has_computed_bounds : Bool

abbrev pub new_range : HttpByteRange
new_range = record {
  first_byte_position = k_position_not_specified;
  last_byte_position = k_position_not_specified;
  suffix_length = k_position_not_specified;
  has_computed_bounds = false;
}

abbrev pub bounded : ℤ → ℤ → HttpByteRange
bounded first last = record new_range { first_byte_position = first; last_byte_position = last }

abbrev pub right_unbounded : ℤ → HttpByteRange
right_unbounded first = record new_range { first_byte_position = first }

abbrev pub suffix : ℤ → HttpByteRange
suffix length = record new_range { suffix_length = length }

abbrev pub is_suffix_byte_range : HttpByteRange → Bool
is_suffix_byte_range r = not (eqb_ℤ r.suffix_length k_position_not_specified)

abbrev pub has_first_byte_position : HttpByteRange → Bool
has_first_byte_position r = not (eqb_ℤ r.first_byte_position k_position_not_specified)

abbrev pub has_last_byte_position : HttpByteRange → Bool
has_last_byte_position r = not (eqb_ℤ r.last_byte_position k_position_not_specified)

unfoldable pub is_valid : HttpByteRange → Bool
is_valid r =
    if ltb_ℤ (pos 0) r.suffix_length
    then true
    else leb_ℤ (pos 0) r.first_byte_position
      && (eqb_ℤ r.last_byte_position k_position_not_specified
          || leb_ℤ r.first_byte_position r.last_byte_position)

-- The rest of `ComputeBounds`, where the flag has been set.
bounds_for : HttpByteRange → ℤ → HttpByteRange × Bool
unfolding is_valid
bounds_for r size =
    if not (has_first_byte_position r)
      && not (has_last_byte_position r)
      && not (is_suffix_byte_range r)
    then (record r { first_byte_position = pos 0; last_byte_position = size -ℤ pos 1 }, true)
    else if not (is_valid r)
    then (r, false)
    else if is_suffix_byte_range r
    then (
      record r {
        first_byte_position = size -ℤ min_ℤ size r.suffix_length;
        last_byte_position = size -ℤ pos 1;
      },
      true,
    )
    else if ltb_ℤ r.first_byte_position size
    then (
      record r {
        last_byte_position =
            if has_last_byte_position r
            then min_ℤ (size -ℤ pos 1) r.last_byte_position
            else size -ℤ pos 1;
      },
      true,
    )
    else (r, false)

unfoldable pub compute_bounds : HttpByteRange → ℤ → HttpByteRange × Bool
unfolding bounds_for
compute_bounds r size =
    if ltb_ℤ size (pos 0)
    then (r, false)
    else if r.has_computed_bounds
    then (r, false)
    else bounds_for (record r { has_computed_bounds = true }) size
