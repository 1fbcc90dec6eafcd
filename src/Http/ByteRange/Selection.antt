-- ===== src/Http/ByteRange/Selection.antt =====
-- The bytes that a range selects, against the range's own words.
use nginx_quic_stack.Base.{ℕ, ◌+◌, ◌<◌, ◌≤◌, ◌≡◌, Bool, true, false, arith, ◌↔◌, leb, ltb, ◌&&◌}
use nginx_quic_stack.Base.Int.{ℤ, pos, ◌≤ℤ◌}
use nginx_quic_stack.Http.ByteRange.Defs.{
  HttpByteRange, bounded, right_unbounded, suffix, compute_bounds, is_valid,
}

-- What RFC 7233 lets a client ask for: from a byte to a byte, from a byte on, the last so many.
pub data Wish : Type 0 where
  from_to : ℕ → ℕ → Wish
  from_on : ℕ → Wish
  last_bytes : ℕ → Wish

abbrev pub range_of : Wish → HttpByteRange
range_of (from_to f l) = bounded (pos f) (pos l)
range_of (from_on f) = right_unbounded (pos f)
range_of (last_bytes n) = suffix (pos n)

abbrev pub Wants : Wish → ℕ → ℕ → Type 0
Wants (from_to f l) size p = (f ≤ p) × (p ≤ l)
Wants (from_on f) size p = f ≤ p
Wants (last_bytes n) size p = size ≤ p + n

-- The wish can be met: its first byte is there, or it asks for some byte at the end.
abbrev pub satisfiable : Wish → ℕ → Bool
satisfiable (from_to f l) size = leb f l && ltb f size
satisfiable (from_on f) size = ltb f size
satisfiable (last_bytes n) size = ltb 0 n

pub record Selects (w : Wish) (size : ℕ) (r : HttpByteRange × Bool) : Type 0 where
  pub accepted : r.1 ≡ satisfiable w size
  pub bytes :
      (p : ℕ)
      → r.1 ≡ true
      → ((r.0.first_byte_position ≤ℤ pos p) × (pos p ≤ℤ r.0.last_byte_position))
        ↔ ((p < size) × Wants w size p)

-- For every size and every new range (from a byte to a byte, from a byte on, the last so many
-- bytes): ComputeBounds accepts it exactly if it can be met (its first byte is in the resource and
-- not behind its last, or it asks for some bytes at the end), and then the bytes between the
-- bounds are exactly the bytes of the resource that the range names.
pub compute_bounds-Selects :
    (w : Wish) (size : ℕ) → Selects w size (compute_bounds (range_of w) (pos size))
unfolding compute_bounds is_valid
compute_bounds-Selects (from_to f l) size = record {
  accepted = ground arith;
  bytes = λ p h. (λ k. ground arith, λ k. ground arith);
}
compute_bounds-Selects (from_on f) size = record {
  accepted = ground arith;
  bytes = λ p h. (λ k. ground arith, λ k. ground arith);
}
compute_bounds-Selects (last_bytes n) size = record {
  accepted = ground arith;
  bytes = λ p h. (λ k. ground arith, λ k. ground arith);
}

-- For every range and every size that is not negative: after ComputeBounds, accepted or refused,
-- has_computed_bounds_ is set, and a second call changes nothing and returns false.
pub compute_bounds_spent :
    (r : HttpByteRange) (size later : ℤ)
    → pos 0 ≤ℤ size
    → ((compute_bounds r size).0.has_computed_bounds ≡ true)
      × (compute_bounds (compute_bounds r size).0 later ≡ ((compute_bounds r size).0, false))
unfolding compute_bounds
compute_bounds_spent r size later h = (ground arith, ground arith)
