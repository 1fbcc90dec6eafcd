-- ===== src/Http/Version.antt =====
-- `HttpVersion` of src/http_parser/http_version.h: two 16-bit numbers in one 32-bit number. The
-- halves that the constructor joins with `|` have no bit in common, so it is their sum.
use nginx_quic_stack.Base.{
  ℕ, ◌+◌, ◌*◌, ◌/◌, ◌%◌, ◌^◌, ◌<◌, ◌≡◌, Bool, ◌&&◌, ◌||◌, not, ltb, leb, ◌==◌, arith,
}

pub record HttpVersion : Type 0 where
  pub value : ℕ

-- The arguments are of the type uint16_t.
unfoldable pub version : ℕ → ℕ → HttpVersion
version major minor = record { value = (major % 65536 * 65536 + minor % 65536) % 2 ^ 32 }

unfoldable pub major_value : HttpVersion → ℕ
major_value v = v.value / 65536 % 65536

unfoldable pub minor_value : HttpVersion → ℕ
minor_value v = v.value % 65536

unfoldable pub eq_version : HttpVersion → HttpVersion → Bool
eq_version v w = v.value == w.value

unfoldable pub lt_version : HttpVersion → HttpVersion → Bool
lt_version v w = ltb v.value w.value

unfoldable pub le_version : HttpVersion → HttpVersion → Bool
le_version v w = leb v.value w.value

-- A version is its pair of numbers, in the order of the pairs.
pub record IsPair (major minor major' minor' : ℕ) : Type 0 where
  pub major_read : major_value (version major minor) ≡ major
  pub minor_read : minor_value (version major minor) ≡ minor
  pub equal :
      eq_version (version major minor) (version major' minor')
      ≡ ((major == major') && (minor == minor'))
  pub less :
      lt_version (version major minor) (version major' minor')
      ≡ (ltb major major' || ((major == major') && ltb minor minor'))
  pub less_equal :
      le_version (version major minor) (version major' minor')
      ≡ not (lt_version (version major' minor') (version major minor))

-- For all numbers below 65536: the version built from a pair gives the pair back, two versions are
-- equal exactly if their pairs are, one is less exactly if its pair comes first in the order of
-- the pairs, and it is less or equal exactly if the other is not less.
pub version-IsPair :
    (major minor major' minor' : ℕ)
    → major < 65536
    → minor < 65536
    → major' < 65536
    → minor' < 65536
    → IsPair major minor major' minor'
unfolding version major_value minor_value eq_version lt_version le_version
version-IsPair major minor major' minor' a b c d = record {
  major_read = omega (arith, a, b);
  minor_read = omega (arith, a, b);
  equal = ground (arith, a, b, c, d);
  less = ground (arith, a, b, c, d);
  less_equal = ground arith;
}
