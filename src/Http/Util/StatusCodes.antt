-- ===== src/Http/Util/StatusCodes.antt =====
-- The status codes that `HttpUtil` of src/http_parser/http_util.cc gives to histograms.
use nginx_quic_stack.Base.{
  ℕ, ◌+◌, ◌-◌, zero, suc, Bool, true, false, ◌&&◌, ◌||◌, List, [], ◌∷◌, if◌then◌else◌, leb, ◌≡◌,
  refl, ap, ◌∙◌, arith,
}
use nginx_quic_stack.Base.Int.{ℤ, pos, negsuc, eqb_ℤ, leb_ℤ}

abbrev histogram_min_http_status_code : ℕ
histogram_min_http_status_code = 100

abbrev histogram_max_http_status_code : ℕ
histogram_max_http_status_code = 599

abbrev codes_from : ℕ → ℕ → List ℤ
codes_from first zero = []
codes_from first (suc count) = pos first ∷ codes_from (suc first) count

-- 0, then the codes from the smallest to the largest one.
unfoldable pub get_status_codes_for_histogram : List ℤ
get_status_codes_for_histogram =
    pos 0
    ∷ codes_from histogram_min_http_status_code
        (histogram_max_http_status_code + 1 - histogram_min_http_status_code)

unfoldable pub map_status_code_for_histogram : ℤ → ℤ
map_status_code_for_histogram code =
    if leb_ℤ (pos histogram_min_http_status_code) code
      && leb_ℤ code (pos histogram_max_http_status_code)
    then code
    else pos 0

abbrev pub is_code_of : ℤ → List ℤ → Bool
is_code_of code [] = false
is_code_of code (c ∷ list) = eqb_ℤ code c || is_code_of code list

codes_from_lem :
    (n first count : ℕ)
    → is_code_of (pos n) (codes_from first count) ≡ leb first n && leb (suc n) (first + count)
codes_from_lem n first zero = ground arith
codes_from_lem n first (suc count) = ground (arith, codes_from_lem n (suc first) count)

codes_from_negative : (n first count : ℕ) → is_code_of (negsuc n) (codes_from first count) ≡ false
codes_from_negative n first zero = refl
codes_from_negative n first (suc count) = ground (arith, codes_from_negative n (suc first) count)

in_histogram : ℤ → Bool
in_histogram code = eqb_ℤ code (pos 0) || (leb_ℤ (pos 100) code && leb_ℤ code (pos 599))

get_status_codes_for_histogram_lem :
    (code : ℤ) → is_code_of code get_status_codes_for_histogram ≡ in_histogram code
unfolding get_status_codes_for_histogram in_histogram
get_status_codes_for_histogram_lem (pos n) =
    ap (λ b. eqb_ℤ (pos n) (pos 0) || b) (codes_from_lem n 100 500) ∙ ground arith
get_status_codes_for_histogram_lem (negsuc n) =
    ap (λ b. eqb_ℤ (negsuc n) (pos 0) || b) (codes_from_negative n 100 500) ∙ ground arith

in_histogram-map_status_code_for_histogram :
    (code : ℤ)
    → (in_histogram (map_status_code_for_histogram code) ≡ true)
      × (in_histogram code ≡ eqb_ℤ (map_status_code_for_histogram code) code)
unfolding in_histogram map_status_code_for_histogram
in_histogram-map_status_code_for_histogram code = ground arith

-- For every code: MapStatusCodeForHistogram gives a code of GetStatusCodesForHistogram; this is the
-- code itself if and only if it is in that list.
pub map_status_code_for_histogram_lem :
    (code : ℤ)
    → (is_code_of (map_status_code_for_histogram code) get_status_codes_for_histogram ≡ true)
      × (is_code_of code get_status_codes_for_histogram
          ≡ eqb_ℤ (map_status_code_for_histogram code) code)
map_status_code_for_histogram_lem code =
    let (known, fixed) = in_histogram-map_status_code_for_histogram code in
    (
      get_status_codes_for_histogram_lem (map_status_code_for_histogram code) ∙ known,
      get_status_codes_for_histogram_lem code ∙ fixed,
    )
