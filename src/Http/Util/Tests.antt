-- ===== src/Http/Util/Tests.antt =====
-- Texts of HTTP at concrete inputs.
use nginx_quic_stack.Base.{◌≡◌, refl, false, some}
use nginx_quic_stack.Base.Bytes.{codes}
use nginx_quic_stack.Http.Util.{locate_end_of_headers, is_token}
use nginx_quic_stack.Base.Int.{pos}
use nginx_quic_stack.Http.Util.StatusCodes.{map_status_code_for_histogram}

head_length : locate_end_of_headers (codes "a: b\r\n\r\nc") 0 ≡ some 8
unfolding locate_end_of_headers
head_length = refl

no_token : is_token (codes "a b") ≡ false
unfolding is_token
no_token = refl

not_found : map_status_code_for_histogram (pos 404) ≡ pos 404
unfolding map_status_code_for_histogram
not_found = refl

out_of_range : map_status_code_for_histogram (pos 600) ≡ pos 0
unfolding map_status_code_for_histogram
out_of_range = refl
