-- ===== src/Stream/Request/Tests.antt =====
-- Requests at concrete inputs.
use nginx_quic_stack.Base.{ℕ, ◌+◌, ◌≤◌, ◌≡◌, refl, true, false, List, [], ◌∷◌, Option, none, some}
use nginx_quic_stack.Base.Bytes.{Bytes, codes, same}
use nginx_quic_stack.Base.Int.{ℤ, pos}
use nginx_quic_stack.Concrete.{ascii_case, header_list_block}
use nginx_quic_stack.Stream.State.{ServerStream, new_stream}
use nginx_quic_stack.Stream.Buffer.{append}
use nginx_quic_stack.Stream.Identify.{get_server_identify_by_name}
use nginx_quic_stack.Stream.Request.Headers.{copy_and_validate_headers}
use nginx_quic_stack.Stream.Response.Text.{decimal}
use nginx_quic_stack.Stream.Request.{
  Surroundings, on_close, on_body_available, on_request_body, on_request_header,
  on_initial_headers_complete,
}
use nginx_quic_stack.Stream.Request.Calm.{closes}
use nginx_quic_stack.Stream.Request.Lifecycle.{
  Happening, initial_headers, body_available, close, handle, handle_all, handle_all-closes,
}
use nginx_quic_stack.Stream.Request.Faults.{
  responses, on_close-on_initial_headers_complete, on_initial_headers_complete_twice,
}

abbrev accept : Bytes → ℕ → ℕ → ℤ × ℕ
accept header ctx server_ctx = (pos 0, ctx + 1)

abbrev env : Surroundings
env = record {
  spdy = header_list_block;
  ascii = ascii_case;
  trim_spaces = λ b. b;
  uint64_to_string = decimal;
  string_to_uint64 = λ b. none;
  match_pattern = same;
  callback = record {
    on_request_header_cb = some accept;
    on_request_body_cb = some (λ ctx server_ctx. pos 0);
    on_request_close_cb = true;
  };
  servers = record { name = codes "a"; cert_path = codes "c"; key_path = codes "k"; ctx = 7 } ∷ [];
}

abbrev fresh : ServerStream (List (Bytes × Bytes))
fresh = new_stream [] 1

on_close-on_initial_headers_complete_example :
    on_close env
      (on_initial_headers_complete env false ((codes ":authority", codes "a") ∷ []) fresh)
    ≡ none
on_close-on_initial_headers_complete_example =
    on_close-on_initial_headers_complete env 1 ((codes ":authority", codes "a") ∷ [])

-- A request for a name that is not served, with a header without a name.
abbrev malformed : List (Bytes × Bytes)
malformed = (codes ":authority", codes "b") ∷ ([], codes "x") ∷ []

on_initial_headers_complete_twice_example :
    responses (on_initial_headers_complete env true malformed fresh).effects ≡ 2
unfolding same copy_and_validate_headers get_server_identify_by_name
on_initial_headers_complete_twice_example =
    on_initial_headers_complete_twice env accept malformed fresh refl refl refl refl

-- A request with a body, and its end.
abbrev request : List (Happening env)
request =
    initial_headers false ((codes ":method", codes "POST") ∷ (codes ":authority", codes "a") ∷ [])
    ∷ body_available (codes "ab" ∷ []) true false
    ∷ close
    ∷ []

abbrev or_fresh : Option (ServerStream (List (Bytes × Bytes))) → ServerStream (List (Bytes × Bytes))
or_fresh none = fresh
or_fresh (some s) = s

ended : ServerStream (List (Bytes × Bytes))
unfolding handle_all
ended = or_fresh (handle_all env fresh request)

request_ends : handle_all env fresh request ≡ some ended
unfolding handle_all ended handle on_body_available append on_initial_headers_complete
    copy_and_validate_headers same on_request_body on_request_header get_server_identify_by_name
    on_close
request_ends = refl

handle_all-closes_example : closes ended.effects ≤ 1
handle_all-closes_example = handle_all-closes env 1 request ended request_ends

-- The server is told of the header, of the body and of the close.
calls_made : closes ended.effects ≡ 1
unfolding handle_all ended handle on_body_available append on_initial_headers_complete
    copy_and_validate_headers same on_request_body on_request_header get_server_identify_by_name
    on_close
calls_made = refl
