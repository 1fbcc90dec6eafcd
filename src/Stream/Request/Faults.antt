-- ===== src/Stream/Request/Faults.antt =====
-- What the handlers do where a request ends early or is malformed.
use nginx_quic_stack.Base.{
  ℕ, ◌+◌, ◌≡◌, refl, ◌∙◌, ap, true, false, List, [], ◌∷◌, ◌++◌, none, some, if◌then◌else◌, is_nil,
  arith, if_both, append_assoc, Bool-cases, inl, inr,
}
use nginx_quic_stack.Base.Bytes.{Bytes, codes}
use nginx_quic_stack.Base.Int.{ℤ, negsuc}
use nginx_quic_stack.Stream.Identify.{get_server_identify_by_name}
use nginx_quic_stack.Stream.Response.{send_headers_and_body_and_trailers, send_headers_and_body}
use nginx_quic_stack.Stream.State.{
  ServerStream, Effect, unset, null, write_headers, write_or_buffer_body, write_trailers,
  request_header, request_body, request_close, can_write, new_stream,
}
use nginx_quic_stack.Stream.Request.Headers.{copy_and_validate_headers}
use nginx_quic_stack.Stream.Request.{
  Surroundings, send_error_response_internal, header_to, header_with, on_request_header, close_to,
  on_close, on_initial_headers_complete, k403_response_body,
}

-- The header frames among the calls.
abbrev pub responses : {Block : Type 0} → List (Effect Block) → ℕ
responses [] = 0
responses (write_headers h fin ∷ es) = 1 + responses es
responses (write_or_buffer_body b fin ∷ es) = responses es
responses (write_trailers t ∷ es) = responses es
responses (request_header r c x ∷ es) = responses es
responses (request_body c x ∷ es) = responses es
responses (request_close c x ∷ es) = responses es
responses (can_write c ∷ es) = responses es

responses-concat :
    {Block : Type 0} (es fs : List (Effect Block))
    → responses (es ++ fs) ≡ responses es + responses fs
responses-concat [] fs = omega arith
responses-concat (write_headers h fin ∷ es) fs = omega (arith, responses-concat es fs)
responses-concat (write_or_buffer_body b fin ∷ es) fs = responses-concat es fs
responses-concat (write_trailers t ∷ es) fs = responses-concat es fs
responses-concat (request_header r c x ∷ es) fs = responses-concat es fs
responses-concat (request_body c x ∷ es) fs = responses-concat es fs
responses-concat (request_close c x ∷ es) fs = responses-concat es fs
responses-concat (can_write c ∷ es) fs = responses-concat es fs

module _ (env : Surroundings) where
  open env use {spdy, ascii, string_to_uint64, match_pattern, callback, servers}
  open spdy use {Block, empty_block, is_empty_block, is_empty-empty}

  -- An error response leaves `qsi_` and `is_new_ok_` as they are.
  error_keeps :
      (code : ℕ) (body : Bytes) (s : ServerStream Block)
      → ((send_error_response_internal env code body s).qsi ≡ s.qsi)
        × ((send_error_response_internal env code body s).is_new_ok ≡ s.is_new_ok)
  unfolding send_error_response_internal send_headers_and_body send_headers_and_body_and_trailers
  error_keeps code body s = (ground arith, ground arith)

  close_unset :
      (s : ServerStream Block) → s.qsi ≡ unset → s.is_new_ok ≡ true → on_close env s ≡ none
  unfolding on_close close_to
  close_unset s q alive = rw (alive, q) refl

  -- For every header list: OnClose on a new stream whose headers came without FIN, and nothing
  -- else, reads qsi_ before anything has set it.
  pub on_close-on_initial_headers_complete :
      (ctx : ℕ) (header_list : List (Bytes × Bytes))
      → on_close env
          (on_initial_headers_complete env false header_list (new_stream empty_block ctx))
        ≡ none
  unfolding on_initial_headers_complete
  on_close-on_initial_headers_complete ctx header_list =
      if_both {A = ServerStream Block} (λ s. on_close env s ≡ none)
        (copy_and_validate_headers ascii string_to_uint64 header_list (negsuc 0) []).valid
        (close_unset _ refl refl)
        (close_unset _ (error_keeps 0 (codes "bad") _).0 (error_keeps 0 (codes "bad") _).1)

  error_keeps_host :
      (code : ℕ) (body : Bytes) (s : ServerStream Block)
      → (send_error_response_internal env code body s).request_host ≡ s.request_host
  unfolding send_error_response_internal send_headers_and_body send_headers_and_body_and_trailers
  error_keeps_host code body s = ground arith

  error_responds :
      (code : ℕ) (body : Bytes) (s : ServerStream Block)
      → responses (send_error_response_internal env code body s).effects ≡ responses s.effects + 1
  unfolding send_error_response_internal send_headers_and_body send_headers_and_body_and_trailers
  error_responds code body s = elim (Bool-cases (is_nil body)) [
    | inl e ↦ rw (e, is_empty-empty) (responses-concat s.effects _ ∙ omega arith)
    | inr e ↦
        rw (e, is_empty-empty)
          (ap responses (append_assoc s.effects _ _) ∙ (responses-concat s.effects _ ∙ omega arith))
  ]

  -- A request for a name that no server has.
  refused_header :
      (cb : Bytes → ℕ → ℕ → ℤ × ℕ) (s : ServerStream Block)
      → callback.on_request_header_cb ≡ some cb
      → is_nil s.request_host ≡ false
      → get_server_identify_by_name match_pattern s.request_host servers ≡ none
      → responses (on_request_header env s).effects ≡ responses s.effects + 1
  unfolding on_request_header header_with header_to send_error_response_internal
  refused_header cb s called host unknown =
      rw (called, host, unknown) (error_responds 403 k403_response_body (record s { qsi = null }))

  -- Where the headers end the stream and are rejected, the request host is not empty, the server
  -- has a header callback, and no server has that name: OnInitialHeadersComplete writes response
  -- headers twice.
  pub on_initial_headers_complete_twice :
      (cb : Bytes → ℕ → ℕ → ℤ × ℕ) (header_list : List (Bytes × Bytes)) (s : ServerStream Block)
      → callback.on_request_header_cb ≡ some cb
      → (copy_and_validate_headers ascii string_to_uint64 header_list s.content_length
          s.request_host).valid
        ≡ false
      → is_nil
          (copy_and_validate_headers ascii string_to_uint64 header_list s.content_length
            s.request_host).request_host
        ≡ false
      → get_server_identify_by_name match_pattern
          (copy_and_validate_headers ascii string_to_uint64 header_list s.content_length
            s.request_host).request_host
          servers
        ≡ none
      → responses (on_initial_headers_complete env true header_list s).effects
        ≡ responses s.effects + 2
  unfolding on_initial_headers_complete
  on_initial_headers_complete_twice cb header_list s called invalid host unknown =
      let copied =
        copy_and_validate_headers ascii string_to_uint64 header_list s.content_length
          s.request_host in
      let s1 = record s {
        content_length = copied.content_length;
        request_host = copied.request_host;
        raw_header_str = copied.header_str;
      } in
      let s2 = send_error_response_internal env 0 (codes "bad") s1 in
      let same_host : s2.request_host ≡ copied.request_host = error_keeps_host 0 (codes "bad") s1 in
      let second : responses (on_request_header env s2).effects ≡ responses s2.effects + 1 =
        refused_header cb s2 called (ap is_nil same_host ∙ host)
          (ap (λ n. get_server_identify_by_name match_pattern n servers) same_host ∙ unknown) in
      let shape : responses (on_initial_headers_complete env true header_list s).effects
          ≡ responses (on_request_header env s2).effects =
        ap (λ b. responses (on_request_header env (if b then s1 else s2)).effects) invalid in
      omega (arith, shape, second, error_responds 0 (codes "bad") s1)
