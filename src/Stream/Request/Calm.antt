-- ===== src/Stream/Request/Calm.antt =====
-- The steps of a stream that tell its server of no close.
use nginx_quic_stack.Base.{
  ℕ, ◌+◌, ◌≡◌, refl, ◌∙◌, Bool, true, false, ◌&&◌, ◌||◌, not, List, [], ◌∷◌, ◌++◌, Option, none,
  some, if◌then◌else◌, is_nil, arith, Bool-cases, inl, inr, if_both,
}
use nginx_quic_stack.Base.Bytes.{Bytes, codes}
use nginx_quic_stack.Base.Int.{ℤ, pos, leb_ℤ, ltb_ℤ, eqb_ℤ}
use nginx_quic_stack.Stream.Buffer.{append}
use nginx_quic_stack.Stream.Identify.{ServerIdentify, get_server_identify_by_name}
use nginx_quic_stack.Stream.Response.{send_headers_and_body_and_trailers, send_headers_and_body}
use nginx_quic_stack.Stream.State.{
  ServerStream, Effect, ServerPointer, unset, null, points, write_headers, write_or_buffer_body,
  write_trailers, request_header, request_body, request_close, emit,
}
use nginx_quic_stack.Stream.Request.Headers.{copy_and_validate_headers}
use nginx_quic_stack.Stream.Request.{
  Surroundings, k403_response_body, send_error_response_internal, after_header, header_to,
  header_with, on_request_header, body_to, on_request_body, on_initial_headers_complete,
  take_regions, add_content_length, body_complete, on_body_available,
}

abbrev pub is_close : {Block : Type 0} → Effect Block → ℕ
is_close (request_close c x) = 1
is_close _ = 0

abbrev pub closes : {Block : Type 0} → List (Effect Block) → ℕ
closes [] = 0
closes (e ∷ es) = is_close e + closes es

pub closes-concat :
    {Block : Type 0} (es : List (Effect Block)) (e : Effect Block)
    → closes (es ++ e ∷ []) ≡ closes es + is_close e
closes-concat [] e = omega arith
closes-concat (x ∷ es) e = omega (arith, closes-concat es e)

-- A step that tells the server of no close, and does not take a refused request back.
pub record Calm {Block : Type 0} (s s' : ServerStream Block) : Type 0 where
  pub kept : closes s'.effects ≡ closes s.effects
  pub refused : s.is_new_ok ≡ false → s'.is_new_ok ≡ false

module _ {Block : Type 0} where
  pub Calm-refl : (s : ServerStream Block) → Calm s s
  Calm-refl s = record { kept = refl; refused = λ h. h }

  Calm-trans : (s t u : ServerStream Block) → Calm s t → Calm t u → Calm s u
  Calm-trans s t u a b = record { kept = b.kept ∙ a.kept; refused = λ h. b.refused (a.refused h) }

module _ (env : Surroundings) where
  open env use {spdy, ascii, trim_spaces, string_to_uint64, match_pattern, callback, servers}
  open spdy use {Block, empty_block, assign, is_empty_block}

  pub sends-Calm :
      (h : Block) (body : Bytes) (t : Block) (s : ServerStream Block)
      → Calm s (send_headers_and_body_and_trailers spdy ascii.to_lower_ascii trim_spaces h body t s)
  unfolding send_headers_and_body_and_trailers
  sends-Calm h body t s = record {
    kept = ground (
      arith,
      closes-concat s.effects (write_headers h (is_nil body && is_empty_block t)),
      closes-concat (s.effects ++ write_headers h (is_nil body && is_empty_block t) ∷ [])
          (write_or_buffer_body body (is_empty_block t)),
      closes-concat (s.effects ++ write_headers h (is_nil body && is_empty_block t) ∷ [])
          (write_trailers t),
      closes-concat
          ((s.effects ++ write_headers h (is_nil body && is_empty_block t) ∷ [])
            ++ write_or_buffer_body body (is_empty_block t) ∷ [])
          (write_trailers t),
    );
    refused = λ k. ground arith;
  }

  pub error-Calm :
      (code : ℕ) (body : Bytes) (s : ServerStream Block)
      → Calm s (send_error_response_internal env code body s)
  unfolding send_error_response_internal send_headers_and_body
  error-Calm code body s = sends-Calm _ body empty_block s

  after_header-Calm : (r : ℤ × ℕ) (s : ServerStream Block) → Calm s (after_header env r s)
  unfolding after_header
  after_header-Calm (rc, ctx) s = elim (Bool-cases (eqb_ℤ rc (pos 0))) [
    | inl fine ↦ rw fine (record { kept = refl; refused = λ h. h })
    | inr bad ↦ rw bad (record {
      kept = (error-Calm 0 (codes "bad") (record s { callback_ctx = ctx })).kept;
      refused = λ h. refl;
    })
  ]

  header_to-Calm :
      (cb : Bytes → ℕ → ℕ → ℤ × ℕ) (o : Option ServerIdentify) (s : ServerStream Block)
      → Calm s (header_to env cb o s)
  unfolding header_to
  header_to-Calm cb none s = record {
    kept = (error-Calm 403 k403_response_body (record s { qsi = null })).kept;
    refused = λ h. refl;
  }
  header_to-Calm cb (some server) s =
      let called =
        emit (request_header s.raw_header_str s.callback_ctx server.ctx)
          (record s { qsi = points server }) in
      Calm-trans s called _
        (record { kept = closes-concat s.effects _ ∙ omega arith; refused = λ h. h })
        (after_header-Calm (cb s.raw_header_str s.callback_ctx server.ctx) called)

  header_with-Calm :
      (cb : Option (Bytes → ℕ → ℕ → ℤ × ℕ)) (s : ServerStream Block) → Calm s (header_with env cb s)
  unfolding header_with
  header_with-Calm none s = Calm-refl s
  header_with-Calm (some cb) s = elim (Bool-cases (is_nil s.request_host)) [
    | inl e ↦ rw e (Calm-refl s)
    | inr e ↦
        rw e
          (header_to-Calm cb (get_server_identify_by_name match_pattern s.request_host servers) s)
  ]

  request_header-Calm : (s : ServerStream Block) → Calm s (on_request_header env s)
  unfolding on_request_header
  request_header-Calm = header_with-Calm callback.on_request_header_cb

  -- Of a handler that may read `qsi_` too early: what it leaves, if it leaves anything.
  abbrev pub CalmResult : ServerStream Block → Option (ServerStream Block) → Type 0
  CalmResult s none = Unit {0}
  CalmResult s (some t) = Calm s t

  body_to-Calm :
      (cb : Option (ℕ → ℕ → ℤ)) (q : ServerPointer) (s : ServerStream Block)
      → CalmResult s (body_to env cb q s)
  unfolding body_to
  body_to-Calm cb unset s = tt
  body_to-Calm cb null s = Calm-refl s
  body_to-Calm none (points server) s = Calm-refl s
  body_to-Calm (some cb) (points server) s =
      let called = emit (request_body s.callback_ctx server.ctx) s in
      let told : closes called.effects ≡ closes s.effects =
        closes-concat s.effects (request_body s.callback_ctx server.ctx) ∙ omega arith in
      elim (Bool-cases (ltb_ℤ (cb s.callback_ctx server.ctx) (pos 0))) [
        | inl bad ↦
            rw bad (record {
              kept = (error-Calm 0 (codes "bad") called).kept ∙ told;
              refused = λ h. refl;
            })
        | inr fine ↦ rw fine (record { kept = told; refused = λ h. h })
      ]

  request_body-Calm : (s : ServerStream Block) → CalmResult s (on_request_body env s)
  unfolding on_request_body
  request_body-Calm s =
      if_both (CalmResult s) s.is_new_ok (body_to-Calm callback.on_request_body_cb s.qsi s)
        (Calm-refl s)

  take_regions-Calm :
      (regions : List Bytes) (s : ServerStream Block) → Calm s (take_regions env regions s).0
  unfolding take_regions
  take_regions-Calm [] s = Calm-refl s
  take_regions-Calm (region ∷ regions) s =
      let s1 = record s { body = (append s.body region).0 } in
      let moved : Calm s s1 = record { kept = refl; refused = λ h. h } in
      if_both {A = ServerStream Block × Bool} (λ r. Calm s r.0) (not (append s.body region).1)
        (error-Calm 0 (codes "bad") s)
        (if_both {A = ServerStream Block × Bool} (λ r. Calm s r.0)
          (leb_ℤ (pos 0) s.content_length
            && ltb_ℤ s.content_length (pos (append s.body region).0.total_size))
          (Calm-trans s s1 _ moved (error-Calm 0 (codes "bad") s1))
          (Calm-trans s s1 _ moved (take_regions-Calm regions s1)))

  CalmResult-trans :
      (s t : ServerStream Block) (o : Option (ServerStream Block))
      → Calm s t
      → CalmResult t o
      → CalmResult s o
  CalmResult-trans s t none c r = tt
  CalmResult-trans s t (some u) c r = Calm-trans s t u c r

  body_complete-Calm : (s : ServerStream Block) → CalmResult s (body_complete env s)
  unfolding body_complete add_content_length
  body_complete-Calm s =
      let s1 = add_content_length env s in
      let c1 : Calm s s1 =
        if_both (Calm s) (ltb_ℤ s.content_length (pos 0)) (record { kept = refl; refused = λ h. h })
          (Calm-refl s) in
      let s2 =
        if s1.header_sent then s1 else record (on_request_header env s1) { header_sent = true } in
      let c = request_header-Calm s1 in
      let c2 : Calm s1 s2 =
        if_both (Calm s1) s1.header_sent (Calm-refl s1)
          (record { kept = c.kept; refused = c.refused }) in
      CalmResult-trans s s2 (on_request_body env s2) (Calm-trans s s1 s2 c1 c2)
        (request_body-Calm s2)

  pub body_available-Calm :
      (regions : List Bytes) (closed done : Bool) (s : ServerStream Block)
      → CalmResult s (on_body_available env regions closed done s)
  unfolding on_body_available
  body_available-Calm regions closed done s =
      let t = take_regions env regions s in
      if_both (CalmResult s) (not t.1 || not closed || done) (take_regions-Calm regions s) (
        CalmResult-trans s t.0 (body_complete env t.0) (take_regions-Calm regions s)
          (body_complete-Calm t.0))

  pub initial_headers-Calm :
      (fin : Bool) (hs : List (Bytes × Bytes)) (s : ServerStream Block)
      → Calm s (on_initial_headers_complete env fin hs s)
  unfolding on_initial_headers_complete
  initial_headers-Calm fin hs s =
      let copied =
        copy_and_validate_headers ascii string_to_uint64 hs s.content_length s.request_host in
      let s1 = record s {
        content_length = copied.content_length;
        request_host = copied.request_host;
        raw_header_str = copied.header_str;
      } in
      let s2 = if copied.valid then s1 else send_error_response_internal env 0 (codes "bad") s1 in
      let c1 : Calm s s1 = record { kept = refl; refused = λ h. h } in
      let c2 : Calm s s2 =
        if_both (Calm s) copied.valid c1 (Calm-trans s s1 _ c1 (error-Calm 0 (codes "bad") s1)) in
      let c3 = Calm-trans s s2 (on_request_header env s2) c2 (request_header-Calm s2) in
      if_both (Calm s) fin (record { kept = c3.kept; refused = c3.refused }) c2
