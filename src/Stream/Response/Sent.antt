-- ===== src/Stream/Response/Sent.antt =====
-- What leaves the stream when a response is sent.
use nginx_quic_stack.Base.{
  ℕ, ◌+◌, ◌≤◌, ◌≡◌, ◌⊎◌, subst, refl, sym, ◌∙◌, ap, Bool, true, false, List, [], ◌∷◌, ◌++◌,
  if◌then◌else◌, length, take, is_nil, arith, ◌<◌, Bool-cases, inl, inr, append_assoc, append-nil,
}
use nginx_quic_stack.Base.Bytes.{Bytes, codes}
use nginx_quic_stack.Stream.State.{
  SpdyHeaderBlock, ServerStream, Effect, write_headers, write_or_buffer_body, write_trailers,
  request_header, request_body, request_close, can_write,
}
use nginx_quic_stack.Stream.Response.{
  send_headers_and_body_and_trailers, flush_response, flush_if, add_trailers, to_write_size,
  write_response_body,
}
use nginx_quic_stack.Stream.Response.Text.{decimal}

-- A call ends the stream if it carries the FIN; trailers always do.
abbrev pub carries_fin : {Block : Type 0} → Effect Block → Bool
carries_fin (write_headers h fin) = fin
carries_fin (write_or_buffer_body b fin) = fin
carries_fin (write_trailers t) = true
carries_fin _ = false

-- The last call carries the FIN, and no other does.
abbrev pub EndsOnce : {Block : Type 0} → List (Effect Block) → Type 0
EndsOnce [] = ⊥
EndsOnce (e ∷ []) = carries_fin e ≡ true
EndsOnce (e ∷ f ∷ es) = (carries_fin e ≡ false) × EndsOnce (f ∷ es)

-- The bytes of the body among the calls, and whether there are trailers.
abbrev pub body_bytes : {Block : Type 0} → List (Effect Block) → Bytes
body_bytes [] = []
body_bytes (write_or_buffer_body b fin ∷ es) = b ++ body_bytes es
body_bytes (write_headers h fin ∷ es) = body_bytes es
body_bytes (write_trailers t ∷ es) = body_bytes es
body_bytes (request_header r c x ∷ es) = body_bytes es
body_bytes (request_body c x ∷ es) = body_bytes es
body_bytes (request_close c x ∷ es) = body_bytes es
body_bytes (can_write c ∷ es) = body_bytes es

module _ (spdy : SpdyHeaderBlock) (to_lower_ascii trim_spaces : Bytes → Bytes) where
  open spdy use {Block, empty_block, assign, is_empty_block, is_empty-empty}

  pub record Sends (headers : Block) (body : Bytes) (trailers : Block) (s s' : ServerStream Block)
      : Type 0 where
    pub calls : List (Effect Block)
    pub effects : s'.effects ≡ s.effects ++ calls
    pub first :
        (fin : Bool) × (rest : List (Effect Block)) × (calls ≡ write_headers headers fin ∷ rest)
    pub ends : EndsOnce calls
    pub bytes : body_bytes calls ≡ body

  -- For every header block, body and trailers: SendHeadersAndBodyAndTrailers adds calls to those
  -- made before, the first one writes the headers, the bodies written make up exactly the body,
  -- and exactly the last call carries the FIN.
  pub send_headers_and_body_and_trailers-Sends :
      (headers : Block) (body : Bytes) (trailers : Block) (s : ServerStream Block)
      → Sends headers body trailers s (
          send_headers_and_body_and_trailers spdy to_lower_ascii trim_spaces headers body trailers
            s)
  unfolding send_headers_and_body_and_trailers
  send_headers_and_body_and_trailers-Sends headers [] trailers s =
      elim (Bool-cases (is_empty_block trailers)) [
        | inl none_left ↦ rw none_left (record {
          calls = write_headers headers true ∷ [];
          effects = refl;
          first = (true, [], refl);
          ends = refl;
          bytes = refl;
        })
        | inr more ↦ rw more (record {
          calls = write_headers headers false ∷ write_trailers trailers ∷ [];
          effects =
              append_assoc s.effects (write_headers headers false ∷ [])
                (write_trailers trailers ∷ []);
          first = (false, write_trailers trailers ∷ [], refl);
          ends = (refl, refl);
          bytes = refl;
        })
      ]
  send_headers_and_body_and_trailers-Sends headers (c ∷ cs) trailers s =
      elim (Bool-cases (is_empty_block trailers)) [
        | inl none_left ↦ rw none_left (record {
          calls = write_headers headers false ∷ write_or_buffer_body (c ∷ cs) true ∷ [];
          effects =
              append_assoc s.effects (write_headers headers false ∷ [])
                (write_or_buffer_body (c ∷ cs) true ∷ []);
          first = (false, write_or_buffer_body (c ∷ cs) true ∷ [], refl);
          ends = (refl, refl);
          bytes = append-nil (c ∷ cs);
        })
        | inr more ↦ rw more (record {
          calls =
              write_headers headers false
              ∷ write_or_buffer_body (c ∷ cs) false
              ∷ write_trailers trailers
              ∷ [];
          effects = simp append_assoc;
          first = (false, write_or_buffer_body (c ∷ cs) false ∷ write_trailers trailers ∷ [], refl);
          ends = (refl, (refl, refl));
          bytes = append-nil (c ∷ cs);
        })
      ]

  -- The calls that `FlushResponse` makes.
  abbrev pub flushed : Block → Bytes → List (Effect Block)
  flushed headers body =
      let h = assign (codes "content-length") (decimal (length body)) headers in
      if is_nil body
      then write_headers h true ∷ []
      else write_headers h false ∷ write_or_buffer_body body true ∷ []

  pub flush_response_lem :
      (s : ServerStream Block)
      → (flush_response spdy to_lower_ascii trim_spaces s).effects
        ≡ s.effects ++ flushed s.response_headers s.response_body
  unfolding flush_response
  flush_response_lem s = elim (Bool-cases (is_nil s.response_body)) [
    | inl e ↦ rw (e, is_empty-empty) refl
    | inr e ↦ rw (e, is_empty-empty) (append_assoc s.effects _ _)
  ]

  -- One call of `WriteResponseBody`, with what is buffered below the stream at the time.
  pub record Write : Type 0 where
    pub buffered : ℕ
    pub bytes : Bytes
    pub trailers : Bytes
    pub limit : ℕ

  abbrev pub taken_of : Write → Bytes
  taken_of w =
      take (to_write_size spdy to_lower_ascii trim_spaces (length w.bytes) w.limit w.buffered)
        w.bytes

  abbrev pub taken : List Write → Bytes
  taken [] = []
  taken (w ∷ ws) = taken_of w ++ taken ws

  abbrev pub write : Bool → Write → ServerStream Block → ServerStream Block × ℕ
  write fin w s =
      write_response_body spdy to_lower_ascii trim_spaces w.buffered w.bytes w.trailers w.limit fin
        s

  -- Calls that are not the last, and then the last one.
  pub respond : List Write → Write → ServerStream Block → ServerStream Block
  respond [] last s = (write true last s).0
  respond (w ∷ ws) last s = respond ws last (write false w s).0

  write-false :
      (w : Write) (s : ServerStream Block)
      → ((write false w s).0.effects ≡ s.effects)
        × ((write false w s).0.response_headers ≡ s.response_headers)
        × ((write false w s).0.response_body ≡ s.response_body ++ taken_of w)
  unfolding write_response_body flush_if add_trailers
  write-false w s = (refl, refl, refl)

  write-true :
      (w : Write) (s : ServerStream Block)
      → (write true w s).0.effects
        ≡ s.effects ++ flushed s.response_headers (s.response_body ++ taken_of w)
  unfolding write_response_body flush_if add_trailers
  write-true w s = flush_response_lem _

  -- For every sequence of WriteResponseBody calls of which only the last is final, on any stream:
  -- the only calls that leave the stream are those for the response headers, with the
  -- content-length of the whole body, and for the body, which is what the stream held before
  -- followed by the bytes taken in the order of the calls; no trailers are written, whatever
  -- trailers the calls were given.
  pub respond_lem :
      (ws : List Write) (last : Write) (s : ServerStream Block)
      → (respond ws last s).effects
        ≡ s.effects ++ flushed s.response_headers (s.response_body ++ taken (ws ++ last ∷ []))
  unfolding respond
  respond_lem [] last s =
      write-true last s
      ∙ ap (λ b. s.effects ++ flushed s.response_headers (s.response_body ++ b))
          (sym (append-nil (taken_of last)))
  respond_lem (w ∷ ws) last s =
      let (effects, headers, body) = write-false w s in
      respond_lem ws last (write false w s).0
      ∙ rw (effects, headers, body)
          (ap (λ b. s.effects ++ flushed s.response_headers b)
            (append_assoc s.response_body (taken_of w) (taken (ws ++ last ∷ []))))

  -- What `WriteResponseBody` makes of the stream when it appends some bytes: they stand behind the
  -- body, or, if it is the last call, leave the stream behind the body, with the headers.
  abbrev pub Appended : Bool → Bytes → ServerStream Block → ServerStream Block → Type 0
  Appended false bytes s s' =
      (s'.response_body ≡ s.response_body ++ bytes)
      × ((s'.response_headers ≡ s.response_headers) × (s'.effects ≡ s.effects))
  Appended true bytes s s' =
      (s'.response_body ≡ s.response_body ++ bytes)
      × (s'.effects ≡ s.effects ++ flushed s.response_headers (s.response_body ++ bytes))

  -- A call of `WriteResponseBody` that gives a stream and a number.
  pub record Takes (fin : Bool) (w : Write) (s s' : ServerStream Block) (n : ℕ) : Type 0 where
    pub within : n ≤ length w.bytes
    pub limited : 0 < w.limit → (w.buffered + n ≤ w.limit) ⊎ (n ≡ 0)
    pub greedy : n < length w.bytes → (0 < w.limit) × (w.limit ≤ w.buffered + n)
    pub appended : Appended fin (take n w.bytes) s s'

  response_body-flush_response :
      (s : ServerStream Block)
      → (flush_response spdy to_lower_ascii trim_spaces s).response_body ≡ s.response_body
  unfolding flush_response send_headers_and_body_and_trailers
  response_body-flush_response s = elim (Bool-cases (is_nil s.response_body)) [
    | inl e ↦ rw (e, is_empty-empty) refl
    | inr e ↦ rw (e, is_empty-empty) refl
  ]

  response_body-write :
      (w : Write) (s : ServerStream Block)
      → (write true w s).0.response_body ≡ s.response_body ++ taken_of w
  unfolding write_response_body flush_if add_trailers
  response_body-write w s = response_body-flush_response _

  write-Appended :
      (fin : Bool) (w : Write) (s : ServerStream Block)
      → Appended fin (taken_of w) s (write fin w s).0
  write-Appended false w s =
      let (effects, headers, body) = write-false w s in (body, (headers, effects))
  write-Appended true w s = (response_body-write w s, write-true w s)

  write_number :
      (fin : Bool) (w : Write) (s : ServerStream Block)
      → (write fin w s).1
        ≡ to_write_size spdy to_lower_ascii trim_spaces (length w.bytes) w.limit w.buffered
  unfolding write_response_body
  write_number fin w s = refl

  -- For every call of WriteResponseBody, with the number n that it returns: n is at most the
  -- length given; with a positive limit, n more bytes do not bring what is buffered above the
  -- limit, or n is 0; if n is less than the length, there is a positive limit, and it is reached.
  -- The first n bytes given stand behind the body of before, and no others: if the call is not the
  -- last, the headers and what has left the stream are as they were; if it is, the headers, with
  -- the content-length of this body, and this body leave the stream.
  pub write_response_body-Takes :
      (fin : Bool) (w : Write) (s : ServerStream Block)
      → Takes fin w s (write fin w s).0 (write fin w s).1
  unfolding to_write_size
  write_response_body-Takes fin w s =
      let number = write_number fin w s in
      record {
        within = ground (arith, number);
        limited = λ h. ground (arith, number);
        greedy = λ h. ground (arith, number);
        appended =
            subst (λ n. Appended fin (take n w.bytes) s (write fin w s).0) (sym number)
              (write-Appended fin w s);
      }
