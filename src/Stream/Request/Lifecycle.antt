-- ===== src/Stream/Request/Lifecycle.antt =====
-- The life of a request: sequences of events on a stream, and what its server is told of the close.
use nginx_quic_stack.Base.{
  ℕ, ◌≤◌, ◌≡◌, refl, ◌∙◌, Bool, true, false, List, [], ◌∷◌, Option, none, some, if◌then◌else◌,
  arith, is_nil, ◌>>=◌, if_both, subst,
}
use nginx_quic_stack.Base.Bytes.{Bytes, codes}
use nginx_quic_stack.Stream.Response.{write_response_body, flush_if, flush_response, add_trailers}
use nginx_quic_stack.Base.Int.{pos, eqb_ℤ}
use nginx_quic_stack.Http.ResponseHeaders.{HttpResponseHeaders, try_to_create}
use nginx_quic_stack.Http.Tokens.{StringTokenizer, IntReader}
use nginx_quic_stack.Stream.Response.Header.{written, write_response_header}
use nginx_quic_stack.Stream.State.{
  ServerStream, ServerPointer, unset, null, points, request_close, can_write, new_stream,
}
use nginx_quic_stack.Stream.Request.{
  Surroundings, close_to, on_close, on_initial_headers_complete, on_trailing_headers_complete,
  on_body_available, call_can_write, on_can_write_new_data, add_on_can_write_callback,
}
use nginx_quic_stack.Stream.Request.Calm.{
  closes, closes-concat, Calm, Calm-refl, sends-Calm, error-Calm, CalmResult, body_available-Calm,
  initial_headers-Calm,
}

module _ (env : Surroundings) where
  open env use {spdy, ascii, trim_spaces, string_to_uint64, match_pattern, callback, servers}
  open spdy use {Block, empty_block, assign, is_empty_block}

  -- What may happen to a stream.
  pub data Happening : Type 0 where
    initial_headers : Bool → List (Bytes × Bytes) → Happening
    trailing_headers : Happening
    body_available : List Bytes → Bool → Bool → Happening
    close : Happening
    can_write_new_data : Happening
    can_write_callback : Option ℕ → Happening
    response_header : StringTokenizer → IntReader → Bytes → Bytes → Bool → Happening
    response_body : ℕ → Bytes → Bytes → ℕ → Bool → Happening

  unfoldable pub handle : ServerStream Block → Happening → Option (ServerStream Block)
  handle s (initial_headers fin hs) = some (on_initial_headers_complete env fin hs s)
  handle s trailing_headers = some (on_trailing_headers_complete env s)
  handle s (body_available regions closed done) = on_body_available env regions closed done s
  handle s close = on_close env s
  handle s can_write_new_data = some (on_can_write_new_data env s)
  handle s (can_write_callback cb) = some (add_on_can_write_callback env cb s)
  handle s (response_header tokenizer numbers header trailers fin) =
      some (write_response_header spdy ascii tokenizer numbers trim_spaces header trailers fin s).0
  handle s (response_body buffered bytes trailers limit fin) =
      some
        (write_response_body spdy ascii.to_lower_ascii trim_spaces buffered bytes trailers limit fin
          s).0

  unfoldable pub handle_all : ServerStream Block → List Happening → Option (ServerStream Block)
  handle_all s [] = some s
  handle_all s (h ∷ hs) = handle s h >>= λ t. handle_all t hs

  -- At most one close, and none while the request is alive.
  record Once (s : ServerStream Block) : Type 0 where
    few : closes s.effects ≤ 1
    alive : s.is_new_ok ≡ true → closes s.effects ≡ 0

  abbrev OnceResult : Option (ServerStream Block) → Type 0
  OnceResult none = Unit {0}
  OnceResult (some s) = Once s

  Calm-Once : (s t : ServerStream Block) → Calm s t → Once s → Once t
  Calm-Once s t c o = record {
    few = omega (arith, c.kept, o.few);
    alive = λ h. ground (arith, c.kept, c.refused, o.alive);
  }

  CalmResult-Once :
      (s : ServerStream Block) (o : Option (ServerStream Block))
      → CalmResult env s o
      → Once s
      → OnceResult o
  CalmResult-Once s none c o = tt
  CalmResult-Once s (some t) c o = Calm-Once s t c o

  close_to-Once :
      (q : ServerPointer) (s : ServerStream Block)
      → closes s.effects ≡ 0
      → OnceResult (close_to env q s >>= λ t. some (record t { is_new_ok = false }))
  unfolding close_to
  close_to-Once unset s h = tt
  close_to-Once null s h = record { few = omega (arith, h); alive = λ k. ground arith }
  close_to-Once (points server) s h =
      if_both {A = ServerStream Block} (λ t. OnceResult (some (record t { is_new_ok = false })))
        callback.on_request_close_cb
        (record {
          few = omega (arith, h, closes-concat s.effects (request_close s.callback_ctx server.ctx));
          alive = λ k. ground arith;
        })
        (record { few = omega (arith, h); alive = λ k. ground arith })

  -- A refused stream is closed with no call.
  close_if-Once :
      (b : Bool) (s : ServerStream Block)
      → (b ≡ true → closes s.effects ≡ 0)
      → closes s.effects ≤ 1
      → OnceResult (
          (if b then close_to env s.qsi s else some s) >>= λ t.
          some (record t { is_new_ok = false }))
  close_if-Once true s alive few = close_to-Once s.qsi s (alive refl)
  close_if-Once false s alive few = record { few = few; alive = λ k. ground arith }

  close-Once : (s : ServerStream Block) → Once s → OnceResult (on_close env s)
  unfolding on_close
  close-Once s o = close_if-Once s.is_new_ok s o.alive o.few

  call_can_write-Calm : (cb : Option ℕ) (s : ServerStream Block) → Calm s (call_can_write env cb s)
  unfolding call_can_write
  call_can_write-Calm none s = Calm-refl s
  call_can_write-Calm (some ctx) s = record {
    kept = closes-concat s.effects (can_write ctx) ∙ omega arith;
    refused = λ h. h;
  }

  new_data-Calm : (s : ServerStream Block) → Calm s (on_can_write_new_data env s)
  unfolding on_can_write_new_data
  new_data-Calm s =
      let c = call_can_write-Calm s.can_write_cb (record s { can_write_cb = none }) in
      record { kept = c.kept; refused = c.refused }

  flush_if-Calm :
      (fin : Bool) (s : ServerStream Block)
      → Calm s (flush_if spdy ascii.to_lower_ascii trim_spaces fin s)
  unfolding flush_if flush_response
  flush_if-Calm true s =
      let c =
        sends-Calm env _ s.response_body empty_block
          (record s { response_headers = empty_block }) in
      record { kept = c.kept; refused = c.refused }
  flush_if-Calm false s = Calm-refl s

  written-Calm :
      (tokenizer : StringTokenizer) (numbers : IntReader) (trailers : Bytes) (fin : Bool)
      (h : Option HttpResponseHeaders) (s : ServerStream Block)
      → Calm s (written spdy ascii tokenizer numbers trim_spaces trailers fin h s).0
  unfolding add_trailers
  written-Calm tokenizer numbers trailers fin none s = Calm-refl s
  written-Calm tokenizer numbers trailers fin (some h) s =
      let c = flush_if-Calm fin _ in
      if_both (λ (r : ServerStream Block × Bool). Calm s r.0) (eqb_ℤ h.response_code (pos 0))
        (Calm-refl s) (record { kept = c.kept; refused = c.refused })

  response_header-Calm :
      (tokenizer : StringTokenizer) (numbers : IntReader) (header trailers : Bytes) (fin : Bool)
      (s : ServerStream Block)
      → Calm s
          (write_response_header spdy ascii tokenizer numbers trim_spaces header trailers fin s).0
  unfolding write_response_header add_trailers
  response_header-Calm tokenizer numbers header trailers fin s =
      if_both (λ (r : ServerStream Block × Bool). Calm s r.0) (is_nil header) (Calm-refl s)
        (written-Calm tokenizer numbers trailers fin (try_to_create ascii tokenizer numbers header)
          s)

  response_body-Calm :
      (buffered : ℕ) (bytes trailers : Bytes) (limit : ℕ) (fin : Bool) (s : ServerStream Block)
      → Calm s
          (write_response_body spdy ascii.to_lower_ascii trim_spaces buffered bytes trailers limit
            fin s).0
  unfolding write_response_body add_trailers
  response_body-Calm buffered bytes trailers limit fin s =
      let c = flush_if-Calm fin _ in record { kept = c.kept; refused = c.refused }

  handle-Once : (s : ServerStream Block) (h : Happening) → Once s → OnceResult (handle s h)
  unfolding handle on_trailing_headers_complete add_on_can_write_callback
  handle-Once s (initial_headers fin hs) o = Calm-Once s _ (initial_headers-Calm env fin hs s) o
  handle-Once s trailing_headers o = Calm-Once s _ (error-Calm env 0 (codes "bad") s) o
  handle-Once s (body_available regions closed done) o =
      CalmResult-Once s _ (body_available-Calm env regions closed done s) o
  handle-Once s close o = close-Once s o
  handle-Once s can_write_new_data o = Calm-Once s _ (new_data-Calm s) o
  handle-Once s (can_write_callback cb) o = record { few = o.few; alive = o.alive }
  handle-Once s (response_header tokenizer numbers header trailers fin) o =
      Calm-Once s _ (response_header-Calm tokenizer numbers header trailers fin s) o
  handle-Once s (response_body buffered bytes trailers limit fin) o =
      Calm-Once s _ (response_body-Calm buffered bytes trailers limit fin s) o

  after-Once :
      (o : Option (ServerStream Block)) (hs : List Happening)
      → ((s : ServerStream Block) → Once s → OnceResult (handle_all s hs))
      → OnceResult o
      → OnceResult (o >>= λ t. handle_all t hs)
  after-Once none hs rest o = tt
  after-Once (some t) hs rest o = rest t o

  handle_all-Once :
      (hs : List Happening) (s : ServerStream Block) → Once s → OnceResult (handle_all s hs)
  unfolding handle_all
  handle_all-Once [] s o = o
  handle_all-Once (h ∷ hs) s o = after-Once (handle s h) hs (handle_all-Once hs) (handle-Once s h o)

  -- For every stream context and every sequence of events on a new stream (headers, trailers, body
  -- data, closes, writability, callbacks registered, response heads and bytes written), where no
  -- event reads qsi_ before it is set: the server's OnRequestClose is called at most once.
  pub handle_all-closes :
      (ctx : ℕ) (hs : List Happening) (s : ServerStream Block)
      → handle_all (new_stream empty_block ctx) hs ≡ some s
      → closes s.effects ≤ 1
  handle_all-closes ctx hs s done =
      (subst OnceResult done (
        handle_all-Once hs (new_stream empty_block ctx)
          (record { few = omega arith; alive = λ k. refl }))).few
