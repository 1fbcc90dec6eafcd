-- ===== src/Stack/Dispatcher.antt =====
-- What `tQuicDispatcher` of src/tQuicDispatcher.cc adds to quiche's dispatcher, of which only the
-- state is named here: a count of stream errors and a callback for blocked writes.
use nginx_quic_stack.Base.{
  ℕ, ◌+◌, List, [], ◌∷◌, ◌++◌, Option, none, some, if◌then◌else◌, ◌==◌, ◌≡◌, arith,
}
use nginx_quic_stack.Base.Word.{int32, add_int32}

-- The counts are ints. A callback is its context, or `none` for a null function; `called` lists the
-- contexts that it has been called with.
pub record Dispatcher (D : Type 0) : Type 0 where
  pub base : D
  pub rst_error_map : List (ℕ × ℕ)
  pub write_blocked_cb : Option ℕ
  pub called : List ℕ

abbrev pub new_dispatcher : {D : Type 0} → D → Dispatcher D
new_dispatcher base = record {
  base = base;
  rst_error_map = [];
  write_blocked_cb = none;
  called = [];
}

abbrev pub count_in : ℕ → List (ℕ × ℕ) → ℕ
count_in error_code [] = 0
count_in error_code ((e, n) ∷ errors) =
    let rest = count_in error_code errors in if e == error_code then n else rest

-- The entry of the code is counted up, or made.
abbrev pub count_up : ℕ → List (ℕ × ℕ) → List (ℕ × ℕ)
count_up error_code [] = (error_code, 1) ∷ []
count_up error_code ((e, n) ∷ errors) =
    let rest = count_up error_code errors in
    if e == error_code then (e, add_int32 n 1) ∷ errors else (e, n) ∷ rest

abbrev call_blocked : Option ℕ → List ℕ → List ℕ
call_blocked none called = called
call_blocked (some ctx) called = called ++ ctx ∷ []

module _ {D : Type 0} where
  unfoldable pub get_rst_error_count : ℕ → Dispatcher D → ℕ
  get_rst_error_count error_code d = count_in error_code d.rst_error_map

  unfoldable pub on_rst_stream_received : ℕ → Dispatcher D → Dispatcher D
  on_rst_stream_received error_code d = record d {
    rst_error_map = count_up error_code d.rst_error_map;
  }

  unfoldable pub set_write_blocked_callback : Option ℕ → Dispatcher D → Dispatcher D
  set_write_blocked_callback cb d = record d { write_blocked_cb = cb }

  -- `block` is quiche's part.
  unfoldable pub on_write_blocked : (D → D) → Dispatcher D → Dispatcher D
  on_write_blocked block d = record d {
    base = block d.base;
    called = call_blocked d.write_blocked_cb d.called;
  }

  abbrev pub received : List ℕ → Dispatcher D → Dispatcher D
  received [] d = d
  received (e ∷ errors) d = received errors (on_rst_stream_received e d)

abbrev pub occurrences : ℕ → List ℕ → ℕ
occurrences error_code [] = 0
occurrences error_code (e ∷ errors) =
    (if e == error_code then 1 else 0) + occurrences error_code errors

count_in-count_up :
    (code e : ℕ) (errors : List (ℕ × ℕ))
    → int32 (count_in code (count_up e errors))
      ≡ int32 (count_in code errors + (if e == code then 1 else 0))
count_in-count_up code e [] = ground arith
count_in-count_up code e ((x, n) ∷ errors) = ground (arith, count_in-count_up code e errors)

module _ {D : Type 0} where
  -- For every sequence of errors of streams: GetRstErrorCount of a code has grown by the number of
  -- times that OnRstStreamReceived was called with it, up to the wrap of an int.
  pub get_rst_error_count-received :
      (code : ℕ) (errors : List ℕ) (d : Dispatcher D)
      → int32 (get_rst_error_count code (received errors d))
        ≡ int32 (get_rst_error_count code d + occurrences code errors)
  unfolding get_rst_error_count on_rst_stream_received
  get_rst_error_count-received code [] d = ground arith
  get_rst_error_count-received code (e ∷ errors) d = omega (
    arith,
    get_rst_error_count-received code errors (on_rst_stream_received e d),
    count_in-count_up code e d.rst_error_map,
  )
