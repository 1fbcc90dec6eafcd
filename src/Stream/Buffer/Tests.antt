-- ===== src/Stream/Buffer/Tests.antt =====
-- The request body's buffer at concrete inputs.
use nginx_quic_stack.Base.{◌≡◌, refl, List, [], ◌∷◌, some, arith}
use nginx_quic_stack.Stream.Buffer.{
  QueuedWriteIoBuffer, append, did_consume, read_request_body, Copied, k_default_max_buffer_size,
  get_size_to_write,
}
use nginx_quic_stack.Stream.Buffer.Queue.{
  IsValid, Appends, Consumes, append-Appends, did_consume-Consumes,
}
use nginx_quic_stack.Stream.Buffer.Reading.{ReadsBody, read_code, read_request_body-ReadsBody}
use nginx_quic_stack.Stream.Buffer.History.{
  History, Call, arrives, reads, start, run, InOrder, run-InOrder,
}

abbrev two_chunks : QueuedWriteIoBuffer
two_chunks = record {
  pending_data = (1 ∷ 2 ∷ 3 ∷ []) ∷ (4 ∷ 5 ∷ []) ∷ [];
  offset = 1;
  total_size = 4;
  max_buffer_size = 6;
}

two_chunks-IsValid : IsValid two_chunks
two_chunks-IsValid = record {
  chunks = omega arith;
  front = omega arith;
  counted = refl;
  within = omega arith;
  positive = omega arith;
}

append-Appends_example : Appends two_chunks (6 ∷ 7 ∷ 8 ∷ []) (append two_chunks (6 ∷ 7 ∷ 8 ∷ []))
append-Appends_example = append-Appends two_chunks (6 ∷ 7 ∷ 8 ∷ []) two_chunks-IsValid (omega arith)

did_consume-Consumes_example : Consumes two_chunks 2 (did_consume two_chunks 2)
unfolding get_size_to_write
did_consume-Consumes_example = did_consume-Consumes two_chunks 2 two_chunks-IsValid (omega arith)

read_request_body-ReadsBody_example :
    (c : Copied) × (read_request_body two_chunks 3 ≡ some (c, read_code c.out (2 ∷ 3 ∷ 4 ∷ 5 ∷ [])))
    × ReadsBody two_chunks 3 c
read_request_body-ReadsBody_example = read_request_body-ReadsBody two_chunks 3 two_chunks-IsValid

start-InOrder : InOrder k_default_max_buffer_size start
start-InOrder = record {
  valid = record {
    chunks = tt;
    front = refl;
    counted = refl;
    within = omega arith;
    positive = omega arith;
  };
  limit = refl;
  conserved = refl;
}

abbrev calls : List Call
calls = arrives (1 ∷ 2 ∷ []) ∷ reads 1 ∷ arrives (3 ∷ []) ∷ reads 9 ∷ reads 1 ∷ []

run-InOrder_example :
    (h : History) × (run start calls ≡ some h) × InOrder k_default_max_buffer_size h
run-InOrder_example = run-InOrder k_default_max_buffer_size start calls start-InOrder (omega arith)
