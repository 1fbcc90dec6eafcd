-- ===== src/Stack/Tests.antt =====
-- The interface of the stack at concrete inputs.
use nginx_quic_stack.Base.{
  ℕ, ◌≤◌, ◌<◌, length, false, ◌||◌, ◌≡◌, List, [], ◌∷◌, some, none, arith, refl, true,
  if◌then◌else◌, ◌==◌,
}
use nginx_quic_stack.Base.Int.{pos}
use nginx_quic_stack.Concrete.{ascii_case, header_list_block}
use nginx_quic_stack.Concrete.Tokenizer.{one_pass_tokenizer, digit_reader}
use nginx_quic_stack.Stack.Isolated.{
  Call, write_header, write_body, add_callback, run_calls, apply_own, run_calls-apply_own,
}
use nginx_quic_stack.Stack.Responses.{Sessions}
use nginx_quic_stack.Stack.Streams.{close_stream}
use nginx_quic_stack.Stack.Versions.{
  ParsedQuicVersion, quic_stack_supported_versions, quic_stack_supported_versions_lem,
}
use nginx_quic_stack.Stream.Request.{Surroundings}
use nginx_quic_stack.Stream.Response.Text.{digits, decimal}
use nginx_quic_stack.Stream.State.{new_stream}
use nginx_quic_stack.Alarm.Queue.{AlarmQueue, new_queue}
use nginx_quic_stack.Base.Bytes.{codes, same}
use nginx_quic_stack.Stream.Buffer.{QueuedWriteIoBuffer, quic_stack_server, quic_stack_parameter}
use nginx_quic_stack.Stream.Buffer.Queue.{IsValid}
use nginx_quic_stack.Stack.Sessions.{Session, RequestId, get_stream}
use nginx_quic_stack.Stack.Requests.{
  Answer, Reads, quic_stack_read_request_body, quic_stack_read_request_body-Reads,
}

abbrev armed : AlarmQueue
armed = record new_queue {
  alarm_map = record { timeout = pos 2500; cb = 1; node = 0 } ∷ [];
  all_alarms = 1 ∷ [];
  next_node = 1;
}

-- One session with one stream, of three bytes.
abbrev three_bytes : QueuedWriteIoBuffer
three_bytes = record {
  pending_data = (1 ∷ 2 ∷ 3 ∷ []) ∷ [];
  offset = 0;
  total_size = 3;
  max_buffer_size = 6;
}

three_bytes-IsValid : IsValid three_bytes
three_bytes-IsValid = record {
  chunks = omega arith;
  front = omega arith;
  counted = refl;
  within = omega arith;
  positive = omega arith;
}

abbrev only_session : List (Session QueuedWriteIoBuffer)
only_session =
    record { connection_id = 9 ∷ []; streams = λ k. if k == 4 then some three_bytes else none } ∷ []

abbrev fourth : RequestId
fourth = record { connection_data = 9 ∷ []; stream_id = 4 }

fourth_found : get_stream fourth only_session ≡ some three_bytes
unfolding get_stream same
fourth_found = refl

quic_stack_read_request_body-Reads_example :
    (a : Answer) × ((quic_stack_read_request_body (some only_session) (some fourth) true 2 ≡ some a)
      × Reads fourth 2 three_bytes only_session a)
quic_stack_read_request_body-Reads_example =
    quic_stack_read_request_body-Reads fourth 2 three_bytes only_session (omega arith) fourth_found
      three_bytes-IsValid

null_handler_read :
    quic_stack_read_request_body none (some fourth) true 2
    ≡ some (record { handler = none; out = []; code = quic_stack_parameter })
unfolding quic_stack_read_request_body
null_handler_read = refl

no_session_read :
    quic_stack_read_request_body (some []) (some fourth) true 2
    ≡ some (record { handler = some []; out = []; code = quic_stack_server })
unfolding quic_stack_read_request_body get_stream
no_session_read = refl

abbrev env : Surroundings
env = record {
  spdy = header_list_block;
  ascii = ascii_case;
  trim_spaces = λ b. b;
  uint64_to_string = decimal;
  string_to_uint64 = λ b. none;
  match_pattern = same;
  callback = record {
    on_request_header_cb = none;
    on_request_body_cb = none;
    on_request_close_cb = false;
  };
  servers = [];
}

abbrev fifth : RequestId
fifth = record { connection_data = 9 ∷ []; stream_id = 5 }

-- One session with two streams.
abbrev two_streams : Sessions env one_pass_tokenizer digit_reader
two_streams =
    record {
      connection_id = 9 ∷ [];
      streams = λ k.
          if (k == 4) || (k == 5) then some (new_stream header_list_block.empty_block 0) else none;
    }
    ∷ []

abbrev mixed_calls : List (RequestId × Call)
mixed_calls =
    (fourth, write_body 0 (codes "ab") [] 0 false)
    ∷ (fifth, write_body 0 (codes "cd") [] 0 false)
    ∷ (fourth, write_header [] [] false)
    ∷ (fourth, add_callback (some 3))
    ∷ []

run_calls-apply_own_example :
    (after : Sessions env one_pass_tokenizer digit_reader) × (run_calls env one_pass_tokenizer
        digit_reader mixed_calls
        (some two_streams)
      ≡ some after)
    × (get_stream fourth after
        ≡ some (
            apply_own env one_pass_tokenizer digit_reader fourth mixed_calls
              (new_stream header_list_block.empty_block 0)))
unfolding get_stream same
run_calls-apply_own_example =
    run_calls-apply_own env one_pass_tokenizer digit_reader fourth mixed_calls two_streams
      (new_stream header_list_block.empty_block 0) refl

-- Quiche's session when it closes a stream.
abbrev forget : ℕ → Session QueuedWriteIoBuffer → Session QueuedWriteIoBuffer
forget id s = record s { streams = λ k. if k == id then none else s.streams k }

closed_fourth : get_stream fourth (close_stream forget fourth only_session) ≡ none
unfolding close_stream get_stream same
closed_fourth = refl

abbrev versions : List ParsedQuicVersion
versions =
    record { is_quic_crypto = true; transport_version = 46 }
    ∷ record { is_quic_crypto = false; transport_version = 70 }
    ∷ record { is_quic_crypto = true; transport_version = 50 }
    ∷ []

two_versions :
    (quic_stack_supported_versions true versions 5 ≡ (codes "46,50", pos 5))
    × (quic_stack_supported_versions true versions 4 ≡ ([], quic_stack_server))
unfolding quic_stack_supported_versions
two_versions = (refl, refl)

quic_stack_supported_versions_lem_example :
    (5 ≤ 8 → quic_stack_supported_versions true versions 8 ≡ (codes "46,50", pos 5))
    × (8 < 5 → quic_stack_supported_versions true versions 8 ≡ ([], quic_stack_server))
    × (length (quic_stack_supported_versions true versions 8).0 ≤ 8)
unfolding decimal digits
quic_stack_supported_versions_lem_example = quic_stack_supported_versions_lem versions 8
