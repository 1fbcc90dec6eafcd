-- ===== src/Stream/Buffer.antt =====
-- `QueuedWriteIOBuffer` of src/tQuicServerStream.hh and src/tQuicServerStream.cc: the request body
-- that has arrived and has not been read. The pointer `data_` is its offset in the first pending
-- string; it is 0 when there is none, where the source holds a null pointer. The DCHECKs are
-- compiled out of a release build and are not part of the model.
pub mod Queue
pub mod Reading
pub mod History
mod Tests
use nginx_quic_stack.Base.{
  ℕ, ◌+◌, ◌-◌, ◌*◌, Bool, true, false, ◌≡◌, List, [], ◌∷◌, ◌++◌, ◌==◌, leb, if◌then◌else◌, ◌||◌,
  Option, none, some, zero, suc, length, take, drop, is_nil,
}
use nginx_quic_stack.Base.Bytes.{Bytes}
use nginx_quic_stack.Base.Int.{ℤ, pos, negsuc}
use nginx_quic_stack.Base.Word.{int32, add_int32, sub_int32, lt_int32}

pub record QueuedWriteIoBuffer : Type 0 where
  pub pending_data : List Bytes
  pub offset : ℕ
  pub total_size : ℕ
  pub max_buffer_size : ℕ

abbrev pub k_default_max_buffer_size : ℕ
k_default_max_buffer_size = 32 * 1024 * 1024

-- The constructor.
abbrev pub new_buffer : QueuedWriteIoBuffer
new_buffer = record {
  pending_data = [];
  offset = 0;
  total_size = 0;
  max_buffer_size = k_default_max_buffer_size;
}

abbrev pub is_empty : QueuedWriteIoBuffer → Bool
is_empty b = is_nil b.pending_data

unfoldable pub append : QueuedWriteIoBuffer → Bytes → QueuedWriteIoBuffer × Bool
append b bytes =
    if is_nil bytes
    then (b, true)
    else if lt_int32 b.max_buffer_size (add_int32 b.total_size (int32 (length bytes)))
    then (b, false)
    else (
      record b {
        pending_data = b.pending_data ++ bytes ∷ [];
        offset = if is_nil b.pending_data then 0 else b.offset;
        total_size = add_int32 b.total_size (length bytes);
      },
      true,
    )

-- `pending_data_.front()->size() - consumed`.
front_left : List Bytes → ℕ → ℕ
front_left [] consumed = 0
front_left (x ∷ xs) consumed = sub_int32 (length x) consumed

unfoldable pub get_size_to_write : QueuedWriteIoBuffer → ℕ
unfolding front_left
get_size_to_write b = front_left b.pending_data b.offset

pop_front : List Bytes → List Bytes
pop_front [] = []
pop_front (x ∷ xs) = xs

unfoldable pub did_consume : QueuedWriteIoBuffer → ℕ → QueuedWriteIoBuffer
unfolding pop_front
did_consume b size =
    if size == 0
    then b
    else if lt_int32 size (get_size_to_write b)
    then record b { offset = b.offset + size; total_size = sub_int32 b.total_size size }
    else record b {
      pending_data = pop_front b.pending_data;
      offset = 0;
      total_size = sub_int32 b.total_size size;
    }

-- `memcpy(_, body_->data(), n)`: the bytes behind the pointer `data_`.
front_bytes : List Bytes → ℕ → ℕ → Bytes
front_bytes [] consumed n = []
front_bytes (x ∷ xs) consumed n = take n (drop consumed x)

-- The loop of `tQuicServerStream::ReadRequestBody`. `out` holds the bytes copied so far, at the
-- offsets below `read_bytes` of the caller's array; `none` means that the fuel ran out.
pub record Copied : Type 0 where
  pub buffer : QueuedWriteIoBuffer
  pub out : Bytes
  pub read_bytes : ℕ

chunk_size : QueuedWriteIoBuffer → ℕ → ℕ
chunk_size b len = if leb len (get_size_to_write b) then len else get_size_to_write b

copy_chunk : QueuedWriteIoBuffer → Bytes → ℕ → ℕ → Copied
unfolding front_bytes
copy_chunk b out read_bytes n = record {
  buffer = did_consume b n;
  out = out ++ front_bytes b.pending_data b.offset n;
  read_bytes = add_int32 read_bytes n;
}

read_loop : ℕ → Copied → ℕ → Option Copied
unfolding chunk_size copy_chunk
read_loop zero c len = none
read_loop (suc fuel) c len =
    let n = chunk_size c.buffer len in
    let rest = read_loop fuel (copy_chunk c.buffer c.out c.read_bytes n) (len - n) in
    if is_empty c.buffer || len == 0 then some c else rest

-- The results of the API: `QUIC_STACK_OK`, `QUIC_STACK_SERVER`, `QUIC_STACK_PARAMETER` and
-- `QUIC_STACK_STREAM_CLOSED`.
abbrev pub quic_stack_ok : ℤ
quic_stack_ok = pos 0

abbrev pub quic_stack_server : ℤ
quic_stack_server = negsuc 1

abbrev pub quic_stack_parameter : ℤ
quic_stack_parameter = negsuc 2

abbrev pub quic_stack_stream_closed : ℤ
quic_stack_stream_closed = negsuc 3

-- What `ReadRequestBody` returns behind its loop.
read_result : Copied → ℤ
read_result c =
    if lt_int32 0 c.read_bytes
    then pos c.read_bytes
    else if is_empty c.buffer
    then quic_stack_stream_closed
    else quic_stack_server

-- The whole of `ReadRequestBody`, with the fuel that its loop needs at most.
unfoldable pub read_request_body : QueuedWriteIoBuffer → ℕ → Option (Copied × ℤ)
unfolding read_loop read_result
read_request_body b len =
    elim (read_loop (length b.pending_data + 2) (record { buffer = b; out = []; read_bytes = 0 })
      len) [ none ↦ none | some c ↦ some (c, read_result c) ]
