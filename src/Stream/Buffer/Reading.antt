-- ===== src/Stream/Buffer/Reading.antt =====
-- `tQuicServerStream::ReadRequestBody`, its loop round by round against the queue of bytes.
use nginx_quic_stack.Base.{
  ℕ, ◌+◌, ◌-◌, ◌≤◌, ◌<◌, ◌^◌, ◌≡◌, refl, ap, sym, ◌∙◌, List, [], ◌∷◌, ◌++◌, ◌==◌, suc,
  if◌then◌else◌, length, drop, concat, length-append, length-drop, append-nil, arith, append_assoc,
  drop-append_le, drop-drop, Bool-cases, inl, inr, is_nil, ltb, ltb→lt, ◌⊎◌, true, false, zero, min,
  take, take-append_le, length-take, take-append-take, some, ◌||◌, take-nil, drop-nil,
}
use nginx_quic_stack.Base.Bytes.{Bytes}
use nginx_quic_stack.Base.Int.{ℤ, pos}
use nginx_quic_stack.Stream.Buffer.{
  QueuedWriteIoBuffer, did_consume, get_size_to_write, front_left, front_bytes, pop_front,
  chunk_size, copy_chunk, read_loop, read_result, read_request_body, Copied, is_empty,
  quic_stack_server, quic_stack_stream_closed,
}
use nginx_quic_stack.Stream.Buffer.Queue.{
  view, IsValid, Front, did_consume-Consumes, get_size_to_write-front,
}

-- What one round copies is the front of the queue.
front_bytes-take :
    (xs : List Bytes) (d n : ℕ)
    → Front xs d
    → n ≤ front_left xs d
    → length (drop d (concat xs)) < 2 ^ 31
    → front_bytes xs d n ≡ take n (drop d (concat xs))
unfolding front_bytes front_left
front_bytes-take [] d n f h k = rw (drop-nil d) (sym (take-nil n))
front_bytes-take (x ∷ xs) d n f h k =
    let lx = length-append x (concat xs) in
    let ld = length-drop d (x ++ concat xs) in
    rw (drop-append_le d x (concat xs) (omega arith))
      (sym (take-append_le n (drop d x) (concat xs) (omega (arith, lx, ld, length-drop d x))))

-- A round that reads the first string to its end has one string less to go.
did_consume_shorter :
    (b : QueuedWriteIoBuffer) (n : ℕ)
    → (length (did_consume b n).pending_data ≤ length b.pending_data)
      × (0 < n
          → n ≡ get_size_to_write b
          → length (did_consume b n).pending_data ≡ length b.pending_data - 1)
unfolding did_consume
did_consume_shorter b n = (did_consume_le, did_consume_pops)
  where
    pop_le : (xs : List Bytes) → length (pop_front xs) ≡ length xs - 1
    pop_le [] = refl
    pop_le (x ∷ xs) = omega arith

    did_consume_le : length (did_consume b n).pending_data ≤ length b.pending_data
    did_consume_le = ground (arith, pop_le b.pending_data)

    did_consume_pops :
        0 < n
        → n ≡ get_size_to_write b
        → length (did_consume b n).pending_data ≡ length b.pending_data - 1
    did_consume_pops p e = ground (arith, pop_le b.pending_data)

pub record Reads (c : Copied) (len : ℕ) (r : Copied) : Type 0 where
  pub out : r.out ≡ c.out ++ take len (view c.buffer)
  pub counted : r.read_bytes ≡ length r.out
  pub contents : view r.buffer ≡ drop len (view c.buffer)
  pub kept : r.buffer.max_buffer_size ≡ c.buffer.max_buffer_size
  pub valid : IsValid r.buffer

-- The state of the loop: the count is that of the bytes copied, and stays an `int`.
record Going (c : Copied) : Type 0 where
  valid : IsValid c.buffer
  counted : c.read_bytes ≡ length c.out
  short : length c.out + length (view c.buffer) < 2 ^ 31

chunk_size_bounds :
    (b : QueuedWriteIoBuffer) (len : ℕ)
    → (chunk_size b len ≤ len)
      × (chunk_size b len ≤ get_size_to_write b)
      × (chunk_size b len < len → chunk_size b len ≡ get_size_to_write b)
unfolding chunk_size
chunk_size_bounds b len = (ground arith, ground arith, λ h. ground arith)

copy_chunk-Reads :
    (c : Copied) (n : ℕ)
    → Going c
    → n ≤ get_size_to_write c.buffer
    → Reads c n (copy_chunk c.buffer c.out c.read_bytes n)
unfolding copy_chunk get_size_to_write
copy_chunk-Reads c n g h =
    let b = c.buffer in
    let used = did_consume-Consumes b n g.valid h in
    let front =
      front_bytes-take b.pending_data b.offset n g.valid.front h (omega (arith, g.short)) in
    record {
      out = ap (◌++◌ c.out) front;
      counted = rw front (
          omega (
            arith,
            g.short,
            g.counted,
            length-append c.out (take n (view b)),
            length-take n (view b),
            (get_size_to_write-front b g.valid).0,
          ));
      contents = used.contents;
      kept = used.kept;
      valid = used.valid;
    }

is_nil-length : (xs : List Bytes) → is_nil xs ≡ false → 0 < length xs
is_nil-length [] h = cc
is_nil-length (x ∷ xs) h = omega arith

copy_chunk-Going :
    (c : Copied) (n : ℕ)
    → Going c
    → n ≤ get_size_to_write c.buffer
    → Going (copy_chunk c.buffer c.out c.read_bytes n)
copy_chunk-Going c n g h =
    let r = copy_chunk-Reads c n g h in
    let lo = length-append c.out (take n (view c.buffer)) in
    record {
      valid = r.valid;
      counted = r.counted;
      short =
          rw (r.out, r.contents)
            (omega
              (arith, g.short, lo, length-take n (view c.buffer), length-drop n (view c.buffer)));
    }

-- Two rounds read what one would.
Reads-trans :
    (c m r : Copied) (n len : ℕ) → n ≤ len → Reads c n m → Reads m (len - n) r → Reads c len r
Reads-trans c m r n len h a b = record {
  out =
      b.out
      ∙ rw (a.out, a.contents)
          (append_assoc c.out (take n (view c.buffer)) (take (len - n) (drop n (view c.buffer)))
            ∙ ap (◌++◌ c.out) (take-append-take n len (view c.buffer) h));
  counted = b.counted;
  contents =
      b.contents
      ∙ rw a.contents (
          drop-drop (len - n) n (view c.buffer)
          ∙ ap (λ k. drop k (view c.buffer)) {x = n + (len - n)} {y = len} (omega arith));
  kept = b.kept ∙ a.kept;
  valid = b.valid;
}

view_empty : (xs : List Bytes) (d : ℕ) → is_nil xs ≡ true → drop d (concat xs) ≡ []
view_empty [] d h = drop-nil d
view_empty (x ∷ xs) d h = cc

Reads-nothing : (c : Copied) (len : ℕ) → Going c → (len ≡ 0) ⊎ (view c.buffer ≡ []) → Reads c len c
Reads-nothing c len g (inl e) = record {
  out = rw e (sym (append-nil c.out));
  counted = g.counted;
  contents = rw e;
  kept = refl;
  valid = g.valid;
}
Reads-nothing c len g (inr e) = record {
  out = rw (e, take-nil len) (sym (append-nil c.out));
  counted = g.counted;
  contents = e ∙ sym (ap (drop len) e ∙ drop-nil len);
  kept = refl;
  valid = g.valid;
}

stop_cases :
    (c : Copied) (len : ℕ)
    → ((is_empty c.buffer || len == 0) ≡ true → (len ≡ 0) ⊎ (view c.buffer ≡ []))
      × ((is_empty c.buffer || len == 0) ≡ false
          → (is_nil c.buffer.pending_data ≡ false) × (0 < len))
stop_cases c len =
    (λ h. ground (arith, view_empty c.buffer.pending_data c.buffer.offset), λ h. ground arith)

-- A round leaves a string less, or nothing to read.
round_fuel :
    (b : QueuedWriteIoBuffer) (len fuel : ℕ)
    → IsValid b
    → is_nil b.pending_data ≡ false
    → 0 < len
    → length b.pending_data + min len 1 < suc fuel
    → length (did_consume b (chunk_size b len)).pending_data + min (len - chunk_size b len) 1 < fuel
round_fuel b len fuel v ne p f =
    let (small, inside, all) = chunk_size_bounds b len in
    let (le, pops) = did_consume_shorter b (chunk_size b len) in
    let open_front = (get_size_to_write-front b v).1 ne in
    elim (Bool-cases (ltb (chunk_size b len) len)) [
      | inl less ↦
          let full = all (ltb→lt _ _ less) in
          omega (arith, pops (omega arith) full, is_nil-length b.pending_data ne)
      | inr last ↦ omega (arith, not_lt _ _ last)
    ]
  where
    not_lt : (m n : ℕ) → ltb m n ≡ false → n ≤ m
    not_lt m n h = ground arith

-- The loop returns, and has read the first `len` bytes of the queue.
read_loop-Reads :
    (fuel : ℕ) (c : Copied) (len : ℕ)
    → Going c
    → length c.buffer.pending_data + min len 1 < fuel
    → (r : Copied) × (read_loop fuel c len ≡ some r) × Reads c len r
unfolding read_loop
read_loop-Reads zero c len g f = absurd (omega arith)
read_loop-Reads (suc fuel) c len g f = elim (Bool-cases (is_empty c.buffer || len == 0)) [
  | inl stop ↦ (c, rw stop, Reads-nothing c len g ((stop_cases c len).0 stop))
  | inr more ↦
      let (ne, p) = (stop_cases c len).1 more in
      let n = chunk_size c.buffer len in
      let m = copy_chunk c.buffer c.out c.read_bytes n in
      let (small, inside, _) = chunk_size_bounds c.buffer len in
      let (r, e, rest) =
        read_loop-Reads fuel m (len - n) (copy_chunk-Going c n g inside)
          (round_fuel c.buffer len fuel g.valid ne p f) in
      (r, rw more e, Reads-trans c m r n len small (copy_chunk-Reads c n g inside) rest)
]

-- What the caller is told: the number of bytes, or that there is no more to read.
abbrev pub read_code : Bytes → Bytes → ℤ
read_code out before =
    if ltb 0 (length out)
    then pos (length out)
    else if is_nil before
    then quic_stack_stream_closed
    else quic_stack_server

pub record ReadsBody (b : QueuedWriteIoBuffer) (len : ℕ) (c : Copied) : Type 0 where
  pub out : c.out ≡ take len (view b)
  pub contents : view c.buffer ≡ drop len (view b)
  pub kept : c.buffer.max_buffer_size ≡ b.max_buffer_size
  pub valid : IsValid c.buffer

is_empty-view : (b : QueuedWriteIoBuffer) → IsValid b → is_empty b ≡ is_nil (view b)
is_empty-view b v = elim (Bool-cases (is_empty b)) [
  | inl e ↦ rw (e, view_empty b.pending_data b.offset e)
  | inr e ↦
      let (le, open_front, _) = get_size_to_write-front b v in
      rw e (pos_nil (view b) (omega (arith, open_front e)))
]
  where
    pos_nil : (xs : Bytes) → 0 < length xs → false ≡ is_nil xs
    pos_nil [] h = absurd (omega arith)
    pos_nil (x ∷ xs) h = refl

-- Where nothing was read, the queue is as it was.
unread_nil : (len : ℕ) (xs : Bytes) → length (take len xs) ≡ 0 → is_nil (drop len xs) ≡ is_nil xs
unread_nil zero xs h = refl
unread_nil (suc len) [] h = refl
unread_nil (suc len) (x ∷ xs) h = absurd (omega arith)

read_result-code :
    (c : Copied) (len : ℕ) (before : Bytes)
    → IsValid c.buffer
    → c.read_bytes ≡ length c.out
    → length c.out < 2 ^ 31
    → c.out ≡ take len before
    → view c.buffer ≡ drop len before
    → read_result c ≡ read_code c.out before
unfolding read_result
read_result-code c len before v n short o d =
    rw (is_empty-view c.buffer v, d, n)
      (elim (Bool-cases (ltb 0 (length c.out))) [
        | inl some_read ↦ rw some_read (ground (arith, some_read))
        | inr none_read ↦ rw (unread_nil len before (rw (← o) (ground arith))) (ground arith)
      ])

-- On a valid buffer ReadRequestBody ends with the fuel of its definition; it copies the first len
-- pending bytes, or all if there are fewer, leaves the others in a valid buffer with the same
-- limit, and returns their number; where it copies none it returns QUIC_STACK_STREAM_CLOSED if
-- nothing was pending and QUIC_STACK_SERVER if something was.
pub read_request_body-ReadsBody :
    (b : QueuedWriteIoBuffer) (len : ℕ)
    → IsValid b
    → (c : Copied) × (read_request_body b len ≡ some (c, read_code c.out (view b)))
      × ReadsBody b len c
unfolding read_request_body
read_request_body-ReadsBody b len v =
    let start : Copied = record { buffer = b; out = []; read_bytes = 0 } in
    let going : Going start = record {
      valid = v;
      counted = refl;
      short = omega (arith, v.counted, v.within, v.positive);
    } in
    let (r, e, reads) = read_loop-Reads (length b.pending_data + 2) start len going (omega arith) in
    let short : length r.out < 2 ^ 31 =
      omega
        (arith, ap length reads.out, length-take len (view b), v.counted, v.within, v.positive) in
    (
      r,
      rw (e, read_request_body)
          (ap (λ code. some (r, code))
            (read_result-code r len (view b) reads.valid reads.counted short reads.out
              reads.contents)),
      record { out = reads.out; contents = reads.contents; kept = reads.kept; valid = reads.valid },
    )
