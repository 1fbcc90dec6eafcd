-- ===== src/Stream/Buffer/Queue.antt =====
-- The buffer as a queue of bytes: what is pending, in the order of arrival.
use nginx_quic_stack.Base.{
  ℕ, ◌+◌, ◌-◌, ◌≤◌, ◌<◌, ◌^◌, Bool, ◌≡◌, refl, ap, sym, ◌∙◌, List, [], ◌∷◌, ◌++◌, ◌==◌, leb, suc,
  if◌then◌else◌, length, drop, concat, length-append, length-drop, append-nil, arith,
  drop-append_le, drop-append_ge, drop-drop, concat-append, Bool-cases, inl, inr, is_nil, ltb,
  false, zero,
}
use nginx_quic_stack.Base.Bytes.{Bytes}
use nginx_quic_stack.Base.Word.{int32, add_int32, sub_int32, lt_int32}
use nginx_quic_stack.Stream.Buffer.{
  QueuedWriteIoBuffer, append, did_consume, get_size_to_write, front_left,
}

-- The bytes that a reader has still to get.
abbrev pub view : QueuedWriteIoBuffer → Bytes
view b = drop b.offset (concat b.pending_data)

-- No pending string is empty, and the offset stands inside the first.
abbrev pub Chunks : List Bytes → Type 0
Chunks [] = Unit {0}
Chunks (x ∷ xs) = (0 < length x) × Chunks xs

abbrev pub Front : List Bytes → ℕ → Type 0
Front [] offset = offset ≡ 0
Front (x ∷ xs) offset = offset < length x

pub record IsValid (b : QueuedWriteIoBuffer) : Type 0 where
  pub chunks : Chunks b.pending_data
  pub front : Front b.pending_data b.offset
  pub counted : b.total_size ≡ length (view b)
  pub within : b.total_size ≤ b.max_buffer_size
  pub positive : b.max_buffer_size < 2 ^ 31

Front-zero : (xs : List Bytes) → Chunks xs → Front xs 0
Front-zero [] c = refl
Front-zero (x ∷ xs) c = c.0

Chunks-concat : (xs : List Bytes) (y : Bytes) → Chunks xs → 0 < length y → Chunks (xs ++ y ∷ [])
Chunks-concat [] y c h = (h, tt)
Chunks-concat (x ∷ xs) y c h = (c.0, Chunks-concat xs y c.1 h)

-- What `Append` does to the pending strings and the offset.
view_append :
    (xs : List Bytes) (d : ℕ) (y : Bytes)
    → Front xs d
    → drop d (concat (xs ++ y ∷ [])) ≡ drop d (concat xs) ++ y
view_append [] d y h = rw (h, append-nil y)
view_append (x ∷ xs) d y h =
    rw (concat-append (x ∷ xs) (y ∷ []), append-nil y)
      (drop-append_le d (concat (x ∷ xs)) y (omega (arith, length-append x (concat xs))))

Front-is_nil : (xs : List Bytes) (d : ℕ) → Front xs d → (if is_nil xs then 0 else d) ≡ d
Front-is_nil [] d h = sym h
Front-is_nil (x ∷ xs) d h = refl

Front-concat :
    (xs : List Bytes) (d : ℕ) (y : Bytes) → Front xs d → 0 < length y → Front (xs ++ y ∷ []) d
Front-concat [] d y h p = rw h p
Front-concat (x ∷ xs) d y h p = h

-- The two outcomes of `Append`, as a queue of bytes with a bound on its length.
pub record Appends (b : QueuedWriteIoBuffer) (bytes : Bytes) (r : QueuedWriteIoBuffer × Bool)
    : Type 0 where
  pub accepted : r.1 ≡ leb (length (view b) + length bytes) b.max_buffer_size
  pub contents : view r.0 ≡ (if r.1 then view b ++ bytes else view b)
  pub kept : r.0.max_buffer_size ≡ b.max_buffer_size
  pub valid : IsValid r.0

append_nonempty :
    (b : QueuedWriteIoBuffer) (bytes : Bytes)
    → IsValid b
    → 0 < length bytes
    → b.total_size + length bytes ≤ b.max_buffer_size
    → IsValid (record b {
      pending_data = b.pending_data ++ bytes ∷ [];
      offset = if is_nil b.pending_data then 0 else b.offset;
      total_size = add_int32 b.total_size (length bytes);
    })
append_nonempty b bytes v p fits = record {
  chunks = Chunks-concat b.pending_data bytes v.chunks p;
  front =
      rw (Front-is_nil b.pending_data b.offset v.front)
        (Front-concat b.pending_data b.offset bytes v.front p);
  counted = rw (Front-is_nil b.pending_data b.offset v.front) (
      rw (view_append b.pending_data b.offset bytes v.front)
        (omega (arith, length-append (view b) bytes, v.counted, v.positive)));
  within = omega (arith, v.positive);
  positive = v.positive;
}

-- The test of `Append` is that of the sum, as long as the sum is an `int`.
append_fits :
    (b : QueuedWriteIoBuffer) (n : ℕ)
    → IsValid b
    → b.total_size + n < 2 ^ 31
    → lt_int32 b.max_buffer_size (add_int32 b.total_size (int32 n))
      ≡ ltb b.max_buffer_size (b.total_size + n)
append_fits b n v h = ground (arith, v.within, v.positive)

-- On a valid buffer, where the pending bytes and the new ones are fewer than 2 ^ 31 together:
-- Append returns true exactly if they fit in the limit, then the new bytes follow the pending
-- ones, otherwise nothing changes; the limit stays and the buffer stays valid.
pub append-Appends :
    (b : QueuedWriteIoBuffer) (bytes : Bytes)
    → IsValid b
    → length (view b) + length bytes < 2 ^ 31
    → Appends b bytes (append b bytes)
unfolding append
append-Appends b [] v h = record {
  accepted = ground (arith, v.counted, v.within);
  contents = sym (append-nil (view b));
  kept = refl;
  valid = v;
}
append-Appends b (c ∷ cs) v h =
    rw (append_fits b (suc (length cs)) v (omega (arith, v.counted)))
      (elim (Bool-cases (ltb b.max_buffer_size (b.total_size + suc (length cs)))) [
        | inl over ↦ rw over (record {
          accepted = ground (arith, v.counted);
          contents = refl;
          kept = refl;
          valid = v;
        })
        | inr fits ↦ rw fits (record {
          accepted = ground (arith, v.counted);
          contents =
              rw (Front-is_nil b.pending_data b.offset v.front)
                (view_append b.pending_data b.offset (c ∷ cs) v.front);
          kept = refl;
          valid = append_nonempty b (c ∷ cs) v (omega arith) (ground arith);
        })
      ])

-- `DidConsume` of at most the first string's rest drops as many bytes from the front.
pub record Consumes (b : QueuedWriteIoBuffer) (n : ℕ) (b' : QueuedWriteIoBuffer) : Type 0 where
  pub contents : view b' ≡ drop n (view b)
  pub kept : b'.max_buffer_size ≡ b.max_buffer_size
  pub valid : IsValid b'

front_left_bounds :
    (xs : List Bytes) (d : ℕ)
    → Front xs d
    → length (drop d (concat xs)) < 2 ^ 31
    → (front_left xs d ≤ length (drop d (concat xs)))
      × (is_nil xs ≡ false → 0 < front_left xs d)
      × (front_left xs d < 2 ^ 31)
unfolding front_left
front_left_bounds [] d h k = (omega arith, λ e. cc, omega arith)
front_left_bounds (x ∷ xs) d h k =
    let m = length-append x (concat xs) in
    let l = length-drop d (x ++ concat xs) in
    (omega (arith, m, l), λ e. omega (arith, m, l), omega (arith, m, l))

-- The rest of the first string, as the `int` of the source.
pub get_size_to_write-front :
    (b : QueuedWriteIoBuffer)
    → IsValid b
    → (get_size_to_write b ≤ length (view b))
      × (is_nil b.pending_data ≡ false → 0 < get_size_to_write b)
      × (get_size_to_write b < 2 ^ 31)
unfolding get_size_to_write
get_size_to_write-front b v =
    front_left_bounds b.pending_data b.offset v.front
      (omega (arith, v.counted, v.within, v.positive))

-- The first string is read up to its end: the view goes on with the next one.
drop_front :
    (x : Bytes) (xs : List Bytes) (d n : ℕ)
    → d + n ≡ length x
    → concat xs ≡ drop n (drop d (x ++ concat xs))
drop_front x xs d n h = sym (
    drop-drop n d (x ++ concat xs)
    ∙ drop-append_ge (d + n) x (concat xs) (omega arith)
    ∙ ap (λ k. drop k (concat xs)) {x = d + n - length x} {y = 0} (omega arith))

module _ (x : Bytes) (xs : List Bytes) (d t m n : ℕ) where
  abbrev holding : QueuedWriteIoBuffer
  holding = record { pending_data = x ∷ xs; offset = d; total_size = t; max_buffer_size = m }

  consume_part :
      IsValid holding
      → n < length x - d
      → Consumes holding n (record {
        pending_data = x ∷ xs;
        offset = d + n;
        total_size = sub_int32 t n;
        max_buffer_size = m;
      })
  consume_part v h =
      let lx = length-append x (concat xs) in
      let ld = length-drop d (x ++ concat xs) in
      let ln = length-drop (d + n) (x ++ concat xs) in
      record {
        contents = sym (drop-drop n d (x ++ concat xs));
        kept = refl;
        valid = record {
          chunks = v.chunks;
          front = omega arith;
          counted = omega (arith, lx, ld, ln, v.counted, v.within, v.positive);
          within = omega (arith, lx, ld, v.counted, v.within, v.positive);
          positive = v.positive;
        };
      }

  consume_all :
      IsValid holding
      → d + n ≡ length x
      → Consumes holding n (record {
        pending_data = xs;
        offset = 0;
        total_size = sub_int32 t n;
        max_buffer_size = m;
      })
  consume_all v h =
      let lx = length-append x (concat xs) in
      let ld = length-drop d (x ++ concat xs) in
      record {
        contents = drop_front x xs d n h;
        kept = refl;
        valid = record {
          chunks = v.chunks.1;
          front = Front-zero xs v.chunks.1;
          counted = omega (arith, lx, ld, v.counted, v.within, v.positive);
          within = omega (arith, lx, ld, v.counted, v.within, v.positive);
          positive = v.positive;
        };
      }

suc-ne-zero_test : (n : ℕ) → (suc n == 0) ≡ false
suc-ne-zero_test n = ground arith

did_consume_parts :
    (xs : List Bytes) (d t m n : ℕ)
    → IsValid (record { pending_data = xs; offset = d; total_size = t; max_buffer_size = m })
    → n ≤ front_left xs d
    → Consumes
        (record { pending_data = xs; offset = d; total_size = t; max_buffer_size = m })
        n
        (did_consume
          (record { pending_data = xs; offset = d; total_size = t; max_buffer_size = m })
          n)
unfolding did_consume get_size_to_write front_left
did_consume_parts xs d t m zero v h = record { contents = refl; kept = refl; valid = v }
did_consume_parts [] d t m (suc n) v h = absurd (omega arith)
did_consume_parts (x ∷ xs) d t m (suc n) v h =
    let lx = length-append x (concat xs) in
    let ld = length-drop d (x ++ concat xs) in
    elim (Bool-cases (lt_int32 (suc n) (sub_int32 (length x) d))) [
      | inl less ↦
          rw (suc-ne-zero_test n, less)
            (consume_part x xs d t m (suc n) v
              (ground (arith, lx, ld, v.counted, v.within, v.positive, v.front)))
      | inr all ↦
          rw (suc-ne-zero_test n, all)
            (consume_all x xs d t m (suc n) v
              (ground (arith, lx, ld, v.counted, v.within, v.positive, v.front)))
    ]

-- On a valid buffer, for a size of at most GetSizeToWrite: DidConsume drops exactly that many of
-- the pending bytes from the front, keeps the limit, and leaves a valid buffer.
pub did_consume-Consumes :
    (b : QueuedWriteIoBuffer) (n : ℕ)
    → IsValid b
    → n ≤ get_size_to_write b
    → Consumes b n (did_consume b n)
unfolding get_size_to_write
did_consume-Consumes b n v h =
    did_consume_parts b.pending_data b.offset b.total_size b.max_buffer_size n v h
