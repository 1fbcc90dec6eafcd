-- ===== src/Stream/Buffer/History.antt =====
-- Histories of arrivals and reads on one buffer: what was accepted, delivered and is pending.
use nginx_quic_stack.Base.{
  ℕ, ◌+◌, ◌<◌, ◌^◌, ◌≡◌, refl, ap, sym, ◌∙◌, List, [], ◌∷◌, ◌++◌, if◌then◌else◌, length, drop, take,
  arith, Bool-cases, inl, inr, append_assoc, take-append-drop, Bool, Option, some, ◌>>=◌,
}
use nginx_quic_stack.Base.Bytes.{Bytes}
use nginx_quic_stack.Base.Int.{ℤ}
use nginx_quic_stack.Stream.Buffer.{
  QueuedWriteIoBuffer, append, read_request_body, Copied, new_buffer,
}
use nginx_quic_stack.Stream.Buffer.Queue.{view, IsValid, append-Appends}
use nginx_quic_stack.Stream.Buffer.Reading.{read_request_body-ReadsBody}

-- The calls that the stream makes of its buffer.
pub data Call : Type 0 where
  arrives : Bytes → Call
  reads : ℕ → Call

pub record History : Type 0 where
  pub buffer : QueuedWriteIoBuffer
  pub accepted : Bytes
  pub delivered : Bytes

abbrev pub start : History
start = record { buffer = new_buffer; accepted = []; delivered = [] }

after_append : History → Bytes → QueuedWriteIoBuffer × Bool → History
after_append h bytes (b, taken) = record {
  buffer = b;
  accepted = if taken then h.accepted ++ bytes else h.accepted;
  delivered = h.delivered;
}

after_read : History → Copied × ℤ → History
after_read h (c, code) = record {
  buffer = c.buffer;
  accepted = h.accepted;
  delivered = h.delivered ++ c.out;
}

pub step : History → Call → Option History
unfolding after_append after_read
step h (arrives bytes) = some (after_append h bytes (append h.buffer bytes))
step h (reads len) = read_request_body h.buffer len >>= λ r. some (after_read h r)

pub run : History → List Call → Option History
run h [] = some h
run h (c ∷ cs) = step h c >>= λ h'. run h' cs

-- Every string that arrives leaves the sum of `Append` an `int`.
abbrev pub Fits : ℕ → List Call → Type 0
Fits max [] = Unit {0}
Fits max (arrives bytes ∷ cs) = (max + length bytes < 2 ^ 31) × Fits max cs
Fits max (reads len ∷ cs) = Fits max cs

pub record InOrder (max : ℕ) (h : History) : Type 0 where
  pub valid : IsValid h.buffer
  pub limit : h.buffer.max_buffer_size ≡ max
  pub conserved : h.delivered ++ view h.buffer ≡ h.accepted

step_arrives-InOrder :
    (max : ℕ) (h : History) (bytes : Bytes)
    → InOrder max h
    → max + length bytes < 2 ^ 31
    → InOrder max (after_append h bytes (append h.buffer bytes))
unfolding after_append
step_arrives-InOrder max h bytes o fits =
    let a =
      append-Appends h.buffer bytes o.valid
        (omega (arith, o.valid.counted, o.valid.within, o.limit)) in
    record {
      valid = a.valid;
      limit = a.kept ∙ o.limit;
      conserved = elim (Bool-cases (append h.buffer bytes).1) [
        | inl taken ↦
            rw (a.contents, taken)
              (sym (append_assoc h.delivered (view h.buffer) bytes)
                ∙ ap (λ k. k ++ bytes) o.conserved)
        | inr full ↦ rw (a.contents, full) o.conserved
      ];
    }

step_reads-InOrder :
    (max : ℕ) (h : History) (len : ℕ)
    → InOrder max h
    → (h' : History) × (step h (reads len) ≡ some h') × InOrder max h'
unfolding step
step_reads-InOrder max h len o =
    let (c, e, r) = read_request_body-ReadsBody h.buffer len o.valid in
    (
      record { buffer = c.buffer; accepted = h.accepted; delivered = h.delivered ++ c.out },
      rw e,
      record {
        valid = r.valid;
        limit = r.kept ∙ o.limit;
        conserved =
            rw (r.out, r.contents)
              (append_assoc h.delivered (take len (view h.buffer)) (drop len (view h.buffer))
                ∙ ap (◌++◌ h.delivered) (take-append-drop len (view h.buffer))
                ∙ o.conserved);
      },
    )

-- For every history of arrivals and reads, from a state in order, where the limit plus the length
-- of each arriving string is below 2 ^ 31: the run ends, in a valid buffer with the same limit,
-- and the bytes delivered followed by those still pending are the bytes accepted, in their order.
pub run-InOrder :
    (max : ℕ) (h : History) (cs : List Call)
    → InOrder max h
    → Fits max cs
    → (h' : History) × (run h cs ≡ some h') × InOrder max h'
unfolding run step
run-InOrder max h [] o f = (h, refl, o)
run-InOrder max h (arrives bytes ∷ cs) o f =
    run-InOrder max (after_append h bytes (append h.buffer bytes)) cs
      (step_arrives-InOrder max h bytes o f.0) f.1
run-InOrder max h (reads len ∷ cs) o f =
    let (h', e, o') = step_reads-InOrder max h len o in
    let (h'', e', o'') = run-InOrder max h' cs o' f in (h'', rw e e', o'')
