-- ===== src/Http/ResponseHeaders/Lines.antt =====
-- The loop over `EnumerateHeaderLines` on headers that stand for fields.
use nginx_quic_stack.Base.{
  ℕ, ◌≤◌, zero, suc, true, false, List, [], ◌∷◌, length, ◌≡◌, refl, ap, ◌∙◌, arith,
}
use nginx_quic_stack.Base.Bytes.{Bytes}
use nginx_quic_stack.Http.ResponseHeaders.{ParsedHeader, HttpResponseHeaders, is_continuation}
use nginx_quic_stack.Http.ResponseHeaders.Lookup.{
  HeaderEntry, entries, skip_continuations, enumerate_header_lines, header_lines,
}
use nginx_quic_stack.Http.ResponseHeaders.Printed.{Field, entries_for}
use nginx_quic_stack.Http.ResponseHeaders.Represents.{Represents}
use nginx_quic_stack.Http.ResponseHeaders.Spans.{starts_header}

abbrev pub pairs : List Field → List (Bytes × Bytes)
pairs [] = []
pairs (f ∷ fs) = (f.name, f.value) ∷ pairs fs

abbrev entry_pairs : List HeaderEntry → List (Bytes × Bytes)
entry_pairs [] = []
entry_pairs (e ∷ es) = (e.name, e.value) ∷ entry_pairs es

entry_pairs-entries_for : (fs : List Field) → entry_pairs (entries_for fs) ≡ pairs fs
entry_pairs-entries_for [] = refl
entry_pairs-entries_for (f ∷ fs) = ap (λ ps. (f.name, f.value) ∷ ps) (entry_pairs-entries_for fs)

skip_continuations_lem :
    (headers : List ParsedHeader)
    → (entries (skip_continuations headers) ≡ entries headers)
      × (starts_header (skip_continuations headers) ≡ true)
      × (length (skip_continuations headers) ≤ length headers)
unfolding entries
skip_continuations_lem [] = (refl, refl, omega arith)
skip_continuations_lem (h ∷ headers) = ground (arith, skip_continuations_lem headers)

header_lines-entries :
    (fuel : ℕ) (headers : List ParsedHeader)
    → length headers ≤ fuel
    → starts_header headers ≡ true
    → header_lines fuel headers ≡ entry_pairs (entries headers)
unfolding header_lines enumerate_header_lines entries
header_lines-entries zero [] h s = refl
header_lines-entries (suc fuel) [] h s = refl
header_lines-entries zero (p ∷ headers) h s = absurd (omega (arith, h))
header_lines-entries (suc fuel) (p ∷ headers) h s =
    let (same, starts, short) = skip_continuations_lem headers in
    let first : is_continuation p ≡ false = ground (arith, s) in
    let rest =
      header_lines-entries fuel (skip_continuations headers) (omega (arith, short, h)) starts in
    rw (first, rest, same) refl

-- For response headers that stand for a list of fields: the loop over EnumerateHeaderLines gives
-- exactly the names and values of the fields in their order, each value whole where it has been
-- split at commas.
pub header_lines-Represents :
    (h : HttpResponseHeaders) (fs : List Field)
    → Represents h fs
    → header_lines (length h.parsed) h.parsed ≡ pairs fs
header_lines-Represents h fs r =
    header_lines-entries (length h.parsed) h.parsed (omega arith) r.first
    ∙ (ap entry_pairs r.read ∙ entry_pairs-entries_for fs)
