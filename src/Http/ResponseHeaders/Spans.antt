-- ===== src/Http/ResponseHeaders/Spans.antt =====
-- The headers of printed lines, each with its continuations: the entries of the parsed lines.
use nginx_quic_stack.Base.{
  ◌+◌, ◌-◌, ◌≤◌, Bool, true, false, ◌||◌, not, List, [], ◌∷◌, ◌++◌, ◌==◌, length, take, drop, ◌≡◌,
  refl, ap, sym, ◌∙◌, arith, append_assoc, length-append, subst, Bool-cases, inl, inr,
}
use nginx_quic_stack.Base.Bytes.{Bytes, codes}
use nginx_quic_stack.Http.Ascii.{AsciiCase}
use nginx_quic_stack.Http.Pieces.{StringPiece, text_of, trim_lws}
use nginx_quic_stack.Http.Texts.{take-key}
use nginx_quic_stack.Http.Tokens.{StringTokenizer, joined}
use nginx_quic_stack.Http.Util.{is_token, is_non_coalescing_header}
use nginx_quic_stack.Http.ResponseHeaders.{
  ParsedHeader, is_continuation, places, continued, headed, add_parsed, read_headers,
}
use nginx_quic_stack.Http.ResponseHeaders.Lookup.{span, last_value, entries}
use nginx_quic_stack.Http.ResponseHeaders.Ends.{
  starts_solid, ends_solid, last_trimmed, last_trimmed-Ends, first_trimmed-starts,
}
use nginx_quic_stack.Http.ResponseHeaders.Printed.{
  Field, IsField, AllFields, entry_for, entries_for, line_pieces, parsed_for, read_line-print,
  print_ended,
}

-- The next header is no continuation.
abbrev pub starts_header : List ParsedHeader → Bool
starts_header [] = true
starts_header (h ∷ headers) = not (is_continuation h)

-- A piece that ends where a text does.
abbrev EndsIn : Bytes → Bytes → StringPiece → Type 0
EndsIn text rest w = (length w.from ≡ w.size + length rest) × (w.size ≤ length text)

last_value-continued :
    (from t : Bytes) (ts : List Bytes) (rest : List ParsedHeader)
    → starts_header rest ≡ true
    → last_value
        (trim_lws (record { from = from; size = length t }))
        (continued (places (drop (length t + 1) from) ts) ++ rest)
      ≡ last_trimmed from t ts
unfolding is_continuation
last_value-continued from t [] [] h = refl
last_value-continued from t [] (next ∷ rest) h = ground (arith, h)
last_value-continued from t (u ∷ ts) rest h =
    last_value-continued (drop (length t + 1) from) u ts rest h

entries-continued :
    (values : List StringPiece) (rest : List ParsedHeader)
    → entries (continued values ++ rest) ≡ entries rest
unfolding entries is_continuation
entries-continued [] rest = refl
entries-continued (p ∷ values) rest = entries-continued values rest

span_lem :
    (text part rest : Bytes) (v w : StringPiece)
    → v.from ≡ text ++ rest
    → length part ≤ length text
    → EndsIn part rest w
    → span v w ≡ text
unfolding span
span_lem text part rest v w start short (after, inside) =
    let measure : length v.from - length w.from + w.size ≡ length text =
      omega (arith, after, inside, short, ap length start, length-append text rest) in
    ap (λ k. take k v.from) measure ∙ (ap (take (length text)) start ∙ take-key text rest)

entry_of-print :
    (f : Field) (rest : Bytes) (v w : StringPiece)
    → v.from ≡ f.value ++ rest
    → EndsIn f.value rest w
    → record {
      name = text_of (parsed_for f rest).name;
      value = span v w;
      line = span (parsed_for f rest).name w;
    }
      ≡ entry_for f
entry_of-print f rest v w start ending =
    let line = f.name ++ (codes ": " ++ f.value) in
    let whole_line : (parsed_for f rest).name.from ≡ line ++ rest =
      sym (append_assoc f.name (codes ": " ++ f.value) rest) in
    let longer : length f.value ≤ length line =
      omega (arith, length-append f.name (codes ": " ++ f.value)) in
    rw
      (
        take-key f.name (codes ": " ++ (f.value ++ rest)),
        span_lem f.value f.value rest v w start (omega arith) ending,
        span_lem line f.value rest (parsed_for f rest).name w whole_line longer ending,
      )
      refl

not_empty : (name : Bytes) → is_token name ≡ true → (length name == 0) ≡ false
unfolding is_token
not_empty [] h = cc
not_empty (c ∷ name) h = ground arith

last_value-end :
    (v : StringPiece) (rest : List ParsedHeader) → starts_header rest ≡ true → last_value v rest ≡ v
last_value-end v [] h = refl
last_value-end v (next ∷ rest) h = ground (arith, h)

-- The headers of one line come to its entry, whatever header line follows.
abbrev GivesEntry : Field → List ParsedHeader → Type 0
GivesEntry f headers =
    (rest : List ParsedHeader)
    → starts_header rest ≡ true
    → (entries (headers ++ rest) ≡ entry_for f ∷ entries rest)
      × (starts_header (headers ++ rest) ≡ true)

single-GivesEntry :
    (f : Field) (behind : Bytes) → IsField f → GivesEntry f (parsed_for f behind ∷ [])
unfolding entries is_continuation
single-GivesEntry f behind valid rest h =
    let value = (parsed_for f behind).value in
    let here =
      entry_of-print f behind value value refl (length-append f.value behind, omega arith) in
    (
      rw (not_empty f.name valid.name, last_value-end value rest h)
          (ap (λ e. e ∷ entries rest) here),
      rw (not_empty f.name valid.name) refl,
    )

headed-GivesEntry :
    (f : Field) (behind : Bytes) (ts : List Bytes)
    → IsField f
    → joined ts ≡ f.value
    → (length f.value == 0) ≡ false
    → GivesEntry f (headed (parsed_for f behind).name (places (f.value ++ behind) ts))
unfolding entries is_continuation
headed-GivesEntry f behind [] valid whole solid rest h =
    absurd (ground (arith, ap length whole, solid))
headed-GivesEntry f behind (t ∷ ts) valid whole solid rest h =
    let from = f.value ++ behind in
    let first = trim_lws (record { from = from; size = length t }) in
    let values = continued (places (drop (length t + 1) from) ts) in
    let placed = ap (λ s. s ++ behind) whole in
    let ending : EndsIn f.value behind (last_trimmed from t ts) =
      subst (λ s. EndsIn s behind (last_trimmed (s ++ behind) t ts)) whole
        (last_trimmed-Ends t ts behind (ap ends_solid whole ∙ valid.end)) in
    let start : first.from ≡ f.value ++ behind =
      subst (λ s. (trim_lws (record { from = s ++ behind; size = length t })).from ≡ s ++ behind)
        whole (first_trimmed-starts t ts behind (ap starts_solid whole ∙ valid.start)) in
    let here = entry_of-print f behind first (last_trimmed from t ts) start ending in
    (
      rw
          (
            not_empty f.name valid.name,
            last_value-continued from t ts rest h,
            entries-continued (places (drop (length t + 1) from) ts) rest,
          )
          (ap (λ e. e ∷ entries rest) here),
      rw (not_empty f.name valid.name) refl,
    )

module _ (ascii : AsciiCase) (tokenizer : StringTokenizer) where
  add_parsed-GivesEntry :
      (f : Field) (behind : Bytes)
      → IsField f
      → GivesEntry f (add_parsed ascii tokenizer (parsed_for f behind))
  unfolding add_parsed
  add_parsed-GivesEntry f behind valid =
      elim (Bool-cases (
        (length f.value == 0)
        || is_non_coalescing_header ascii (text_of (parsed_for f behind).name))) [
          | inl alone ↦ rw alone (single-GivesEntry f behind valid)
          | inr split ↦
              let same_value : text_of (parsed_for f behind).value ≡ f.value =
                take-key f.value behind in
              let whole = tokenizer.joined-comma_tokens f.value in
              rw (split, same_value)
                (headed-GivesEntry f behind (tokenizer.comma_tokens f.value) valid whole
                  (ground (arith, split)))
        ]

  pub entries-print :
      (fs : List Field)
      → AllFields fs
      → (entries (read_headers ascii tokenizer (line_pieces fs)) ≡ entries_for fs)
        × (starts_header (read_headers ascii tokenizer (line_pieces fs)) ≡ true)
  unfolding entries read_headers
  entries-print [] v = (refl, refl)
  entries-print (f ∷ fs) (v, vs) =
      let (read, starts) = entries-print fs vs in
      let rest = read_headers ascii tokenizer (line_pieces fs) in
      let (here, first) = add_parsed-GivesEntry f (0 ∷ print_ended fs) v rest starts in
      rw (read_line-print f (0 ∷ print_ended fs) v) (here ∙ ap (λ es. entry_for f ∷ es) read, first)
