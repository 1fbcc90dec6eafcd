-- ===== src/Http/Encodings/Accepted.antt =====
-- Which encodings `ParseAcceptEncoding` allows.
use nginx_quic_stack.Base.{
  Bool, true, false, ◌&&◌, ◌||◌, not, List, [], ◌∷◌, is_nil, Bool-cases, inl, inr, ◌⊎◌, ◌≡◌, refl,
  ◌∙◌, sym, arith,
}
use nginx_quic_stack.Base.Bytes.{Bytes, codes, same}
use nginx_quic_stack.Http.Ascii.{AsciiCase}
use nginx_quic_stack.Http.Encodings.{
  has_text, insert_text, EncodingEntry, refused, passed_over, allowed, accept_entry, accept_entries,
  completed, parse_accept_encoding,
}
use nginx_quic_stack.Http.Pieces.{StringPiece, contains, text_of}
use nginx_quic_stack.Http.Tokens.{StringTokenizer}
use nginx_quic_stack.Http.Encodings.Mirrored.{in_completed, has_text-insert_text, has_text-complete}

entry_cases :
    (r : EncodingEntry)
    → (r ≡ refused) ⊎ ((r ≡ passed_over) ⊎ ((encoding : Bytes) × (r ≡ allowed encoding)))
entry_cases refused = inl refl
entry_cases passed_over = inr (inl refl)
entry_cases (allowed encoding) = inr (inr (encoding, refl))

in_completed-set :
    (set : List Bytes) (some_allowed : Bool) (allows : Bytes → Bool) (e : Bytes)
    → is_nil set ≡ not some_allowed
    → ((u : Bytes) → has_text u set ≡ allows u)
    → in_completed (λ u. has_text u set) (not (is_nil set)) e ≡ in_completed allows some_allowed e
in_completed-set set some_allowed allows e empty members =
    rw
      (
        empty,
        members e,
        members (codes "gzip"),
        members (codes "x-gzip"),
        members (codes "compress"),
        members (codes "x-compress"),
      )
      (ground arith)

module _ (ascii : AsciiCase) where
  -- No entry that ends the parse; the entries that allow an encoding; and that there is one.
  abbrev pub none_refused : List StringPiece → Bool
  none_refused [] = true
  none_refused (token ∷ tokens) = elim (accept_entry ascii (text_of token)) [
    | refused ↦ false
    | _ ↦ none_refused tokens
  ]

  abbrev pub allowed_by : List StringPiece → Bytes → Bool
  allowed_by [] e = false
  allowed_by (token ∷ tokens) e = elim (accept_entry ascii (text_of token)) [
    | allowed encoding ↦ same e encoding || allowed_by tokens e
    | _ ↦ allowed_by tokens e
  ]

  abbrev pub allows_some : List StringPiece → Bool
  allows_some [] = false
  allows_some (token ∷ tokens) = elim (accept_entry ascii (text_of token)) [
    | allowed encoding ↦ true
    | _ ↦ allows_some tokens
  ]

  -- What the loop gives: whether no entry is refused, and then the encodings that were there and
  -- those that the entries allow.
  abbrev Collects : List StringPiece → List Bytes → Bool × List Bytes → Type 0
  Collects tokens set r =
      (r.0 ≡ none_refused tokens)
      × (none_refused tokens ≡ true
          → (is_nil r.1 ≡ is_nil set && not (allows_some tokens))
            × ((e : Bytes) → has_text e r.1 ≡ has_text e set || allowed_by tokens e))

  is_nil-insert_text : (t : Bytes) (set : List Bytes) → is_nil (insert_text t set) ≡ false
  is_nil-insert_text t [] = refl
  is_nil-insert_text t (u ∷ set) = ground arith

  allow-Collects :
      (encoding : Bytes) (token : StringPiece) (tokens : List StringPiece) (set : List Bytes)
      → accept_entry ascii (text_of token) ≡ allowed encoding
      → Collects tokens
          (insert_text encoding set)
          (accept_entries ascii tokens (insert_text encoding set))
      → Collects (token ∷ tokens) set (accept_entries ascii (token ∷ tokens) set)
  unfolding accept_entries
  allow-Collects encoding token tokens set r (result, collects) =
      rw (r, accept_entries, none_refused, allows_some, allowed_by)
        (
          result,
          λ ok. (
            (collects ok).0 ∙ ground (arith, is_nil-insert_text encoding set),
            λ e. (collects ok).1 e ∙ ground (arith, has_text-insert_text e encoding set),
          ),
        )

  accept_entries-Collects :
      (tokens : List StringPiece) (set : List Bytes)
      → Collects tokens set (accept_entries ascii tokens set)
  unfolding accept_entries
  accept_entries-Collects [] set = (refl, λ ok. (ground arith, λ e. ground arith))
  accept_entries-Collects (token ∷ tokens) set =
      elim (entry_cases (accept_entry ascii (text_of token))) [
        | inl r ↦ rw (r, accept_entries, none_refused, allows_some, allowed_by) (refl, λ ok. cc)
        | inr (inl r) ↦
            rw (r, accept_entries, none_refused, allows_some, allowed_by)
              (accept_entries-Collects tokens set)
        | inr (inr (encoding, r)) ↦
            allow-Collects encoding token tokens set r
              (accept_entries-Collects tokens (insert_text encoding set))
      ]

  completed-Collects :
      (tokens : List StringPiece) (r : Bool × List Bytes)
      → Collects tokens [] r
      → ((completed r).0 ≡ none_refused tokens)
        × ((completed r).0 ≡ true
            → (e : Bytes)
            → has_text e (completed r).1 ≡ in_completed (allowed_by tokens) (allows_some tokens) e)
  completed-Collects tokens (false, set) (result, collects) = (result, λ ok. cc)
  completed-Collects tokens (true, set) (result, collects) = (
    result,
    λ ok e.
        has_text-complete e set
        ∙ in_completed-set set (allows_some tokens) (allowed_by tokens) e (collects (sym result)).0
            (collects (sym result)).1,
  )

  module _ (tokenizer : StringTokenizer) where
    abbrev entries_of : Bytes → List StringPiece
    entries_of text = tokenizer.tokens (codes ",") text

    -- For every text: ParseAcceptEncoding succeeds if and only if the text has no quotation mark
    -- and no entry is refused. Where it succeeds, it allows exactly the encodings that the entries
    -- allow, each also under the other name of gzip and of compress, and identity; or only "*"
    -- where the entries allow none.
    pub parse_accept_encoding-Allows :
        (text : Bytes) (old : List Bytes)
        → ((parse_accept_encoding ascii tokenizer text old).0
            ≡ not (contains b'"' text) && none_refused (entries_of text))
          × ((parse_accept_encoding ascii tokenizer text old).0 ≡ true
              → (e : Bytes)
              → has_text e (parse_accept_encoding ascii tokenizer text old).1
                ≡ in_completed (allowed_by (entries_of text)) (allows_some (entries_of text)) e)
    unfolding parse_accept_encoding
    parse_accept_encoding-Allows text old = elim (Bool-cases (contains b'"' text)) [
      | inl quotes ↦ rw quotes (refl, λ ok. cc)
      | inr plain ↦ rw plain (
          completed-Collects (entries_of text) (accept_entries ascii (entries_of text) [])
            (accept_entries-Collects (entries_of text) []))
    ]
