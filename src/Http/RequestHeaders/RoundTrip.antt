-- ===== src/Http/RequestHeaders/RoundTrip.antt =====
-- Headers that are printed and read again.
use nginx_quic_stack.Base.{
  ℕ, ◌+◌, suc, Bool, true, false, ◌||◌, List, [], ◌∷◌, ◌++◌, none, ltb, all, is_nil, length, take,
  drop, ◌≡◌, refl, ap, sym, ◌∙◌, arith, append_assoc, append-nil, length-append, subst,
}
use nginx_quic_stack.Base.Bytes.{Bytes, codes}
use nginx_quic_stack.Http.Ascii.{AsciiCase}
use nginx_quic_stack.Http.Pieces.{
  contains, is_space, c_str, text_of, whole, trim_left, trim_right, trim_lws,
}
use nginx_quic_stack.Http.Texts.{
  take-length, char_at-last, contains-token, contains-append, contains-value, c_str_lem,
  find_char-key, take-key, drop-key, last_of-append, contains-key,
}
use nginx_quic_stack.Http.Util.{
  is_token_char, is_token, is_valid_header_name, is_valid_header_value,
}
use nginx_quic_stack.Http.RequestHeaders.{
  HeaderKeyValuePair, HttpRequestHeaders, get_header, find_header, set_header, lines_of,
  header_line, to_string,
}
use nginx_quic_stack.Http.RequestHeaders.Laws.{Unique, eq_ci_comm, get_header-cons}
use nginx_quic_stack.Http.RequestHeaders.FromString.{
  add_header_found, is_solid, LineSplitter, add_header_at, add_header_from_string, add_lines,
  add_headers_from_string,
}

-- A value as `TrimLWS` leaves it.
abbrev pub is_trimmed : Bytes → Bool
is_trimmed text = is_nil text || is_solid text

-- Trimming what stands behind the colon.
trim_value :
    (text : Bytes) → is_trimmed text ≡ true → text_of (trim_lws (whole (b' ' ∷ text))) ≡ text
unfolding trim_lws trim_left trim_right
trim_value [] h = refl
trim_value (c ∷ text) h = ground (arith, char_at-last c text, take-length text)

-- A header that is printed and read without a change.
pub record IsPrintable (h : HeaderKeyValuePair) : Type 0 where
  pub name : is_token h.key ≡ true
  pub valid : is_valid_header_value h.value ≡ true
  pub trimmed : is_trimmed h.value ≡ true

abbrev pub AllPrintable : HttpRequestHeaders → Type 0
AllPrintable [] = Unit {0}
AllPrintable (h ∷ hs) = IsPrintable h × AllPrintable hs

-- The line of a header when it has been trimmed, and what was trimmed off.
abbrev tail_of : Bytes → Bytes
tail_of [] = []
tail_of (c ∷ value) = b' ' ∷ c ∷ value

abbrev spaces_of : Bytes → Bytes
spaces_of [] = b' ' ∷ []
spaces_of (c ∷ value) = []

abbrev line_of : HeaderKeyValuePair → Bytes
line_of h = h.key ++ b':' ∷ tail_of h.value

module _ (ascii : AsciiCase) where
  add_header_at-key :
      (k : ℕ) (key value : Bytes) (headers : HttpRequestHeaders)
      → is_token (k ∷ key) ≡ true
      → is_valid_header_value value ≡ true
      → is_trimmed value ≡ true
      → add_header_at ascii (suc (length key)) ((k ∷ key) ++ b':' ∷ tail_of value) headers
        ≡ set_header ascii (k ∷ key) value headers
  unfolding add_header_at is_valid_header_name
  add_header_at-key k key [] headers name valid trimmed =
      let line = (k ∷ key) ++ b':' ∷ [] in
      let front : take (suc (length key)) line ≡ k ∷ key = take-key (k ∷ key) (b':' ∷ []) in
      let named : is_valid_header_name (take (suc (length key)) line) ≡ true =
        ap is_valid_header_name front ∙ name in
      let ended : ltb (suc (length key) + 1) (length line) ≡ false =
        ground (arith, length-append (k ∷ key) (b':' ∷ [])) in
      rw (named, ended, front) refl
  add_header_at-key k key (v ∷ value) headers name valid trimmed =
      let line = (k ∷ key) ++ b':' ∷ b' ' ∷ v ∷ value in
      let front : take (suc (length key)) line ≡ k ∷ key =
        take-key (k ∷ key) (b':' ∷ b' ' ∷ v ∷ value) in
      let named : is_valid_header_name (take (suc (length key)) line) ≡ true =
        ap is_valid_header_name front ∙ name in
      let more : ltb (suc (length key) + 1) (length line) ≡ true =
        ground (arith, length-append (k ∷ key) (b':' ∷ b' ' ∷ v ∷ value)) in
      let read : text_of (trim_lws (whole (drop (suc (length key) + 1) line))) ≡ v ∷ value =
        ap (λ t. text_of (trim_lws (whole t)))
          (drop-key (k ∷ key) (b' ' ∷ v ∷ value) b':' (suc (length key) + 1) (omega arith))
        ∙ trim_value (v ∷ value) trimmed in
      rw (named, more, read, valid, front) refl

  add_key :
      (key value : Bytes) (headers : HttpRequestHeaders)
      → is_token key ≡ true
      → is_valid_header_value value ≡ true
      → is_trimmed value ≡ true
      → add_header_from_string ascii (key ++ b':' ∷ tail_of value) headers
        ≡ set_header ascii key value headers
  unfolding add_header_from_string is_token is_token_char
  add_key [] value headers name valid trimmed = cc
  add_key (k ∷ key) value headers name valid trimmed =
      let no_colon : contains b':' (k ∷ key) ≡ false = contains-token b':' (k ∷ key) refl name in
      ap (λ o. add_header_found ascii o ((k ∷ key) ++ b':' ∷ tail_of value) headers)
        (find_char-key (k ∷ key) (tail_of value) no_colon)
      ∙ add_header_at-key k key value headers name valid trimmed

line_of-is_solid :
    (key value : Bytes)
    → is_token key ≡ true
    → is_trimmed value ≡ true
    → is_solid (key ++ b':' ∷ tail_of value) ≡ true
unfolding is_token is_token_char
line_of-is_solid [] value name trimmed = cc
line_of-is_solid (k ∷ key) [] name trimmed = ground (arith, last_of-append k b':' key [])
line_of-is_solid (k ∷ key) (v ∷ value) name trimmed =
    ground (arith, last_of-append k b':' key (b' ' ∷ v ∷ value))

line_of_plain :
    (key value : Bytes)
    → is_token key ≡ true
    → is_valid_header_value value ≡ true
    → contains b'\r' (key ++ b':' ∷ tail_of value) ≡ false
unfolding is_token is_token_char
line_of_plain [] value name valid = cc
line_of_plain (k ∷ key) [] name valid =
    contains-append b'\r' (k ∷ key) (b':' ∷ []) ∙ rw (contains-token b'\r' (k ∷ key) refl name) refl
line_of_plain (k ∷ key) (v ∷ value) name valid =
    contains-append b'\r' (k ∷ key) (b':' ∷ b' ' ∷ v ∷ value)
    ∙ rw (contains-token b'\r' (k ∷ key) refl name) ((contains-value (v ∷ value) valid).1)

-- A printed header, with what follows.
line_shape :
    (key value rest : Bytes)
    → (key ++ (b':' ∷ b' ' ∷ (value ++ b'\r' ∷ b'\n' ∷ []))) ++ rest
      ≡ (key ++ b':' ∷ tail_of value) ++ (spaces_of value ++ b'\r' ∷ b'\n' ∷ rest)
line_shape key [] rest =
    append_assoc key (b':' ∷ b' ' ∷ b'\r' ∷ b'\n' ∷ []) rest
    ∙ sym (append_assoc key (b':' ∷ []) (b' ' ∷ b'\r' ∷ b'\n' ∷ rest))
line_shape key (v ∷ value) rest =
    append_assoc key (b':' ∷ b' ' ∷ v ∷ (value ++ b'\r' ∷ b'\n' ∷ [])) rest
    ∙ ap (λ t. key ++ (b':' ∷ b' ' ∷ v ∷ t)) (append_assoc value (b'\r' ∷ b'\n' ∷ []) rest)
    ∙ sym (append_assoc key (b':' ∷ b' ' ∷ v ∷ value) (b'\r' ∷ b'\n' ∷ rest))

header_line_shape :
    (h : HeaderKeyValuePair) (rest : Bytes)
    → IsPrintable h
    → header_line h ++ rest ≡ line_of h ++ (spaces_of h.value ++ b'\r' ∷ b'\n' ∷ rest)
header_line_shape h rest p =
    let key : c_str h.key ≡ h.key = c_str_lem h.key (contains-key h.key p.name) in
    let value : c_str h.value ≡ h.value = c_str_lem h.value (contains-value h.value p.valid).0 in
    ap (λ t. (t ++ (b':' ∷ b' ' ∷ (c_str h.value ++ b'\r' ∷ b'\n' ∷ []))) ++ rest) key
    ∙ ap (λ t. (h.key ++ (b':' ∷ b' ' ∷ (t ++ b'\r' ∷ b'\n' ∷ []))) ++ rest) value
    ∙ line_shape h.key h.value rest

abbrev lines : HttpRequestHeaders → List Bytes
lines [] = []
lines (h ∷ hs) = line_of h ∷ lines hs

spaces_of_blank :
    (value : Bytes)
    → (contains b'\r' (spaces_of value) ≡ false) × (all is_space (spaces_of value) ≡ true)
spaces_of_blank [] = (refl, refl)
spaces_of_blank (v ∷ value) = (refl, refl)

module _ (splitter : LineSplitter) where
  open splitter use {split_lines, split_end, split_blank, split_line}

  split_lines-to_string :
      (hs : HttpRequestHeaders) → AllPrintable hs → split_lines (to_string hs) ≡ lines hs
  unfolding to_string lines_of
  split_lines-to_string [] p = split_blank [] [] refl refl ∙ split_end
  split_lines-to_string (h ∷ hs) (p, ps) =
      let rest = lines_of hs ++ codes "\r\n" in
      let blank = spaces_of_blank h.value in
      ap split_lines
        (append_assoc (header_line h) (lines_of hs) (codes "\r\n") ∙ header_line_shape h rest p)
      ∙ split_line (line_of h) (spaces_of h.value) rest (line_of_plain h.key h.value p.name p.valid)
          blank.0 (line_of-is_solid h.key h.value p.name p.trimmed) blank.1
      ∙ ap (λ ls. line_of h ∷ ls) (split_lines-to_string hs ps)

module _ (ascii : AsciiCase) where
  -- A name that is not there yet goes to the end.
  set_header-new :
      (key value : Bytes) (headers : HttpRequestHeaders)
      → get_header ascii key headers ≡ none
      → set_header ascii key value headers ≡ headers ++ record { key = key; value = value } ∷ []
  unfolding set_header
  set_header-new key value [] new = refl
  set_header-new key value (h ∷ headers) new =
      ground (arith, get_header-cons ascii key h headers, set_header-new key value headers)

  absent_inside :
      (k : Bytes) (h : HeaderKeyValuePair) (front back : HttpRequestHeaders)
      → get_header ascii k (front ++ h ∷ back) ≡ none
      → ascii.equals_case_insensitive_ascii k h.key ≡ false
  absent_inside k h [] back none_there = ground (arith, get_header-cons ascii k h back)
  absent_inside k h (f ∷ front) back none_there =
      ground (arith, get_header-cons ascii k f (front ++ h ∷ back), absent_inside k h front back)

  get_header-Unique :
      (h : HeaderKeyValuePair) (front back : HttpRequestHeaders)
      → Unique ascii (front ++ h ∷ back)
      → get_header ascii h.key front ≡ none
  unfolding get_header find_header
  get_header-Unique h [] back u = refl
  get_header-Unique h (f ∷ front) back (new, u) =
      get_header-cons ascii h.key f front
      ∙ rw (eq_ci_comm ascii h.key f.key, absent_inside f.key h front back new)
          (get_header-Unique h front back u)

  add_lines-lines :
      (headers hs : HttpRequestHeaders)
      → AllPrintable hs
      → Unique ascii (headers ++ hs)
      → add_lines ascii (lines hs) headers ≡ headers ++ hs
  unfolding add_lines
  add_lines-lines headers [] p u = sym (append-nil headers)
  add_lines-lines headers (h ∷ hs) (p, ps) u =
      let added : add_header_from_string ascii (line_of h) headers ≡ headers ++ h ∷ [] =
        add_key ascii h.key h.value headers p.name p.valid p.trimmed
        ∙ set_header-new h.key h.value headers (get_header-Unique h headers hs u) in
      let joined : (headers ++ h ∷ []) ++ hs ≡ headers ++ h ∷ hs =
        append_assoc headers (h ∷ []) hs in
      ap (add_lines ascii (lines hs)) added
      ∙ (add_lines-lines (headers ++ h ∷ []) hs ps (subst (Unique ascii) (sym joined) u) ∙ joined)

  -- For headers whose names are tokens, no two of them equal up to case, and whose values are
  -- valid and have no white space at their ends: AddHeadersFromString of what ToString prints,
  -- onto no headers, gives the same headers in the same order.
  pub add_headers_from_string-to_string :
      (splitter : LineSplitter) (hs : HttpRequestHeaders)
      → AllPrintable hs
      → Unique ascii hs
      → add_headers_from_string ascii splitter (to_string hs) [] ≡ hs
  unfolding add_headers_from_string
  add_headers_from_string-to_string splitter hs p u =
      ap (λ ls. add_lines ascii ls []) (split_lines-to_string splitter hs p)
      ∙ add_lines-lines [] hs p u
