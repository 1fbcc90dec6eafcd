-- ===== src/Http/ResponseHeaders/Represents.antt =====
-- Response headers as the list of their names and values, and the operations on that list.
use nginx_quic_stack.Base.{
  ◌+◌, Bool, true, List, [], ◌∷◌, ◌++◌, some, length, drop, ◌≡◌, refl, ap, ◌∙◌, append_assoc,
  if◌then◌else◌, Bool-cases, inl, inr,
}
use nginx_quic_stack.Base.Bytes.{Bytes, codes}
use nginx_quic_stack.Http.Ascii.{AsciiCase}
use nginx_quic_stack.Http.StatusLine.{parse_status_line}
use nginx_quic_stack.Http.Texts.{drop-key}
use nginx_quic_stack.Http.Tokens.{StringTokenizer, IntReader}
use nginx_quic_stack.Http.ResponseHeaders.{
  HttpResponseHeaders, has_more, ends_with_nuls, pad_nuls, read_headers, parse,
}
use nginx_quic_stack.Http.ResponseHeaders.Edit.{lines_where, lines_other}
use nginx_quic_stack.Http.ResponseHeaders.Lookup.{entries}
use nginx_quic_stack.Http.ResponseHeaders.Plain.{
  no_nul, no_nul-parse_status_line, c_str-append, behind_nul-append, ends_with_nuls-append,
  pad_nuls-ended,
}
use nginx_quic_stack.Http.ResponseHeaders.Printed.{
  Field, AllFields, entries_for, print_fields, print_ended, tokens-print,
}
use nginx_quic_stack.Http.ResponseHeaders.Spans.{starts_header, entries-print}

-- A head: its status line and its fields, with NUL behind each, and another one at the end.
abbrev pub head : Bytes → List Field → Bytes
head status fs = status ++ 0 ∷ print_ended fs

-- The operations on the list of fields.
abbrev pub fields_where : (Bytes → Bool) → List Field → List Field
fields_where keep [] = []
fields_where keep (f ∷ fs) =
    let rest = fields_where keep fs in if keep f.name then f ∷ rest else rest

abbrev pub fields_other : (Bytes → Bytes → Bool) → List Field → List Field
fields_other gone [] = []
fields_other gone (f ∷ fs) =
    let rest = fields_other gone fs in if gone f.name f.value then rest else f ∷ rest

pub print_ended-print_fields : (fs : List Field) → print_fields fs ++ 0 ∷ [] ≡ print_ended fs
print_ended-print_fields [] = refl
print_ended-print_fields (f ∷ fs) =
    append_assoc f.name (codes ": " ++ (f.value ++ 0 ∷ print_fields fs)) (0 ∷ [])
    ∙ ap (λ t. f.name ++ (codes ": " ++ t)) (append_assoc f.value (0 ∷ print_fields fs) (0 ∷ []))
    ∙ ap (λ t. f.name ++ (codes ": " ++ (f.value ++ 0 ∷ t))) (print_ended-print_fields fs)

pub print_fields-append :
    (fs gs : List Field) → print_fields fs ++ print_ended gs ≡ print_ended (fs ++ gs)
print_fields-append [] gs = refl
print_fields-append (f ∷ fs) gs =
    append_assoc f.name (codes ": " ++ (f.value ++ 0 ∷ print_fields fs)) (print_ended gs)
    ∙ ap (λ t. f.name ++ (codes ": " ++ t))
        (append_assoc f.value (0 ∷ print_fields fs) (print_ended gs))
    ∙ ap (λ t. f.name ++ (codes ": " ++ (f.value ++ 0 ∷ t))) (print_fields-append fs gs)

ends_with_nuls-head : (fs : List Field) → ends_with_nuls (0 ∷ print_ended fs) ≡ true
unfolding ends_with_nuls
ends_with_nuls-head [] = refl
ends_with_nuls-head (f ∷ fs) =
    ends_with_nuls-append (0 ∷ f.name) (codes ": " ++ (f.value ++ 0 ∷ print_ended fs))
      (ends_with_nuls-append (codes ": " ++ f.value) (0 ∷ print_ended fs) (ends_with_nuls-head fs))

pub AllFields-append : (fs gs : List Field) → AllFields fs → AllFields gs → AllFields (fs ++ gs)
AllFields-append [] gs v w = w
AllFields-append (f ∷ fs) gs (v, vs) w = (v, AllFields-append fs gs vs w)

pub AllFields-fields_where :
    (keep : Bytes → Bool) (fs : List Field) → AllFields fs → AllFields (fields_where keep fs)
AllFields-fields_where keep [] v = v
AllFields-fields_where keep (f ∷ fs) (v, vs) = elim (Bool-cases (keep f.name)) [
  | inl kept ↦ rw kept (v, AllFields-fields_where keep fs vs)
  | inr gone ↦ rw gone (AllFields-fields_where keep fs vs)
]

pub AllFields-fields_other :
    (gone : Bytes → Bytes → Bool) (fs : List Field)
    → AllFields fs
    → AllFields (fields_other gone fs)
AllFields-fields_other gone [] v = v
AllFields-fields_other gone (f ∷ fs) (v, vs) = elim (Bool-cases (gone f.name f.value)) [
  | inl left_out ↦ rw left_out (AllFields-fields_other gone fs vs)
  | inr kept ↦ rw kept (v, AllFields-fields_other gone fs vs)
]

pub lines_where-entries_for :
    (keep : Bytes → Bool) (fs : List Field)
    → lines_where keep (entries_for fs) ≡ print_fields (fields_where keep fs)
lines_where-entries_for keep [] = refl
lines_where-entries_for keep (f ∷ fs) = elim (Bool-cases (keep f.name)) [
  | inl kept ↦ rw kept (
      append_assoc f.name (codes ": " ++ f.value) (0 ∷ lines_where keep (entries_for fs))
      ∙ ap (λ t. f.name ++ (codes ": " ++ (f.value ++ 0 ∷ t))) (lines_where-entries_for keep fs))
  | inr gone ↦ rw gone (lines_where-entries_for keep fs)
]

pub lines_other-entries_for :
    (gone : Bytes → Bytes → Bool) (fs : List Field)
    → lines_other gone (entries_for fs) ≡ print_fields (fields_other gone fs)
lines_other-entries_for gone [] = refl
lines_other-entries_for gone (f ∷ fs) = elim (Bool-cases (gone f.name f.value)) [
  | inl left_out ↦ rw left_out (lines_other-entries_for gone fs)
  | inr kept ↦
      rw kept
        (ap (λ t. f.name ++ (codes ": " ++ (f.value ++ 0 ∷ t))) (lines_other-entries_for gone fs))
]

-- Response headers that stand for a list of fields.
pub record Represents (h : HttpResponseHeaders) (fs : List Field) : Type 0 where
  pub status : Bytes
  pub plain : no_nul status ≡ true
  pub raw : h.raw_headers ≡ head status fs
  pub read : entries h.parsed ≡ entries_for fs
  pub first : starts_header h.parsed ≡ true
  pub valid : AllFields fs

module _ (ascii : AsciiCase) (tokenizer : StringTokenizer) (numbers : IntReader) where
  -- For a status line without NUL and fields whose names are tokens and whose values have no NUL
  -- and no white space at their ends: parsing the status line and the fields, each "name: value",
  -- with NUL behind each and at the end, gives headers that stand for these fields.
  pub parse-Represents :
      (status : Bytes) (fs : List Field)
      → no_nul status ≡ true
      → AllFields fs
      → Represents (parse ascii tokenizer numbers (head status fs)) fs
  unfolding parse
  parse-Represents status fs plain valid =
      let line = parse_status_line ascii numbers status (has_more (some (print_ended fs))) in
      let padded : pad_nuls 2 (head line.text fs) ≡ head line.text fs =
        pad_nuls-ended (head line.text fs)
          (ends_with_nuls-append line.text (0 ∷ print_ended fs) (ends_with_nuls-head fs)) in
      let behind : drop (length line.text + 1) (head line.text fs) ≡ print_ended fs =
        drop-key line.text (print_ended fs) 0 (length line.text + 1) refl in
      let pieces = tokens-print tokenizer fs valid in
      rw
        (
          behind_nul-append status (print_ended fs) plain,
          c_str-append status (print_ended fs) plain,
        )
        (record {
          status = line.text;
          plain =
              no_nul-parse_status_line ascii numbers status (has_more (some (print_ended fs)))
                plain;
          raw = padded;
          read =
              ap
                (λ raw. entries (
                  read_headers ascii tokenizer
                    (tokenizer.tokens (0 ∷ []) (drop (length line.text + 1) raw))))
                padded
              ∙ (rw (behind, pieces) (entries-print ascii tokenizer fs valid).0);
          first =
              ap
                (λ raw. starts_header (
                  read_headers ascii tokenizer
                    (tokenizer.tokens (0 ∷ []) (drop (length line.text + 1) raw))))
                padded
              ∙ (rw (behind, pieces) (entries-print ascii tokenizer fs valid).1);
          valid = valid;
        })
