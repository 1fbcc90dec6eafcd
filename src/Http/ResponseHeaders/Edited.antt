-- ===== src/Http/ResponseHeaders/Edited.antt =====
-- What the operations that change response headers do to the list of fields.
use nginx_quic_stack.Base.{
  ℕ, Bool, true, ◌&&◌, not, List, [], ◌∷◌, ◌++◌, some, ◌≡◌, refl, ap, sym, ◌∙◌, arith, append_assoc,
  subst,
}
use nginx_quic_stack.Base.Bytes.{Bytes, codes, same}
use nginx_quic_stack.Http.Ascii.{AsciiCase}
use nginx_quic_stack.Http.Pieces.{c_str}
use nginx_quic_stack.Http.Tokens.{StringTokenizer, IntReader}
use nginx_quic_stack.Http.Util.{drop_last}
use nginx_quic_stack.Http.ResponseHeaders.{HttpResponseHeaders, has_embedded_nulls, parse}
use nginx_quic_stack.Http.ResponseHeaders.Edit.{
  contains_name, lines_where, lines_other, should_update_header, updated_names, lowered,
  merge_with_headers, update, remove_header, remove_headers, remove_header_line, add_header,
  set_header, replace_status_line,
}
use nginx_quic_stack.Http.ResponseHeaders.Lookup.{entries, get_status_line}
use nginx_quic_stack.Http.ResponseHeaders.Plain.{no_nul, c_str-append}
use nginx_quic_stack.Http.ResponseHeaders.Printed.{
  Field, IsField, AllFields, entries_for, print_fields, print_ended,
}
use nginx_quic_stack.Http.ResponseHeaders.Represents.{
  head, fields_where, fields_other, print_ended-print_fields, print_fields-append, AllFields-append,
  AllFields-fields_where, AllFields-fields_other, lines_where-entries_for, lines_other-entries_for,
  Represents, parse-Represents,
}

drop_last-append : (c : ℕ) (text : Bytes) → drop_last (text ++ c ∷ []) ≡ text
drop_last-append c [] = refl
drop_last-append c (x ∷ []) = refl
drop_last-append c (x ∷ y ∷ text) = ap (λ t. x ∷ t) (drop_last-append c (y ∷ text))

-- A head less its last NUL, with a line and two NULs.
head-add :
    (status : Bytes) (fs : List Field) (f : Field)
    → drop_last (head status fs) ++ (f.name ++ (codes ": " ++ (f.value ++ 0 ∷ 0 ∷ [])))
      ≡ head status (fs ++ f ∷ [])
head-add status fs f =
    let shape : head status fs ≡ (status ++ 0 ∷ print_fields fs) ++ 0 ∷ [] =
      ap (λ t. status ++ 0 ∷ t) (sym (print_ended-print_fields fs))
      ∙ sym (append_assoc status (0 ∷ print_fields fs) (0 ∷ [])) in
    ap (λ t. t ++ print_ended (f ∷ []))
      (ap drop_last shape ∙ drop_last-append 0 (status ++ 0 ∷ print_fields fs))
    ∙ append_assoc status (0 ∷ print_fields fs) (print_ended (f ∷ []))
    ∙ ap (λ t. status ++ 0 ∷ t) (print_fields-append fs (f ∷ []))

module _ (ascii : AsciiCase) (tokenizer : StringTokenizer) (numbers : IntReader) where
  merge_with_headers-Represents :
      (status : Bytes) (new old : List Field) (gone : List Bytes) (h : HttpResponseHeaders)
      → no_nul status ≡ true
      → AllFields new
      → Represents h old
      → Represents
          (merge_with_headers ascii tokenizer numbers (status ++ 0 ∷ print_fields new) gone h)
          (new ++ fields_where (λ name. not (contains_name (ascii.to_lower_ascii name) gone)) old)
  unfolding merge_with_headers
  merge_with_headers-Represents status new old gone h plain valid r =
      let keep : Bytes → Bool = λ name. not (contains_name (ascii.to_lower_ascii name) gone) in
      let kept = fields_where keep old in
      let text : (status ++ 0 ∷ print_fields new) ++ (lines_where keep (entries h.parsed) ++ 0 ∷ [])
          ≡ head status (new ++ kept) =
        ap (λ es. (status ++ 0 ∷ print_fields new) ++ (lines_where keep es ++ 0 ∷ [])) r.read
        ∙ ap (λ t. (status ++ 0 ∷ print_fields new) ++ (t ++ 0 ∷ []))
            (lines_where-entries_for keep old)
        ∙ ap (λ t. (status ++ 0 ∷ print_fields new) ++ t) (print_ended-print_fields kept)
        ∙ append_assoc status (0 ∷ print_fields new) (print_ended kept)
        ∙ ap (λ t. status ++ 0 ∷ t) (print_fields-append new kept) in
      subst (λ t. Represents (parse ascii tokenizer numbers t) (new ++ kept)) (sym text)
        (parse-Represents ascii tokenizer numbers status (new ++ kept) plain
          (AllFields-append new kept valid (AllFields-fields_where keep old r.valid)))

  status_of :
      (h : HttpResponseHeaders) (fs : List Field) (r : Represents h fs)
      → c_str h.raw_headers ≡ r.status
  status_of h fs r = ap c_str r.raw ∙ c_str-append r.status (print_ended fs) r.plain

  pub add_header-Represents :
      (f : Field) (h : HttpResponseHeaders) (fs : List Field)
      → IsField f
      → Represents h fs
      → Represents (add_header ascii tokenizer numbers f.name f.value h) (fs ++ f ∷ [])
  unfolding add_header
  add_header-Represents f h fs valid r =
      let text =
        ap (λ t. drop_last t ++ (f.name ++ (codes ": " ++ (f.value ++ 0 ∷ 0 ∷ [])))) r.raw
        ∙ head-add r.status fs f in
      subst (λ t. Represents (parse ascii tokenizer numbers t) (fs ++ f ∷ [])) (sym text)
        (parse-Represents ascii tokenizer numbers r.status (fs ++ f ∷ []) r.plain
          (AllFields-append fs (f ∷ []) r.valid (valid, tt)))

  pub remove_headers-Represents :
      (names : List Bytes) (h : HttpResponseHeaders) (fs : List Field)
      → Represents h fs
      → Represents (remove_headers ascii tokenizer numbers names h) (
          fields_where
            (λ name. not (contains_name (ascii.to_lower_ascii name) (lowered ascii names)))
            fs)
  unfolding remove_headers
  remove_headers-Represents names h fs r =
      subst
        (λ t.
          Represents
            (merge_with_headers ascii tokenizer numbers (t ++ 0 ∷ []) (lowered ascii names) h)
            (fields_where
              (λ name. not (contains_name (ascii.to_lower_ascii name) (lowered ascii names))) fs))
        (sym (status_of h fs r))
        (merge_with_headers-Represents r.status [] fs (lowered ascii names) h r.plain tt r)

  pub remove_header-Represents :
      (name : Bytes) (h : HttpResponseHeaders) (fs : List Field)
      → Represents h fs
      → Represents (remove_header ascii tokenizer numbers name h) (
          fields_where
            (λ n. not (contains_name (ascii.to_lower_ascii n) (ascii.to_lower_ascii name ∷ [])))
            fs)
  unfolding remove_header remove_headers
  remove_header-Represents name h fs r = remove_headers-Represents (name ∷ []) h fs r

  pub set_header-Represents :
      (f : Field) (h : HttpResponseHeaders) (fs : List Field)
      → IsField f
      → Represents h fs
      → Represents (set_header ascii tokenizer numbers f.name f.value h) (
          fields_where
            (λ n. not (contains_name (ascii.to_lower_ascii n) (ascii.to_lower_ascii f.name ∷ [])))
            fs
          ++ f ∷ [])
  unfolding set_header
  set_header-Represents f h fs valid r =
      add_header-Represents f (remove_header ascii tokenizer numbers f.name h)
        (fields_where
          (λ n. not (contains_name (ascii.to_lower_ascii n) (ascii.to_lower_ascii f.name ∷ []))) fs)
        valid (remove_header-Represents f.name h fs r)

  pub remove_header_line-Represents :
      (name value : Bytes) (h : HttpResponseHeaders) (fs : List Field)
      → Represents h fs
      → Represents (remove_header_line ascii tokenizer numbers name value h) (
          fields_other
            (λ n v. same (ascii.to_lower_ascii name) (ascii.to_lower_ascii n) && same value v)
            fs)
  unfolding remove_header_line get_status_line
  remove_header_line-Represents name value h fs r =
      let gone : Bytes → Bytes → Bool =
        λ n v. same (ascii.to_lower_ascii name) (ascii.to_lower_ascii n) && same value v in
      let kept = fields_other gone fs in
      let text : c_str h.raw_headers ++ 0 ∷ (lines_other gone (entries h.parsed) ++ 0 ∷ [])
          ≡ head r.status kept =
        ap (λ s. s ++ 0 ∷ (lines_other gone (entries h.parsed) ++ 0 ∷ [])) (status_of h fs r)
        ∙ ap (λ es. r.status ++ 0 ∷ (lines_other gone es ++ 0 ∷ [])) r.read
        ∙ ap (λ t. r.status ++ 0 ∷ (t ++ 0 ∷ [])) (lines_other-entries_for gone fs)
        ∙ ap (λ t. r.status ++ 0 ∷ t) (print_ended-print_fields kept) in
      subst (λ t. Represents (parse ascii tokenizer numbers t) kept) (sym text)
        (parse-Represents ascii tokenizer numbers r.status kept r.plain
          (AllFields-fields_other gone fs r.valid))

  no_names :
      (old : List Field)
      → fields_where (λ n. not (contains_name (ascii.to_lower_ascii n) [])) old ≡ old
  no_names [] = refl
  no_names (f ∷ old) = ap (λ fs. f ∷ fs) (no_names old)

  pub replace_status_line-Represents :
      (status : Bytes) (h : HttpResponseHeaders) (fs : List Field)
      → no_nul status ≡ true
      → Represents h fs
      → (h' : HttpResponseHeaders) × (replace_status_line ascii tokenizer numbers status h
          ≡ some h')
        × Represents h' fs
  unfolding replace_status_line has_embedded_nulls
  replace_status_line-Represents status h fs plain r = (
    merge_with_headers ascii tokenizer numbers (status ++ 0 ∷ []) [] h,
    ground (arith, plain),
    subst (Represents (merge_with_headers ascii tokenizer numbers (status ++ 0 ∷ []) [] h))
        (no_names fs) (merge_with_headers-Represents status [] fs [] h plain tt r),
  )

  pub update-Represents :
      (new_headers h : HttpResponseHeaders) (new fs : List Field)
      → Represents new_headers new
      → Represents h fs
      → Represents (update ascii tokenizer numbers new_headers h) (
          fields_where (should_update_header ascii) new
          ++ fields_where
              (λ n.
                not
                  (contains_name (ascii.to_lower_ascii n) (updated_names ascii (entries_for new))))
              fs)
  unfolding update
  update-Represents new_headers h new fs n r =
      let taken = fields_where (should_update_header ascii) new in
      let gone = updated_names ascii (entries_for new) in
      let text : c_str h.raw_headers
            ++ 0 ∷ lines_where (should_update_header ascii) (entries_for new)
          ≡ r.status ++ 0 ∷ print_fields taken =
        ap (λ s. s ++ 0 ∷ lines_where (should_update_header ascii) (entries_for new))
          (status_of h fs r)
        ∙ ap (λ t. r.status ++ 0 ∷ t) (lines_where-entries_for (should_update_header ascii) new) in
      rw (n.read, text)
        (merge_with_headers-Represents r.status taken fs gone h r.plain
          (AllFields-fields_where (should_update_header ascii) new n.valid) r)
