-- ===== src/Http/ResponseHeaders/Edits.antt =====
-- Sequences of changes to response headers, against the same changes to a list of names and values.
use nginx_quic_stack.Base.{
  true, ◌&&◌, not, List, [], ◌∷◌, ◌++◌, Option, none, some, ◌≡◌, refl, ap, ◌∙◌,
}
use nginx_quic_stack.Base.Bytes.{Bytes, same}
use nginx_quic_stack.Http.Ascii.{AsciiCase}
use nginx_quic_stack.Http.Tokens.{StringTokenizer, IntReader}
use nginx_quic_stack.Http.ResponseHeaders.{HttpResponseHeaders, parse}
use nginx_quic_stack.Http.ResponseHeaders.Edit.{
  contains_name, should_update_header, updated_names, lowered, update, remove_header,
  remove_headers, remove_header_line, add_header, set_header, replace_status_line,
}
use nginx_quic_stack.Http.ResponseHeaders.Plain.{no_nul}
use nginx_quic_stack.Http.ResponseHeaders.Printed.{Field, IsField, AllFields, entries_for}
use nginx_quic_stack.Http.ResponseHeaders.Represents.{
  head, fields_where, fields_other, Represents, parse-Represents,
}
use nginx_quic_stack.Http.ResponseHeaders.Edited.{
  add_header-Represents, remove_headers-Represents, remove_header-Represents, set_header-Represents,
  remove_header_line-Represents, replace_status_line-Represents, update-Represents,
}

-- The calls of the operations; the headers of `update` are given by their status line and fields.
pub data Edit : Type 0 where
  add : Field → Edit
  set : Field → Edit
  remove : Bytes → Edit
  remove_all : List Bytes → Edit
  remove_line : Bytes → Bytes → Edit
  replace_status : Bytes → Edit
  update_with : Bytes → List Field → Edit

abbrev pub IsEdit : Edit → Type 0
IsEdit (add f) = IsField f
IsEdit (set f) = IsField f
IsEdit (replace_status status) = no_nul status ≡ true
IsEdit (update_with status fs) = (no_nul status ≡ true) × AllFields fs
IsEdit (remove name) = Unit {0}
IsEdit (remove_all names) = Unit {0}
IsEdit (remove_line name value) = Unit {0}

abbrev pub AllEdits : List Edit → Type 0
AllEdits [] = Unit {0}
AllEdits (e ∷ es) = IsEdit e × AllEdits es

module _ (ascii : AsciiCase) where
  -- The fields whose names are, up to case, none of some names.
  abbrev without : List Bytes → List Field → List Field
  without names = fields_where (λ n. not (contains_name (ascii.to_lower_ascii n) names))

  abbrev pub edit_fields : Edit → List Field → List Field
  edit_fields (add f) fs = fs ++ f ∷ []
  edit_fields (set f) fs = without (ascii.to_lower_ascii f.name ∷ []) fs ++ f ∷ []
  edit_fields (remove name) fs = without (ascii.to_lower_ascii name ∷ []) fs
  edit_fields (remove_all names) fs = without (lowered ascii names) fs
  edit_fields (remove_line name value) fs =
      fields_other
        (λ n v. same (ascii.to_lower_ascii name) (ascii.to_lower_ascii n) && same value v) fs
  edit_fields (replace_status status) fs = fs
  edit_fields (update_with status new) fs =
      fields_where (should_update_header ascii) new
      ++ without (updated_names ascii (entries_for new)) fs

  abbrev pub edits_fields : List Edit → List Field → List Field
  edits_fields [] fs = fs
  edits_fields (e ∷ es) fs = edits_fields es (edit_fields e fs)

  module _ (tokenizer : StringTokenizer) (numbers : IntReader) where
    unfoldable pub edit : Edit → HttpResponseHeaders → Option HttpResponseHeaders
    unfolding add_header set_header remove_header remove_headers remove_header_line
        replace_status_line update parse
    edit (add f) h = some (add_header ascii tokenizer numbers f.name f.value h)
    edit (set f) h = some (set_header ascii tokenizer numbers f.name f.value h)
    edit (remove name) h = some (remove_header ascii tokenizer numbers name h)
    edit (remove_all names) h = some (remove_headers ascii tokenizer numbers names h)
    edit (remove_line name value) h = some (remove_header_line ascii tokenizer numbers name value h)
    edit (replace_status status) h = replace_status_line ascii tokenizer numbers status h
    edit (update_with status new) h =
        some (update ascii tokenizer numbers (parse ascii tokenizer numbers (head status new)) h)

    unfoldable pub edits : List Edit → HttpResponseHeaders → Option HttpResponseHeaders
    unfolding edit
    edits [] h = some h
    edits (e ∷ es) h = elim (edit e h) [ none ↦ none | some changed ↦ edits es changed ]

    edit-Represents :
        (e : Edit) (h : HttpResponseHeaders) (fs : List Field)
        → IsEdit e
        → Represents h fs
        → (h' : HttpResponseHeaders) × (edit e h ≡ some h') × Represents h' (edit_fields e fs)
    unfolding edit
    edit-Represents (add f) h fs v r =
        (_, refl, add_header-Represents ascii tokenizer numbers f h fs v r)
    edit-Represents (set f) h fs v r =
        (_, refl, set_header-Represents ascii tokenizer numbers f h fs v r)
    edit-Represents (remove name) h fs v r =
        (_, refl, remove_header-Represents ascii tokenizer numbers name h fs r)
    edit-Represents (remove_all names) h fs v r =
        (_, refl, remove_headers-Represents ascii tokenizer numbers names h fs r)
    edit-Represents (remove_line name value) h fs v r =
        (_, refl, remove_header_line-Represents ascii tokenizer numbers name value h fs r)
    edit-Represents (replace_status status) h fs v r =
        replace_status_line-Represents ascii tokenizer numbers status h fs v r
    edit-Represents (update_with status new) h fs (plain, vs) r = (
      _,
      refl,
      update-Represents ascii tokenizer numbers (parse ascii tokenizer numbers (head status new)) h
          new fs (parse-Represents ascii tokenizer numbers status new plain vs) r,
    )

    -- For response headers that stand for a list of fields, and every sequence of AddHeader,
    -- SetHeader, RemoveHeader, RemoveHeaders, RemoveHeaderLine, ReplaceStatusLine and Update whose
    -- fields have tokens as names and values without NUL and without white space at their ends,
    -- and whose status lines have no NUL: the sequence is carried out, and its result stands for
    -- the list on which each operation adds, replaces or takes out the fields it names, up to
    -- case, in their order.
    pub edits-Represents :
        (es : List Edit) (h : HttpResponseHeaders) (fs : List Field)
        → AllEdits es
        → Represents h fs
        → (h' : HttpResponseHeaders) × (edits es h ≡ some h') × Represents h' (edits_fields es fs)
    unfolding edits
    edits-Represents [] h fs v r = (h, refl, r)
    edits-Represents (e ∷ es) h fs (v, vs) r =
        let (h1, done, r1) = edit-Represents e h fs v r in
        let (h2, rest, r2) = edits-Represents es h1 (edit_fields e fs) vs r1 in
        (h2, ap (λ o. elim o [ none ↦ none | some changed ↦ edits es changed ]) done ∙ rest, r2)
