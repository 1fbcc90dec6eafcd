-- ===== src/Net/Pem/RoundTrip.antt =====
-- `PEMEncode` read by `PEMTokenizer`.
use nginx_quic_stack.Base.{
  ℕ, ◌+◌, ◌-◌, ◌/◌, true, false, [], ◌∷◌, ◌++◌, some, ltb, length, length-append, drop, ◌≡◌, refl,
  ap, ◌∙◌, sym, arith, append_assoc,
}
use nginx_quic_stack.Base.Bytes.{Bytes, codes}
use nginx_quic_stack.Http.Pieces.{contains, c_str}
use nginx_quic_stack.Http.Texts.{c_str_lem, take-key}
use nginx_quic_stack.Net.Pem.{
  PemType, pem_type, new_pem_tokenizer, starts, find_text, between, block, at_footer, try_types,
  search, pem_get_next, encoded_lines, pem_encode,
}
use nginx_quic_stack.Net.Pem.Lines.{
  Base64, without_newlines-encoded_lines, is_lines, is_lines-encoded_lines, only_newlines-lines,
  no_dash-lines,
}

-- Where a part that starts with a dash is looked for, text without a dash is passed over.
find_text_skip :
    (part text rest : Bytes)
    → contains b'-' text ≡ false
    → find_text (b'-' ∷ part) (text ++ rest) ≡ find_text (b'-' ∷ part) rest
unfolding find_text
find_text_skip part [] rest h = refl
find_text_skip part (c ∷ text) rest h = ground (arith, find_text_skip part text rest)

starts-append : (part rest : Bytes) → starts part (part ++ rest) ≡ true
starts-append [] rest = refl
starts-append (c ∷ part) rest = ground (arith, starts-append part rest)

drop-append : (part rest : Bytes) → drop (length part) (part ++ rest) ≡ rest
drop-append [] rest = refl
drop-append (c ∷ part) rest = drop-append part rest

find_text_here :
    (c : ℕ) (part rest : Bytes) → find_text (c ∷ part) (c ∷ part ++ rest) ≡ some (c ∷ part ++ rest)
unfolding find_text
find_text_here c part rest = rw (starts-append (c ∷ part) rest) refl

between_lem :
    (t : PemType) (inner footer : Bytes) → between t (t.header ++ (inner ++ footer)) footer ≡ inner
between_lem t inner footer =
    let size : length (t.header ++ (inner ++ footer))
        ≡ length t.header + (length inner + length footer) =
      omega (arith, length-append t.header (inner ++ footer), length-append inner footer) in
    let within : ltb (length (t.header ++ (inner ++ footer)) - length footer) (length t.header)
        ≡ false =
      ground (arith, size) in
    let all_of_it : length (t.header ++ (inner ++ footer)) - length footer - length t.header
        ≡ length inner =
      omega (arith, size) in
    rw within (rw all_of_it (rw (drop-append t.header (inner ++ footer)) (take-key inner footer)))

abbrev end_of : Bytes → Bytes
end_of type_name = codes "-----END " ++ (type_name ++ codes "-----\n")

end_of_lem :
    (type_name : Bytes)
    → end_of type_name ≡ (codes "-----END " ++ (type_name ++ codes "-----")) ++ codes "\n"
end_of_lem type_name =
    ap (λ t. codes "-----END " ++ t) (sym (append_assoc type_name (codes "-----") (codes "\n")))

-- From the header on, the first footer of the type is the one behind the lines.
find_text-footer :
    (type_name lines : Bytes)
    → contains b'-' type_name ≡ false
    → contains b'-' lines ≡ false
    → (find_text
        (codes "-----END " ++ (type_name ++ codes "-----"))
        (codes "-----BEGIN " ++ (type_name ++ (codes "-----\n" ++ (lines ++ end_of type_name)))))
      ≡ some (end_of type_name)
unfolding find_text
find_text-footer type_name lines plain flat =
    let footer = codes "----END " ++ (type_name ++ codes "-----") in
    find_text_skip footer type_name (codes "-----\n" ++ (lines ++ end_of type_name)) plain
    ∙ (find_text_skip footer lines (end_of type_name) flat
        ∙ (ap (find_text (b'-' ∷ footer)) (end_of_lem type_name)
            ∙ (find_text_here b'-' footer (codes "\n") ∙ ap some (sym (end_of_lem type_name)))))

-- What stands from the header on.
abbrev from_header : Bytes → Bytes → Bytes
from_header type_name lines =
    codes "-----BEGIN " ++ (type_name ++ (codes "-----\n" ++ (lines ++ end_of type_name)))

from_header_lem :
    (type_name lines : Bytes)
    → (from_header type_name lines
        ≡ (codes "-----BEGIN " ++ (type_name ++ codes "-----"))
          ++ ((b'\n' ∷ lines) ++ end_of type_name))
from_header_lem type_name lines =
    ap (λ t. codes "-----BEGIN " ++ t)
      (sym (append_assoc type_name (codes "-----") ((b'\n' ∷ lines) ++ end_of type_name)))

module _ (b : Base64) where
  abbrev lines_of : Bytes → Bytes
  lines_of bytes = encoded_lines ((length (b.encode bytes) + 63) / 64) (b.encode bytes)

  lines_of-is_lines : (bytes : Bytes) → is_lines (lines_of bytes) ≡ true
  lines_of-is_lines bytes =
      is_lines-encoded_lines ((length (b.encode bytes) + 63) / 64) (b.encode bytes)
        (b.encode-plain bytes)

  decode-lines_of :
      (bytes : Bytes) → b.decode (b.collapse_whitespace (b'\n' ∷ lines_of bytes)) ≡ some bytes
  decode-lines_of bytes =
      ap b.decode (
        b.collapse_lines (b'\n' ∷ lines_of bytes)
          (only_newlines-lines (lines_of bytes) (lines_of-is_lines bytes))
        ∙ without_newlines-encoded_lines ((length (b.encode bytes) + 63) / 64) (b.encode bytes)
            (b.encode-plain bytes) (omega arith))
      ∙ b.decode-encode bytes

  at_footer-lines :
      (t : PemType) (bytes footer : Bytes)
      → (at_footer b.decode b.collapse_whitespace t
          (t.header ++ ((b'\n' ∷ lines_of bytes) ++ footer))
          (some footer))
        ≡ block t.type_name (drop (length t.footer) footer)
  at_footer-lines t bytes footer =
      rw
        (
          at_footer,
          ap (λ x. b.decode (b.collapse_whitespace x))
                (between_lem t (b'\n' ∷ lines_of bytes) footer)
              ∙ decode-lines_of bytes,
        )
        refl

  try_types-first :
      (t : PemType) (text footer : Bytes)
      → starts t.header text ≡ true
      → find_text t.footer text ≡ some footer
      → (try_types b.decode b.collapse_whitespace (t ∷ []) text
          ≡ at_footer b.decode b.collapse_whitespace t text (some footer))
  unfolding try_types
  try_types-first t text footer here found = rw here (rw found refl)

  try_types-from_header :
      (type_name bytes : Bytes)
      → contains 0 type_name ≡ false
      → contains b'-' type_name ≡ false
      → (try_types b.decode b.collapse_whitespace
          (pem_type type_name ∷ [])
          (from_header type_name (lines_of bytes)))
        ≡ block type_name (codes "\n")
  try_types-from_header type_name bytes text plain =
      let t = pem_type type_name in
      let lines = lines_of bytes in
      let footer = end_of type_name in
      let named : c_str type_name ≡ type_name = c_str_lem type_name text in
      let split : from_header type_name lines ≡ t.header ++ ((b'\n' ∷ lines) ++ footer) =
        from_header_lem type_name lines
        ∙ ap (λ x. (codes "-----BEGIN " ++ (x ++ codes "-----")) ++ ((b'\n' ∷ lines) ++ footer))
            (sym named) in
      let ended : footer ≡ t.footer ++ codes "\n" =
        end_of_lem type_name
        ∙ ap (λ x. (codes "-----END " ++ (x ++ codes "-----")) ++ codes "\n") (sym named) in
      try_types-first t (from_header type_name lines) footer
        (ap (starts t.header) split ∙ starts-append t.header ((b'\n' ∷ lines) ++ footer))
        (ap
            (λ x.
              find_text (codes "-----END " ++ (x ++ codes "-----")) (from_header type_name lines))
            named
          ∙ find_text-footer type_name lines plain (no_dash-lines lines (lines_of-is_lines bytes)))
      ∙ (ap (λ x. at_footer b.decode b.collapse_whitespace t x (some footer)) split
          ∙ (at_footer-lines t bytes footer
              ∙ ap (block type_name)
                  (ap (drop (length t.footer)) ended ∙ drop-append t.footer (codes "\n"))))

  -- With the documented laws of Base64 and of CollapseWhitespaceASCII, for a type that has no NUL
  -- and no dash: on a text that PEMEncode made, GetNext returns true, has the type as block_type
  -- and stands in front of the newline behind the footer; data() is empty, whatever bytes were
  -- encoded.
  pub pem_get_next-pem_encode :
      (bytes type_name : Bytes)
      → contains 0 type_name ≡ false
      → contains b'-' type_name ≡ false
      → (pem_get_next b.decode b.collapse_whitespace
          (new_pem_tokenizer (pem_encode b.encode bytes type_name) (type_name ∷ [])))
        ≡ (
          true,
          record {
            rest = some (codes "\n");
            block_type = type_name;
            block_types = pem_type type_name ∷ [];
            decoded = [];
          },
        )
  unfolding pem_get_next search find_text new_pem_tokenizer pem_encode
  pem_get_next-pem_encode bytes type_name text plain =
      rw (try_types-from_header type_name bytes text plain) refl
