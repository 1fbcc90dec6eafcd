-- ===== src/Http/Util/Blank.antt =====
-- Where a list of headers ends: behind the first blank line.
use nginx_quic_stack.Base.{
  ℕ, ◌+◌, Bool, true, false, ◌&&◌, [], ◌∷◌, Option, none, some, if◌then◌else◌, ◌==◌, drop, ◌≡◌,
  refl, arith,
}
use nginx_quic_stack.Base.Bytes.{Bytes}
use nginx_quic_stack.Http.Util.{
  end_of_headers, locate_end_of_headers, locate_end_of_additional_headers,
}

-- The bytes after a newline that end the line behind it: a newline, or both.
abbrev blank : Bytes → Option ℕ
blank [] = none
blank (c ∷ []) = if c == b'\n' then some 1 else none
blank (c ∷ d ∷ text) =
    if c == b'\n' then some 1 else if (c == b'\r') && (d == b'\n') then some 2 else none

-- How many bytes there are to the end of the first blank line, with a newline before them or not.
abbrev pub to_blank : Bool → ℕ → Bytes → Option ℕ
to_blank after_newline i [] = none
to_blank after_newline i (c ∷ text) =
    let later = to_blank (c == b'\n') (i + 1) text in
    if after_newline
    then elim (blank (c ∷ text)) as (λ _. Option ℕ) [ none ↦ later | some n ↦ some (i + n) ]
    else later

end_is_blank :
    (text : Bytes) (i last_c : ℕ)
    → end_of_headers i last_c (last_c == b'\n') text ≡ to_blank (last_c == b'\n') i text
unfolding end_of_headers
end_is_blank [] i last_c = refl
end_is_blank (c ∷ []) i last_c = ground arith
end_is_blank (c ∷ d ∷ text) i last_c =
    ground (arith, end_is_blank (d ∷ text) (i + 1) c, end_is_blank text (i + 1 + 1) d)

-- For every buffer and start: LocateEndOfHeaders gives the place behind the first blank line,
-- where a line is blank if a newline follows the newline before it, at once or after one carriage
-- return; LocateEndOfAdditionalHeaders gives the same with a newline thought before the start;
-- both give none if there is no such line.
pub locate_end_of_headers_lem :
    (buf : Bytes) (i : ℕ)
    → (locate_end_of_headers buf i ≡ to_blank false i (drop i buf))
      × (locate_end_of_additional_headers buf i ≡ to_blank true i (drop i buf))
unfolding locate_end_of_headers locate_end_of_additional_headers
locate_end_of_headers_lem buf i = (end_is_blank (drop i buf) i 0, end_is_blank (drop i buf) i b'\n')
