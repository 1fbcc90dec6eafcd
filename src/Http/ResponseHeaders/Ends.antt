-- ===== src/Http/ResponseHeaders/Ends.antt =====
-- Where the trimmed values of a header line start and end.
use nginx_quic_stack.Base.{
  ℕ, ◌+◌, ◌≤◌, Bool, true, not, List, [], ◌∷◌, ◌++◌, length, drop, ◌≡◌, refl, ap, sym, ◌∙◌, arith,
  append_assoc, length-append, subst, Bool-cases, inl, inr,
}
use nginx_quic_stack.Base.Bytes.{Bytes}
use nginx_quic_stack.Http.Pieces.{StringPiece, is_lws, char_at, trim_left, trim_right, trim_lws}
use nginx_quic_stack.Http.Texts.{drop-key, last_of-append}
use nginx_quic_stack.Http.Tokens.{joined}
use nginx_quic_stack.Http.Util.{last_of}

-- No white space at the end, and at neither end.
abbrev pub ends_solid : Bytes → Bool
ends_solid [] = true
ends_solid (c ∷ text) = not (is_lws (last_of c text))

abbrev pub starts_solid : Bytes → Bool
starts_solid [] = true
starts_solid (c ∷ text) = not (is_lws c)

char_at-last_append :
    (c : ℕ) (text rest : Bytes) → char_at (length text) (c ∷ (text ++ rest)) ≡ last_of c text
char_at-last_append c [] rest = refl
char_at-last_append c (x ∷ text) rest = char_at-last_append x text rest

abbrev Ends : Bytes → Bytes → StringPiece → Type 0
Ends text rest w = (length w.from ≡ w.size + length rest) × (w.size ≤ length text)

trim_right-solid :
    (text rest : Bytes)
    → ends_solid text ≡ true
    → trim_right (length text) (text ++ rest) ≡ length text
unfolding trim_right
trim_right-solid [] rest h = refl
trim_right-solid (c ∷ text) rest h = ground (arith, char_at-last_append c text rest)

-- Trimming on the left leaves an end of the text.
trim_left-solid :
    (text rest : Bytes)
    → ends_solid text ≡ true
    → (u : Bytes) × (trim_left (length text) (text ++ rest)
        ≡ record { from = u ++ rest; size = length u })
      × (ends_solid u ≡ true)
      × (length u ≤ length text)
unfolding trim_left
trim_left-solid [] rest h = ([], refl, refl, omega arith)
trim_left-solid (c ∷ []) rest h = (c ∷ [], ground arith, h, omega arith)
trim_left-solid (c ∷ x ∷ text) rest h = elim (Bool-cases (is_lws c)) [
  | inl space ↦
      let (u, same_piece, solid, short) = trim_left-solid (x ∷ text) rest h in
      (u, rw space same_piece, solid, omega (arith, short))
  | inr solid ↦ (c ∷ x ∷ text, rw solid refl, h, omega arith)
]

trim_lws-Ends :
    (text rest : Bytes)
    → ends_solid text ≡ true
    → Ends text rest (trim_lws (record { from = text ++ rest; size = length text }))
unfolding trim_lws
trim_lws-Ends text rest h =
    let (u, same_piece, solid, short) = trim_left-solid text rest h in
    subst (λ p. Ends text rest (record p { size = trim_right p.size p.from })) (sym same_piece)
      (subst (λ k. (length (u ++ rest) ≡ k + length rest) × (k ≤ length text))
        (sym (trim_right-solid u rest solid)) (length-append u rest, short))

trim_lws-starts :
    (text rest : Bytes)
    → starts_solid text ≡ true
    → (trim_lws (record { from = text ++ rest; size = length text })).from ≡ text ++ rest
unfolding trim_lws trim_left
trim_lws-starts [] rest h = refl
trim_lws-starts (c ∷ text) rest h = ground arith

-- A text without white space at its ends is left as it is.
pub trim_lws-solid :
    (text rest : Bytes)
    → starts_solid text ≡ true
    → ends_solid text ≡ true
    → trim_lws (record { from = text ++ rest; size = length text })
      ≡ record { from = text ++ rest; size = length text }
unfolding trim_lws trim_left
trim_lws-solid [] rest starts_well ends_well = refl
trim_lws-solid (c ∷ text) rest starts_well ends_well =
    let kept = trim_right-solid (c ∷ text) rest ends_well in ground (arith)

ends_solid-behind :
    (t : Bytes) (c : ℕ) (text : Bytes) → ends_solid (t ++ c ∷ text) ≡ true → ends_solid text ≡ true
ends_solid-behind t c [] h = refl
ends_solid-behind [] c (x ∷ text) h = h
ends_solid-behind (y ∷ t) c (x ∷ text) h =
    subst (λ k. not (is_lws k) ≡ true) (last_of-append y c t (x ∷ text)) h

-- The last of the values that start at a place, trimmed.
abbrev pub last_trimmed : Bytes → Bytes → List Bytes → StringPiece
last_trimmed from t [] = trim_lws (record { from = from; size = length t })
last_trimmed from t (u ∷ ts) = last_trimmed (drop (length t + 1) from) u ts

pub last_trimmed-Ends :
    (t : Bytes) (ts : List Bytes) (rest : Bytes)
    → ends_solid (joined (t ∷ ts)) ≡ true
    → Ends (joined (t ∷ ts)) rest (last_trimmed (joined (t ∷ ts) ++ rest) t ts)
last_trimmed-Ends t [] rest h = trim_lws-Ends t rest h
last_trimmed-Ends t (u ∷ ts) rest h =
    let text = joined (u ∷ ts) in
    let behind : drop (length t + 1) ((t ++ b',' ∷ text) ++ rest) ≡ text ++ rest =
      ap (drop (length t + 1)) (append_assoc t (b',' ∷ text) rest)
      ∙ drop-key t (text ++ rest) b',' (length t + 1) refl in
    let (after, short) = last_trimmed-Ends u ts rest (ends_solid-behind t b',' text h) in
    let w = last_trimmed (text ++ rest) u ts in
    subst (λ from. Ends (t ++ b',' ∷ text) rest (last_trimmed from u ts)) (sym behind)
      (after, omega (arith, short, length-append t (b',' ∷ text)))

-- The first of them starts where the text does.
pub first_trimmed-starts :
    (t : Bytes) (ts : List Bytes) (rest : Bytes)
    → starts_solid (joined (t ∷ ts)) ≡ true
    → (trim_lws (record { from = joined (t ∷ ts) ++ rest; size = length t })).from
      ≡ joined (t ∷ ts) ++ rest
unfolding trim_lws trim_left
first_trimmed-starts t [] rest h = trim_lws-starts t rest h
first_trimmed-starts [] (u ∷ ts) rest h = refl
first_trimmed-starts (c ∷ t) (u ∷ ts) rest h = ground arith
