-- ===== src/Concrete/Splitter.antt =====
-- Lines at "\r\n", trimmed, the empty ones left out.
use nginx_quic_stack.Base.{
  ℕ, true, false, ◌&&◌, List, [], ◌∷◌, ◌++◌, if◌then◌else◌, ◌==◌, is_nil, all, ◌≡◌, refl, ap, sym,
  ◌∙◌, arith, append_assoc, append-nil,
}
use nginx_quic_stack.Base.Bytes.{Bytes}
use nginx_quic_stack.Http.Pieces.{contains, is_space}
use nginx_quic_stack.Http.Util.{last_of}
use nginx_quic_stack.Http.RequestHeaders.FromString.{is_solid, LineSplitter}

trim_start : Bytes → Bytes
trim_start [] = []
trim_start (c ∷ text) = let rest = trim_start text in if is_space c then rest else c ∷ text

trim_end : Bytes → Bytes
trim_end [] = []
trim_end (c ∷ text) = let rest = trim_end text in if is_nil rest && is_space c then [] else c ∷ rest

pub emit : Bytes → List Bytes → List Bytes
unfolding trim_start trim_end
emit piece rest =
    let trimmed = trim_end (trim_start piece) in if is_nil trimmed then rest else trimmed ∷ rest

pub cut : Bytes → Bytes → List Bytes
unfolding emit
cut piece [] = emit piece []
cut piece (c ∷ []) = emit (piece ++ c ∷ []) []
cut piece (c ∷ d ∷ text) =
    let here = emit piece (cut [] text) in
    let on = cut (piece ++ c ∷ []) (d ∷ text) in if (c == b'\r') && (d == b'\n') then here else on

pub cut-line :
    (piece line rest : Bytes)
    → contains b'\r' line ≡ false
    → cut piece (line ++ b'\r' ∷ b'\n' ∷ rest) ≡ emit (piece ++ line) (cut [] rest)
unfolding cut
cut-line piece [] rest h = ap (λ p. emit p (cut [] rest)) (sym (append-nil piece))
cut-line piece (c ∷ []) rest h = ground (arith)
cut-line piece (c ∷ d ∷ line) rest h =
    ground
      (arith, cut-line (piece ++ c ∷ []) (d ∷ line) rest, append_assoc piece (c ∷ []) (d ∷ line))

trim_start-blank : (spaces : Bytes) → all is_space spaces ≡ true → trim_start spaces ≡ []
unfolding trim_start
trim_start-blank [] h = refl
trim_start-blank (c ∷ spaces) h = ground (arith, trim_start-blank spaces)

trim_end-blank : (spaces : Bytes) → all is_space spaces ≡ true → trim_end spaces ≡ []
unfolding trim_end
trim_end-blank [] h = refl
trim_end-blank (c ∷ spaces) h = ground (arith, trim_end-blank spaces)

trim_end-solid :
    (c : ℕ) (text spaces : Bytes)
    → is_space (last_of c text) ≡ false
    → all is_space spaces ≡ true
    → trim_end ((c ∷ text) ++ spaces) ≡ c ∷ text
unfolding trim_end
trim_end-solid c [] spaces h k = ground (arith, trim_end-blank spaces)
trim_end-solid c (x ∷ text) spaces h k = rw (trim_end-solid x text spaces h k) refl

emit-solid :
    (line spaces : Bytes) (rest : List Bytes)
    → is_solid line ≡ true
    → all is_space spaces ≡ true
    → emit (line ++ spaces) rest ≡ line ∷ rest
unfolding emit trim_start
emit-solid [] spaces rest h k = cc
emit-solid (c ∷ text) spaces rest h k = ground (arith, trim_end-solid c text spaces)

pub emit-blank :
    (spaces : Bytes) (rest : List Bytes) → all is_space spaces ≡ true → emit spaces rest ≡ rest
unfolding emit trim_end
emit-blank spaces rest k = rw (trim_start-blank spaces k) refl

contains-concat :
    (s t : Bytes)
    → contains b'\r' s ≡ false
    → contains b'\r' t ≡ false
    → contains b'\r' (s ++ t) ≡ false
contains-concat [] t h k = k
contains-concat (x ∷ s) t h k = ground (arith, contains-concat s t)

pub split_line :
    (line spaces rest : Bytes)
    → contains b'\r' line ≡ false
    → contains b'\r' spaces ≡ false
    → is_solid line ≡ true
    → all is_space spaces ≡ true
    → cut [] (line ++ (spaces ++ b'\r' ∷ b'\n' ∷ rest)) ≡ line ∷ cut [] rest
split_line line spaces rest h k solid blank =
    ap (cut []) (sym (append_assoc line spaces (b'\r' ∷ b'\n' ∷ rest)))
    ∙ (cut-line [] (line ++ spaces) rest (contains-concat line spaces h k)
        ∙ emit-solid line spaces (cut [] rest) solid blank)

pub nothing : cut [] [] ≡ []
unfolding cut
nothing = refl

abbrev pub crlf_splitter : LineSplitter
crlf_splitter = record {
  split_lines = cut [];
  split_end = nothing;
  split_blank =
      λ spaces rest h blank. cut-line [] spaces rest h ∙ emit-blank spaces (cut [] rest) blank;
  split_line = split_line;
}
