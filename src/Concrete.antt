-- ===== src/Concrete.antt =====
-- The parameters of the model at concrete functions, for the tests.
pub mod Splitter
pub mod Tokenizer
use nginx_quic_stack.Base.{
  take, length, ℕ, ◌+◌, Bool, true, ◌≡◌, refl, ◌&&◌, List, [], ◌∷◌, if◌then◌else◌, is_nil, leb,
  subst,
}
use nginx_quic_stack.Base.Bytes.{Bytes, same, eq_of_same, same_self}
use nginx_quic_stack.Http.Ascii.{AsciiCase}
use nginx_quic_stack.Stream.State.{SpdyHeaderBlock}

abbrev lower_byte : ℕ → ℕ
lower_byte c = if leb 65 c && leb c 90 then c + 32 else c

abbrev lower : Bytes → Bytes
lower [] = []
lower (c ∷ cs) = lower_byte c ∷ lower cs

abbrev pub ascii_case : AsciiCase
ascii_case = record {
  to_lower_ascii = lower;
  equals_case_insensitive_ascii = λ a b. same (lower a) (lower b);
  equals_iff = λ a b. (
    eq_of_same (lower a) (lower b),
    λ e. subst (λ t. same (lower a) t ≡ true) e (same_self (lower a)),
  );
  lower_case_equals_ascii = λ a b. same (lower a) b;
  lower_case_iff = λ a b.
      (eq_of_same (lower a) b, λ e. subst (λ t. same (lower a) t ≡ true) e (same_self (lower a)));
  starts_with = λ text front. same (lower (take (length front) text)) (lower front);
  starts_with_iff = λ text front. (
    eq_of_same (lower (take (length front) text)) (lower front),
    λ e.
        subst (λ t. same (lower (take (length front) text)) t ≡ true) e
          (same_self (lower (take (length front) text))),
  );
}

-- A block as the list of its assignments, the last one first.
abbrev pub header_list_block : SpdyHeaderBlock
header_list_block = record {
  Block = List (Bytes × Bytes);
  empty_block = [];
  assign = λ k v b. (k, v) ∷ b;
  append_value_or_add_header = λ k v b. (k, v) ∷ b;
  is_empty_block = is_nil;
  is_empty-empty = refl;
  is_empty-assign = λ k v b. refl;
}

-- Names match only themselves.
abbrev pub match_same : Bytes → Bytes → Bool
match_same = same
