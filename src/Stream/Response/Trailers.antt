-- ===== src/Stream/Response/Trailers.antt =====
-- `SplitString` and its inverse, which puts the delimiter behind each piece.
use nginx_quic_stack.Base.{
  ℕ, ◌≡◌, ◌≢◌, refl, Bool, true, false, List, [], ◌∷◌, ◌++◌, if◌then◌else◌, is_nil, ◌==◌, arith,
  Bool-cases, inl, inr, append_assoc,
}
use nginx_quic_stack.Base.Bytes.{Bytes}
use nginx_quic_stack.Stream.Response.Text.{split_from, split_string}

abbrev pub unsplit : ℕ → List Bytes → Bytes
unsplit delim [] = []
unsplit delim (p ∷ ps) = p ++ (delim ∷ unsplit delim ps)

-- A text with a delimiter at its end, where there was none; `at_start` says that the piece is
-- empty so far.
abbrev pub closed : ℕ → Bool → Bytes → Bytes
closed delim at_start [] = if at_start then [] else delim ∷ []
closed delim at_start (x ∷ xs) = x ∷ closed delim (x == delim) xs

abbrev pub Lacks : ℕ → Bytes → Type 0
Lacks delim [] = Unit {0}
Lacks delim (x ∷ xs) = (x ≢ delim) × Lacks delim xs

abbrev pub AllLack : ℕ → List Bytes → Type 0
AllLack delim [] = Unit {0}
AllLack delim (p ∷ ps) = Lacks delim p × AllLack delim ps

is_nil-concat : (head : Bytes) (x : ℕ) → is_nil (head ++ x ∷ []) ≡ false
is_nil-concat [] x = refl
is_nil-concat (y ∷ head) x = refl

Lacks-concat :
    (delim : ℕ) (head : Bytes) (x : ℕ) → Lacks delim head → x ≢ delim → Lacks delim (head ++ x ∷ [])
Lacks-concat delim [] x h k = (k, tt)
Lacks-concat delim (y ∷ head) x h k = (h.0, Lacks-concat delim head x h.1 k)

nil_of_is_nil : (xs : Bytes) → is_nil xs ≡ true → xs ≡ []
nil_of_is_nil [] h = refl
nil_of_is_nil (x ∷ xs) h = cc

unsplit-split_from :
    (delim : ℕ) (xs head : Bytes)
    → unsplit delim (split_from delim head xs) ≡ head ++ closed delim (is_nil head) xs
unfolding split_from
unsplit-split_from delim [] head = elim (Bool-cases (is_nil head)) [
  | inl e ↦ rw (e, nil_of_is_nil head e) refl
  | inr e ↦ rw e refl
]
unsplit-split_from delim (x ∷ xs) head = elim (Bool-cases (x == delim)) [
  | inl e ↦ rw (e, unsplit-split_from delim xs []) (ground (arith, e))
  | inr e ↦
      rw (e, unsplit-split_from delim xs (head ++ x ∷ []), is_nil-concat head x)
        (append_assoc head (x ∷ []) (closed delim false xs))
]

split_from-AllLack :
    (delim : ℕ) (xs head : Bytes) → Lacks delim head → AllLack delim (split_from delim head xs)
unfolding split_from
split_from-AllLack delim [] head h = elim (Bool-cases (is_nil head)) [
  | inl e ↦ rw e tt
  | inr e ↦ rw e (h, tt)
]
split_from-AllLack delim (x ∷ xs) head h = elim (Bool-cases (x == delim)) [
  | inl e ↦ rw e (h, split_from-AllLack delim xs [] tt)
  | inr e ↦ rw e (
      split_from-AllLack delim xs (head ++ x ∷ [])
        (Lacks-concat delim head x h (ground (arith, e))))
]

-- For every text and one-byte delimiter: no piece of SplitString contains the delimiter, and the
-- pieces, each with the delimiter behind it, make up the text, with a delimiter added at its end
-- where it is not empty and does not end in one.
pub unsplit-split_string :
    (str : Bytes) (delim : ℕ)
    → (unsplit delim (split_string str delim) ≡ closed delim true str)
      × AllLack delim (split_string str delim)
unfolding split_string
unsplit-split_string str delim =
    (unsplit-split_from delim str [], split_from-AllLack delim str [] tt)
