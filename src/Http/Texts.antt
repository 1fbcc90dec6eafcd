-- ===== src/Http/Texts.antt =====
-- Texts taken apart at a byte: what `find`, `substr` and the tests of a byte give on a text that is put
-- together.
use nginx_quic_stack.Base.{
  ℕ, ◌+◌, zero, suc, true, false, ◌||◌, [], ◌∷◌, ◌++◌, some, all, length, take, drop, ◌≡◌, refl, ap,
  arith,
}
use nginx_quic_stack.Base.Bytes.{Bytes}
use nginx_quic_stack.Http.Pieces.{contains, char_at, c_str, find_char}
use nginx_quic_stack.Http.Util.{is_token, is_token_char, is_valid_header_value, last_of}

pub take-length : (text : Bytes) → take (length text) text ≡ text
take-length [] = refl
take-length (c ∷ text) = ap (λ t. c ∷ t) (take-length text)

pub char_at-last : (c : ℕ) (text : Bytes) → char_at (length text) (c ∷ text) ≡ last_of c text
char_at-last c [] = refl
char_at-last c (x ∷ text) = char_at-last x text

pub contains-token :
    (c : ℕ) (key : Bytes)
    → is_token_char c ≡ false
    → all is_token_char key ≡ true
    → contains c key ≡ false
contains-token c [] other h = refl
contains-token c (x ∷ key) other h =
    let same_char : x ≡ c → is_token_char x ≡ is_token_char c = ap is_token_char in
    ground (arith, contains-token c key other, same_char)

pub contains-append : (c : ℕ) (s t : Bytes) → contains c (s ++ t) ≡ contains c s || contains c t
contains-append c [] t = refl
contains-append c (x ∷ s) t = ground (arith, contains-append c s t)

pub contains-value :
    (value : Bytes)
    → is_valid_header_value value ≡ true
    → (contains 0 value ≡ false) × (contains b'\r' value ≡ false)
unfolding is_valid_header_value
contains-value [] h = (refl, refl)
contains-value (x ∷ value) h = ground (arith, contains-value value)

pub c_str_lem : (text : Bytes) → contains 0 text ≡ false → c_str text ≡ text
c_str_lem [] h = refl
c_str_lem (c ∷ text) h = ground (arith, c_str_lem text)

pub find_char-key :
    (key rest : Bytes)
    → contains b':' key ≡ false
    → find_char b':' (length (key ++ b':' ∷ rest)) (key ++ b':' ∷ rest) ≡ some (length key)
unfolding find_char
find_char-key [] rest h = refl
find_char-key (x ∷ key) rest h = ground (arith, find_char-key key rest)

pub take-key : (key rest : Bytes) → take (length key) (key ++ rest) ≡ key
take-key [] rest = refl
take-key (c ∷ key) rest = ap (λ t. c ∷ t) (take-key key rest)

pub drop-key : (key rest : Bytes) (c n : ℕ) → n ≡ length key + 1 → drop n (key ++ c ∷ rest) ≡ rest
drop-key [] rest c n h = ap (λ k. drop k (c ∷ rest)) {y = 1} (omega (arith, h))
drop-key (x ∷ key) rest c zero h = absurd (omega (arith, h))
drop-key (x ∷ key) rest c (suc n) h = drop-key key rest c n (omega (arith, h))

pub last_of-append : (c x : ℕ) (s t : Bytes) → last_of c (s ++ x ∷ t) ≡ last_of x t
last_of-append c x [] t = refl
last_of-append c x (y ∷ s) t = last_of-append y x s t

pub contains-key : (key : Bytes) → is_token key ≡ true → contains 0 key ≡ false
unfolding is_token is_token_char
contains-key [] name = cc
contains-key (k ∷ key) name = contains-token 0 (k ∷ key) refl name
