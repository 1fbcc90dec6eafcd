-- ===== src/Base/Bytes.antt =====
-- Byte strings: a `std::string` or a `StringPiece` is the list of its bytes.
use nginx_quic_stack.Base.Tests.{◌==◌, if◌then◌else◌}
use nginx_quic_stack.Base.Lists.{is_nil}
use Prim.Native.Char.{code}
use Prim.Native.Nat.{ℕ}
use Prim.Native.String.{String}
use mathlib.Core.Bool.{Bool, true, false}
use mathlib.Core.List.{List, [], ◌∷◌}
use mathlib.Core.Path.{◌≡◌, refl}
use native.Mathlib.Omega.{arith}

abbrev pub Bytes : Type 0
Bytes = List ℕ

-- The code points of a literal; these are its bytes when the text is ASCII.
abbrev pub codes : String → Bytes
codes String.[] = []
codes (String.◌∷◌ c s) = code c ∷ codes s

-- `operator==` of two strings.
unfoldable pub same : Bytes → Bytes → Bool
same [] other = is_nil other
same (b ∷ bytes) [] = false
same (b ∷ bytes) (o ∷ other) = if b == o then same bytes other else false

pub eq_of_same : (s t : Bytes) → same s t ≡ true → s ≡ t
unfolding same
eq_of_same [] [] h = refl
eq_of_same [] (o ∷ other) h = cc
eq_of_same (b ∷ bytes) [] h = cc
eq_of_same (b ∷ bytes) (o ∷ other) h = ground (arith, eq_of_same bytes other)

pub same_self : (s : Bytes) → same s s ≡ true
unfolding same
same_self [] = refl
same_self (b ∷ bytes) = ground (arith, same_self bytes)

pub same_comm : (s t : Bytes) → same s t ≡ same t s
unfolding same
same_comm [] [] = refl
same_comm [] (o ∷ other) = refl
same_comm (b ∷ bytes) [] = refl
same_comm (b ∷ bytes) (o ∷ other) = ground (arith, same_comm bytes other)
