-- ===== src/Http/Parameters.antt =====
-- Names with their values as a sender writes them, in headers that hold parameters or pairs.
use nginx_quic_stack.Base.{Bool, true, false, List, [], ◌∷◌, ◌++◌, if◌then◌else◌, ◌≡◌}
use nginx_quic_stack.Base.Bytes.{Bytes}
use nginx_quic_stack.Http.ContentType.{Parameter}
use nginx_quic_stack.Http.Pieces.{trim_lws, text_of, whole}
use nginx_quic_stack.Http.Util.{is_token, quote}

-- A parameter as a sender writes it: the value in quotes, or as a token.
pub record Printed : Type 0 where
  pub name : Bytes
  pub value : Bytes
  pub in_quotes : Bool

abbrev pub print_value : Printed → Bytes
print_value p = if p.in_quotes then quote p.value else p.value

abbrev pub print_parameters : List Printed → Bytes
print_parameters [] = []
print_parameters (p ∷ ps) = b';' ∷ b' ' ∷ (p.name ++ b'=' ∷ (print_value p ++ print_parameters ps))

abbrev pub AllParameters : List Printed → Type 0
AllParameters [] = Unit {0}
AllParameters (p ∷ ps) =
    ((is_token p.name ≡ true) × (p.in_quotes ≡ false → is_token p.value ≡ true)) × AllParameters ps

-- White space at the ends of a quoted value is not read.
abbrev pub read_back : Printed → Parameter
read_back p = (p.name, if p.in_quotes then text_of (trim_lws (whole p.value)) else p.value)
