-- ===== src/Net/Pem.antt =====
-- src/net/cert/pem.cc: `PEMTokenizer` and `PEMEncode`. A position in the text is what follows it, or
-- `none` for `npos`. Base64 and `CollapseWhitespaceASCII` belong to other projects.
pub mod Decoded
pub mod Rounds
pub mod Lines
pub mod RoundTrip
mod Tests
use nginx_quic_stack.Base.{
  ℕ, ◌+◌, ◌-◌, ◌/◌, zero, suc, Bool, true, false, List, [], ◌∷◌, ◌++◌, Option, none, some,
  if◌then◌else◌, ◌==◌, ltb, is_nil, length, take, drop,
}
use nginx_quic_stack.Base.Bytes.{Bytes, codes}
use nginx_quic_stack.Http.Pieces.{c_str}

pub record PemType : Type 0 where
  pub type_name : Bytes
  pub header : Bytes
  pub footer : Bytes

-- `block_type_` and `data_`, which no constructor sets, start empty.
pub record PemTokenizer : Type 0 where
  pub rest : Option Bytes
  pub block_type : Bytes
  pub block_types : List PemType
  pub decoded : Bytes

abbrev pub k_pem_search_block : Bytes
k_pem_search_block = codes "-----BEGIN "

-- The formats are filled with C strings.
abbrev pub pem_type : Bytes → PemType
pem_type allowed = record {
  type_name = allowed;
  header = codes "-----BEGIN " ++ (c_str allowed ++ codes "-----");
  footer = codes "-----END " ++ (c_str allowed ++ codes "-----");
}

abbrev pub pem_types : List Bytes → List PemType
pem_types [] = []
pem_types (t ∷ allowed) = pem_type t ∷ pem_types allowed

unfoldable pub new_pem_tokenizer : Bytes → List Bytes → PemTokenizer
new_pem_tokenizer text allowed_block_types = record {
  rest = some text;
  block_type = [];
  block_types = pem_types allowed_block_types;
  decoded = [];
}

abbrev pub starts : Bytes → Bytes → Bool
starts [] text = true
starts (p ∷ front) [] = false
starts (p ∷ front) (c ∷ text) = let more = starts front text in if p == c then more else false

-- `find`, as the text from there on.
unfoldable pub find_text : Bytes → Bytes → Option Bytes
find_text part [] = if is_nil part then some [] else none
find_text part (c ∷ text) =
    let later = find_text part text in if starts part (c ∷ text) then some (c ∷ text) else later

-- What stands between a header and the footer that is found.
abbrev pub between : PemType → Bytes → Bytes → Bytes
between t block footer =
    let footer_pos = length block - length footer in
    let behind = drop (length t.header) block in
    if ltb footer_pos (length t.header) then behind else take (footer_pos - length t.header) behind

-- What the types make of the block at a place.
pub data Attempt : Type 0 where
  no_type : Attempt
  no_footer : Attempt
  bad_data : Bytes → Bytes → Attempt
  block : Bytes → Bytes → Attempt

abbrev pub rest_length : Option Bytes → ℕ
rest_length none = 0
rest_length (some text) = length text

module _ (base64_decode : Bytes → Option Bytes) (collapse_whitespace : Bytes → Bytes) where
  abbrev pub at_footer : PemType → Bytes → Option Bytes → Attempt
  at_footer t text none = no_footer
  at_footer t text (some footer) =
      elim (base64_decode (collapse_whitespace (between t text footer))) [
        | none ↦ bad_data t.type_name (drop (length t.footer) footer)
        | some data_text ↦ block t.type_name (drop (length t.footer) footer)
      ]

  unfoldable pub try_types : List PemType → Bytes → Attempt
  unfolding find_text
  try_types [] text = no_type
  try_types (t ∷ types) text =
      let others = try_types types text in
      if starts t.header text then at_footer t text (find_text t.footer text) else others

  -- A type that is not allowed is passed over by the size of the array that holds the search block,
  -- which counts its end. The loop goes on with `again`.
  abbrev pub after_attempt :
      (PemTokenizer → Bool × PemTokenizer) → PemTokenizer → Bytes → Attempt → Bool × PemTokenizer
  after_attempt again p text no_type =
      again (record p { rest = some (drop (length k_pem_search_block + 1) text) })
  after_attempt again p text no_footer = (false, record p { rest = none })
  after_attempt again p text (bad_data type_name rest) =
      again (record p { rest = some rest; block_type = type_name })
  after_attempt again p text (block type_name rest) =
      (true, record p { rest = some rest; block_type = type_name })

  abbrev pub at_block :
      (PemTokenizer → Bool × PemTokenizer) → PemTokenizer → Option Bytes → Bool × PemTokenizer
  at_block again p none = (false, record p { rest = none })
  at_block again p (some text) = after_attempt again p text (try_types p.block_types text)

  abbrev pub in_text :
      (PemTokenizer → Bool × PemTokenizer) → PemTokenizer → Option Bytes → Bool × PemTokenizer
  in_text again p none = (false, p)
  in_text again p (some text) = at_block again p (find_text k_pem_search_block text)

  -- The loop; each round takes a byte at least.
  unfoldable pub search : ℕ → PemTokenizer → Bool × PemTokenizer
  unfolding try_types find_text
  search zero p = (false, p)
  search (suc fuel) p = in_text (search fuel) p p.rest

  unfoldable pub pem_get_next : PemTokenizer → Bool × PemTokenizer
  unfolding search
  pem_get_next p = search (suc (rest_length p.rest)) p

-- Lines of 64 characters.
abbrev pub encoded_lines : ℕ → Bytes → Bytes
encoded_lines zero text = []
encoded_lines (suc chunks) text = take 64 text ++ b'\n' ∷ encoded_lines chunks (drop 64 text)

unfoldable pub pem_encode : (Bytes → Bytes) → Bytes → Bytes → Bytes
pem_encode base64_encode bytes type_name =
    let encoded = base64_encode bytes in
    codes "-----BEGIN "
    ++ (type_name
        ++ (codes "-----\n"
            ++ (encoded_lines ((length encoded + 63) / 64) encoded
                ++ (codes "-----END " ++ (type_name ++ codes "-----\n")))))
