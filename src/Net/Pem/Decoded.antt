-- ===== src/Net/Pem/Decoded.antt =====
-- What `PEMTokenizer::data` gives: `GetNext` decodes a block into a variable of its own.
use nginx_quic_stack.Base.{
  ℕ, ◌+◌, drop, length, zero, suc, Bool, List, [], Option, none, some, ◌≡◌, refl, ◌∙◌,
}
use nginx_quic_stack.Base.Bytes.{Bytes}
use nginx_quic_stack.Net.Pem.{
  PemTokenizer, new_pem_tokenizer, Attempt, no_type, no_footer, bad_data, block, try_types,
  after_attempt, at_block, in_text, search, pem_get_next, find_text, k_pem_search_block,
  rest_length,
}

module _ (base64_decode : Bytes → Option Bytes) (collapse_whitespace : Bytes → Bytes) where
  abbrev Keeps : (PemTokenizer → Bool × PemTokenizer) → Type 0
  Keeps again = (p : PemTokenizer) → (again p).1.decoded ≡ p.decoded

  after_attempt-Keeps :
      (again : PemTokenizer → Bool × PemTokenizer)
      → Keeps again
      → (p : PemTokenizer) (text : Bytes) (a : Attempt)
      → (after_attempt base64_decode collapse_whitespace again p text a).1.decoded ≡ p.decoded
  after_attempt-Keeps again keeps p text no_type =
      keeps (record p { rest = some (drop (length k_pem_search_block + 1) text) })
  after_attempt-Keeps again keeps p text no_footer = refl
  after_attempt-Keeps again keeps p text (bad_data type_name rest) =
      keeps (record p { rest = some rest; block_type = type_name })
  after_attempt-Keeps again keeps p text (block type_name rest) = refl

  at_block-Keeps :
      (again : PemTokenizer → Bool × PemTokenizer)
      → Keeps again
      → (p : PemTokenizer) (found : Option Bytes)
      → (at_block base64_decode collapse_whitespace again p found).1.decoded ≡ p.decoded
  at_block-Keeps again keeps p none = refl
  at_block-Keeps again keeps p (some text) =
      after_attempt-Keeps again keeps p text
        (try_types base64_decode collapse_whitespace p.block_types text)

  in_text-Keeps :
      (again : PemTokenizer → Bool × PemTokenizer)
      → Keeps again
      → (p : PemTokenizer) (text : Option Bytes)
      → (in_text base64_decode collapse_whitespace again p text).1.decoded ≡ p.decoded
  in_text-Keeps again keeps p none = refl
  in_text-Keeps again keeps p (some text) =
      at_block-Keeps again keeps p (find_text k_pem_search_block text)

  search-Keeps : (fuel : ℕ) → Keeps (search base64_decode collapse_whitespace fuel)
  unfolding search
  search-Keeps zero p = refl
  search-Keeps (suc fuel) p =
      in_text-Keeps (search base64_decode collapse_whitespace fuel) (search-Keeps fuel) p p.rest

  -- As many calls of GetNext.
  abbrev pub get_nexts : ℕ → PemTokenizer → PemTokenizer
  get_nexts zero p = p
  get_nexts (suc n) p = get_nexts n (pem_get_next base64_decode collapse_whitespace p).1

  get_nexts-decoded : (n : ℕ) (p : PemTokenizer) → (get_nexts n p).decoded ≡ p.decoded
  unfolding pem_get_next
  get_nexts-decoded zero p = refl
  get_nexts-decoded (suc n) p =
      get_nexts-decoded n (pem_get_next base64_decode collapse_whitespace p).1
      ∙ search-Keeps (suc (rest_length p.rest)) p

  -- For every text and all allowed types: however often GetNext is called, data() stays empty, also
  -- where GetNext has decoded a block and returned true.
  pub get_nexts-new_pem_tokenizer :
      (text : Bytes) (allowed : List Bytes) (n : ℕ)
      → (get_nexts n (new_pem_tokenizer text allowed)).decoded ≡ []
  unfolding new_pem_tokenizer
  get_nexts-new_pem_tokenizer text allowed n = get_nexts-decoded n (new_pem_tokenizer text allowed)
