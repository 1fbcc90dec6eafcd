-- ===== src/Stream/Identify.antt =====
-- `tQuicServerIdentify` and `tQuicServerIdentifyManager` of src/tQuicServerStream.cc. The pattern
-- matcher `gurl_base::MatchPattern` belongs to another project and is an argument; it takes the
-- name first and the pattern second. A server's context is an address, a number.
use nginx_quic_stack.Base.{
  ℕ, Bool, true, false, ◌≡◌, refl, List, [], ◌∷◌, ◌++◌, Option, none, some, if◌then◌else◌, arith,
}
use nginx_quic_stack.Base.Bytes.{Bytes}
mod Tests

pub record ServerIdentify : Type 0 where
  pub name : Bytes
  pub cert_path : Bytes
  pub key_path : Bytes
  pub ctx : ℕ

module _ (match_pattern : Bytes → Bytes → Bool) where
  unfoldable pub get_server_identify_by_name : Bytes → List ServerIdentify → Option ServerIdentify
  get_server_identify_by_name name [] = none
  get_server_identify_by_name name (i ∷ servers) =
      if match_pattern name i.name then some i else get_server_identify_by_name name servers

  abbrev after_lookup :
      Option ServerIdentify → ServerIdentify → List ServerIdentify → List ServerIdentify × Bool
  after_lookup none qsi servers = (servers ++ qsi ∷ [], true)
  after_lookup (some p) qsi servers = (servers, false)

  unfoldable pub add_server_identify :
      ServerIdentify → List ServerIdentify → List ServerIdentify × Bool
  add_server_identify qsi servers =
      after_lookup (get_server_identify_by_name qsi.name servers) qsi servers

  lookup_concat :
      (name : Bytes) (qsi : ServerIdentify) (servers : List ServerIdentify)
      → get_server_identify_by_name name (servers ++ qsi ∷ [])
        ≡ elim (get_server_identify_by_name name servers) as (λ _. Option ServerIdentify) [
          | some i ↦ some i
          | none ↦ if match_pattern name qsi.name then some qsi else none
        ]
  unfolding get_server_identify_by_name
  lookup_concat name qsi [] = refl
  lookup_concat name qsi (i ∷ servers) = ground (arith, lookup_concat name qsi servers)

  -- What a lookup gives after a server was added.
  abbrev pub found_after :
      Bytes → ServerIdentify → Option ServerIdentify → Option ServerIdentify → Option ServerIdentify
  found_after name qsi (some i) own = some i
  found_after name qsi none (some other) = none
  found_after name qsi none none = if match_pattern name qsi.name then some qsi else none

  -- After AddServerIdentify: a name that was found still gives the same server; one that was not
  -- gives the new server if it matches its name and the new server's own name matched none before,
  -- and nothing otherwise.
  pub get_server_identify_by_name-add_server_identify :
      (name : Bytes) (qsi : ServerIdentify) (servers : List ServerIdentify)
      → get_server_identify_by_name name (add_server_identify qsi servers).0
        ≡ found_after name qsi
            (get_server_identify_by_name name servers)
            (get_server_identify_by_name qsi.name servers)
  unfolding add_server_identify
  get_server_identify_by_name-add_server_identify name qsi servers =
      ground (arith, lookup_concat name qsi servers)
