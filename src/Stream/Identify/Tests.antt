-- ===== src/Stream/Identify/Tests.antt =====
-- Server identities at concrete inputs.
use nginx_quic_stack.Base.{◌≡◌, refl, some, [], ◌∷◌}
use nginx_quic_stack.Base.Bytes.{codes, same}
use nginx_quic_stack.Stream.Identify.{
  ServerIdentify, get_server_identify_by_name, add_server_identify,
}

abbrev server : ServerIdentify
server = record { name = codes "a"; cert_path = codes "c"; key_path = codes "k"; ctx = 1 }

abbrev other_server : ServerIdentify
other_server = record { name = codes "b"; cert_path = codes "c"; key_path = codes "k"; ctx = 2 }

found_again :
    get_server_identify_by_name same
      (codes "b")
      (add_server_identify same other_server (server ∷ [])).0
    ≡ some other_server
unfolding get_server_identify_by_name add_server_identify same
found_again = refl
