-- ===== src/Stack/Config/Shared.antt =====
-- Servers that share the front of their names share their configuration.
use nginx_quic_stack.Base.{
  ℕ, Bool, false, [], ◌∷◌, ◌++◌, some, ◌==◌, is_nil, length, take, ◌≡◌, refl, ap, ◌∙◌, arith, all,
  not, true, length-take,
}
use nginx_quic_stack.Base.Bytes.{Bytes}
use nginx_quic_stack.Stack.Config.{
  Library, Machine, ConfigOptions, host_name_prefix, named_options, prefix_of,
  initialize_config_options, message_without_id, encoded_public_values, generate_config_protobuf,
}

-- A part of a name without dashes.
abbrev pub no_dash : Bytes → Bool
no_dash = all (λ c. not (c == b'-'))

host_name_prefix_none : (node : Bytes) → no_dash node ≡ true → host_name_prefix node ≡ []
unfolding host_name_prefix
host_name_prefix_none [] h = refl
host_name_prefix_none (c ∷ node) h = ground (arith, host_name_prefix_none node)

pub host_name_prefix-append :
    (group node : Bytes)
    → no_dash node ≡ true
    → host_name_prefix (group ++ b'-' ∷ node) ≡ group ++ b'-' ∷ []
unfolding host_name_prefix
host_name_prefix-append [] node h = ground (arith, host_name_prefix_none node)
host_name_prefix-append (c ∷ []) node h = ground (arith, host_name_prefix-append [] node)
host_name_prefix-append (c ∷ d ∷ group) node h =
    ground (arith, host_name_prefix-append (d ∷ group) node)

-- Options that leave nothing to the machine: an id, an orbit of its size, a time, and no second key.
record IsSettled (lib : Library) (options : ConfigOptions) : Type 0 where
  named : is_nil options.id ≡ false
  sized : length options.orbit == lib.orbit_size ≡ true
  timed : options.expiry_time == 0 ≡ false
  single : options.p256 ≡ false

generate_config_protobuf-IsSettled :
    (lib : Library) (one other : Machine) (options : ConfigOptions)
    → IsSettled lib options
    → generate_config_protobuf lib one options ≡ generate_config_protobuf lib other options
unfolding generate_config_protobuf message_without_id encoded_public_values
generate_config_protobuf-IsSettled lib one other options settled =
    rw (settled.named, settled.sized, settled.timed, settled.single) refl

-- What SHA-256 and an orbit are known for: 32 bytes, and 8.
pub record IsStandard (lib : Library) : Type 0 where
  pub digest : (text : Bytes) → length (lib.sha256 text) ≡ 32
  pub orbit : lib.orbit_size ≡ 8

is_nil-take : (text : Bytes) → length text ≡ 32 → is_nil (take 16 text) ≡ false
is_nil-take [] h = absurd (omega (arith, h))
is_nil-take (c ∷ text) h = refl

named_options-IsSettled :
    (lib : Library) (prefix : Bytes) (options : ConfigOptions)
    → IsStandard lib
    → is_nil prefix ≡ false
    → options.p256 ≡ false
    → IsSettled lib (named_options lib prefix options)
named_options-IsSettled lib [] options standard some_prefix single = cc
named_options-IsSettled lib (c ∷ prefix) options standard some_prefix single =
    let digest = standard.digest (c ∷ prefix) in
    let front = length-take 8 (lib.sha256 (c ∷ prefix)) in
    let size : length (take 8 (lib.sha256 (c ∷ prefix))) ≡ lib.orbit_size =
      omega (arith, front, digest, standard.orbit) in
    record {
      named = is_nil-take (lib.sha256 (c ∷ prefix)) digest;
      sized = ground (arith, size);
      timed = refl;
      single = single;
    }

is_nil-concat : (group : Bytes) (c : ℕ) → is_nil (group ++ c ∷ []) ≡ false
is_nil-concat [] c = refl
is_nil-concat (x ∷ group) c = refl

-- Where SHA-256 gives 32 bytes and an orbit has 8, and the options have no second key exchange:
-- two machines whose names differ only behind the last dash make the same server configuration,
-- whatever their random bytes and times are.
pub generate_config_protobuf_shared :
    (lib : Library) (one other : Machine) (options : ConfigOptions) (group m n : Bytes)
    → IsStandard lib
    → options.p256 ≡ false
    → one.host_name ≡ some (group ++ b'-' ∷ m)
    → other.host_name ≡ some (group ++ b'-' ∷ n)
    → no_dash m ≡ true
    → no_dash n ≡ true
    → generate_config_protobuf lib one (initialize_config_options lib one options)
      ≡ generate_config_protobuf lib other (initialize_config_options lib other options)
unfolding initialize_config_options
generate_config_protobuf_shared lib one other options group m n standard single first second p q =
    let prefix = group ++ b'-' ∷ [] in
    let from_one : prefix_of one.host_name ≡ prefix =
      ap prefix_of first ∙ host_name_prefix-append group m p in
    let from_other : prefix_of other.host_name ≡ prefix =
      ap prefix_of second ∙ host_name_prefix-append group n q in
    rw (from_one, from_other)
      (generate_config_protobuf-IsSettled lib one other (named_options lib prefix options)
        (named_options-IsSettled lib prefix options standard (is_nil-concat group b'-') single))
