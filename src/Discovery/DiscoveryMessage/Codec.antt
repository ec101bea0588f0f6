-- ===== src/Discovery/DiscoveryMessage/Codec.antt =====
-- The bytes of a discovery message, and the round trip.
use mathlib.Core.Path.{subst}
use hzl_silicon_switch_lab.Base.{
  ℕ, ◌+◌, ◌%◌, ◌≤◌, ◌≡◌, refl, ap, ◌∙◌, sym, List, [], ◌∷◌, ◌++◌, some, arith, ltb-false, ==_refl,
  ==_false, length, set, copy_to, copy_to-append, replicate, replicate-add, length-replicate,
}
use hzl_silicon_switch_lab.Wire.Layout.{read-be_bytes}
use hzl_silicon_switch_lab.Wire.Fields.{Fields, fields_image, write_fields, write_fields-image}
use hzl_silicon_switch_lab.Discovery.DiscoveryMessage.{
  DiscoveryMessage, DiscoveryMessageType, query, advertisement, MachineRole, unspecified, leader,
  observer, parsed, IsMessage, MadeAs, Header, header_size, maximum_name_size, discovery_magic,
  current_version, type_number, role_number, known_type, valid_role, create_query, read_header,
  parsed_or_invalid, parse_fields, parse_role, parse_header, parse_discovery, serialize_discovery,
  is_unspecified, is_empty,
}

abbrev front_fields : Fields
front_fields = (4, discovery_magic) ∷ (2, current_version) ∷ []

abbrev back_fields : DiscoveryMessage → Fields
back_fields m =
    (4, m.capabilities)
    ∷ (8, m.request_id)
    ∷ (8, m.node_id)
    ∷ (2, m.control_port)
    ∷ (2, m.state_port)
    ∷ []

abbrev front : DiscoveryMessage → List ℕ
front m = fields_image front_fields ++ (type_number m.type ∷ role_number m.role ∷ [])

abbrev header_image : DiscoveryMessage → List ℕ
header_image m = front m ++ (fields_image (back_fields m) ++ (length m.name ∷ []))

-- The wire form of a message.
abbrev pub message_image : DiscoveryMessage → List ℕ
message_image m = header_image m ++ m.name

name_field : (n : ℕ) → n ≤ maximum_name_size → n % 256 ≡ n
name_field n h = omega arith

serialize_discovery-image :
    (m : DiscoveryMessage) → IsMessage m → serialize_discovery m ≡ message_image m
unfolding serialize_discovery
serialize_discovery-image m v =
    let n = length m.name in
    let rest : List ℕ = replicate n 0 in
    rw (name_field n v.name_fits, replicate-add {A = ℕ} 33 n 0)
      (ap
          (λ out.
            copy_to
              (set
                (write_fields (back_fields m)
                  (set (set out 6 (type_number m.type)) 7 (role_number m.role)) 8)
                32 n)
              header_size m.name)
          (write_fields-image front_fields [] (replicate {A = ℕ} 27 0 ++ rest) 0 refl)
        ∙ ap (λ out. copy_to (set out 32 n) header_size m.name)
            (write_fields-image (back_fields m) (front m) (0 ∷ rest) 8 refl)
        ∙ copy_to-append (header_image m) m.name rest (length-replicate n 0))

abbrev header_of : DiscoveryMessage → Header
header_of m = record {
  magic = discovery_magic;
  version = current_version;
  type = type_number m.type;
  role = role_number m.role;
  capabilities = m.capabilities;
  request_id = m.request_id;
  node_id = m.node_id;
  control_port = m.control_port;
  state_port = m.state_port;
  name_size = length m.name;
}

known-type_number : (type : DiscoveryMessageType) → known_type (type_number type) ≡ some type
unfolding type_number known_type
known-type_number query = refl
known-type_number advertisement = refl

valid-role_number : (role : MachineRole) → valid_role (role_number role) ≡ some role
unfolding role_number valid_role
valid-role_number unspecified = refl
valid-role_number leader = refl
valid-role_number observer = refl

length-message_image :
    (m : DiscoveryMessage) → length (message_image m) ≡ header_size + length m.name
length-message_image m = omega arith

read_header-image :
    (m : DiscoveryMessage) → IsMessage m → read_header (message_image m) ≡ some (header_of m)
unfolding read_header
read_header-image m v =
    let bytes = message_image m in
    rw (
      read-be_bytes 4 discovery_magic bytes _ 0 refl (omega arith) (omega arith),
      read-be_bytes 2 current_version bytes _ 4 refl (omega arith) (omega arith),
      read-be_bytes 4 m.capabilities bytes _ 8 refl (omega arith) v.capabilities_fit,
      read-be_bytes 8 m.request_id bytes _ 12 refl (omega arith) v.request_fits,
      read-be_bytes 8 m.node_id bytes _ 20 refl (omega arith) v.node_fits,
      read-be_bytes 2 m.control_port bytes _ 28 refl (omega arith) v.control_fits,
      read-be_bytes 2 m.state_port bytes _ 30 refl (omega arith) v.state_fits,
    )

parse_fields-made :
    (m : DiscoveryMessage) (type : DiscoveryMessageType)
    → MadeAs m type
    → parse_fields (header_of m) m.name type m.role ≡ parsed m
unfolding parse_fields parsed_or_invalid is_unspecified is_empty create_query
parse_fields-made m query (positive, e) =
    subst (λ x. parse_fields (header_of x) x.name query x.role ≡ parsed x) (sym e)
      (rw (==_false m.request_id 0 (omega (arith, positive))) refl)
parse_fields-made m advertisement e = rw e

-- A discovery message that one of the factories makes, a query with a request number that is not
-- zero, with a name of at most 63 characters and fields that fit their types, is read back from the
-- bytes that it is sent as.
pub parse-serialize_discovery :
    (m : DiscoveryMessage) → IsMessage m → parse_discovery (serialize_discovery m) ≡ parsed m
unfolding parse_discovery parse_header parse_role
parse-serialize_discovery m v =
    rw
      (
        serialize_discovery-image m v,
        ltb-false (length (message_image m)) header_size (omega (arith, length-message_image m)),
        read_header-image m v,
        known-type_number m.type,
        valid-role_number m.role,
        ltb-false maximum_name_size (length m.name) v.name_fits,
        length-message_image m,
        ==_refl (header_size + length m.name),
      )
      (parse_fields-made m m.type v.made)
