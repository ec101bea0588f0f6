-- ===== src/Discovery/DiscoveryMessage.antt =====
-- discovery/discovery_protocol.hpp and .cpp: queries and advertisements. A role is given by its
-- constructor and on the wire by its number; capabilities are a number of 32 bits, and a name is the
-- list of its characters' codes.
pub mod Codec
use hzl_silicon_switch_lab.Base.{
  ℕ, ◌+◌, ◌%◌, ◌^◌, ◌≤◌, ◌<◌, ◌≡◌, Bool, true, false, not, ◌&&◌, ◌||◌, List, [], ◌∷◌, Option, none,
  some, ltb, ◌==◌, if◌then◌else◌, ◌>>=◌, length, drop, get_or, set, copy_to, replicate, bit_and,
}
use hzl_silicon_switch_lab.Wire.{read_big_endian, write_field}

pub data DiscoveryMessageType : Type 0 where
  query advertisement : DiscoveryMessageType

pub data MachineRole : Type 0 where
  unspecified leader observer : MachineRole

pub data DiscoveryParseError : Type 0 where
  truncated invalid_magic unsupported_version unknown_type : DiscoveryParseError
  invalid_role invalid_fields length_mismatch : DiscoveryParseError

pub record DiscoveryMessage : Type 0 where
  pub type : DiscoveryMessageType
  pub role : MachineRole
  pub capabilities : ℕ
  pub request_id : ℕ
  pub node_id : ℕ
  pub control_port : ℕ
  pub state_port : ℕ
  pub name : List ℕ

-- `std::variant<DiscoveryMessage, DiscoveryParseError>`
pub data DiscoveryParseResult : Type 0 where
  parsed : DiscoveryMessage → DiscoveryParseResult
  refused : DiscoveryParseError → DiscoveryParseResult
  -- `.value()` of an empty `std::optional`, which throws
  unread : DiscoveryParseResult

abbrev pub current_version : ℕ
current_version = 1

abbrev pub header_size : ℕ
header_size = 33

abbrev pub maximum_name_size : ℕ
maximum_name_size = 63

abbrev pub discovery_magic : ℕ
discovery_magic = 0x53534431

-- `~known_capabilities`, of 32 bits
abbrev pub unknown_capabilities : ℕ
unknown_capabilities = 0xfffffff8

unfoldable pub type_number : DiscoveryMessageType → ℕ
type_number query = 1
type_number advertisement = 2

unfoldable pub role_number : MachineRole → ℕ
role_number unspecified = 0
role_number leader = 1
role_number observer = 2

-- The type that a number is cast to; `none` is neither of the two.
unfoldable pub known_type : ℕ → Option DiscoveryMessageType
known_type number =
    if number == 1 then some query else if number == 2 then some advertisement else none

-- `valid_role`, of the role that a number is cast to; `none` is a role that is not valid.
unfoldable pub valid_role : ℕ → Option MachineRole
valid_role number =
    if number == 0
    then some unspecified
    else if number == 1
    then some leader
    else if number == 2
    then some observer
    else none

unfoldable pub is_unspecified : MachineRole → Bool
is_unspecified unspecified = true
is_unspecified leader = false
is_unspecified observer = false

unfoldable pub is_leader : MachineRole → Bool
is_leader unspecified = false
is_leader leader = true
is_leader observer = false

unfoldable pub is_empty : List ℕ → Bool
is_empty [] = true
is_empty (c ∷ name) = false

-- `DiscoveryMessage::query`
unfoldable pub create_query : ℕ → DiscoveryMessage
create_query request_id = record {
  type = query;
  role = unspecified;
  capabilities = 0;
  request_id = request_id;
  node_id = 0;
  control_port = 0;
  state_port = 0;
  name = [];
}

-- The ports that a role needs.
unfoldable pub has_valid_ports : MachineRole → ℕ → ℕ → Bool
unfolding is_leader
has_valid_ports role control_port state_port =
    not (state_port == 0) && (not (is_leader role) || not (control_port == 0))

-- `DiscoveryMessage::advertisement`; every constructor of the role is valid.
unfoldable pub create_advertisement :
    ℕ → ℕ → MachineRole → ℕ → ℕ → ℕ → List ℕ → Option DiscoveryMessage
unfolding has_valid_ports is_unspecified is_empty
create_advertisement request_id node_id role capabilities control_port state_port name =
    if request_id == 0
      || node_id == 0
      || is_unspecified role
      || not (has_valid_ports role control_port state_port)
      || is_empty name
      || ltb maximum_name_size (length name)
      || not (bit_and capabilities unknown_capabilities == 0)
    then none
    else some (record {
      type = advertisement;
      role = role;
      capabilities = capabilities;
      request_id = request_id;
      node_id = node_id;
      control_port = control_port;
      state_port = state_port;
      name = name;
    })

-- The fields of a header, as they are read.
pub record Header : Type 0 where
  pub magic : ℕ
  pub version : ℕ
  pub type : ℕ
  pub role : ℕ
  pub capabilities : ℕ
  pub request_id : ℕ
  pub node_id : ℕ
  pub control_port : ℕ
  pub state_port : ℕ
  pub name_size : ℕ

unfoldable pub read_header : List ℕ → Option Header
read_header bytes = do
  magic ← read_big_endian 4 bytes 0
  version ← read_big_endian 2 bytes 4
  capabilities ← read_big_endian 4 bytes 8
  request_id ← read_big_endian 8 bytes 12
  node_id ← read_big_endian 8 bytes 20
  control_port ← read_big_endian 2 bytes 28
  state_port ← read_big_endian 2 bytes 30
  some (record {
    magic = magic;
    version = version;
    type = get_or bytes 6 0;
    role = get_or bytes 7 0;
    capabilities = capabilities;
    request_id = request_id;
    node_id = node_id;
    control_port = control_port;
    state_port = state_port;
    name_size = get_or bytes 32 0;
  })

unfoldable pub parsed_or_invalid : Option DiscoveryMessage → DiscoveryParseResult
parsed_or_invalid none = refused invalid_fields
parsed_or_invalid (some message) = parsed message

-- The end of `parse`, by the type.
unfoldable pub parse_fields :
    Header → List ℕ → DiscoveryMessageType → MachineRole → DiscoveryParseResult
unfolding parsed_or_invalid is_unspecified is_empty create_query
parse_fields h name query role =
    if h.request_id == 0
      || not (h.node_id == 0)
      || not (is_unspecified role)
      || not (h.control_port == 0)
      || not (h.state_port == 0)
      || not (is_empty name)
    then refused invalid_fields
    else parsed (create_query h.request_id)
parse_fields h name advertisement role = parsed_or_invalid (
    create_advertisement h.request_id h.node_id role h.capabilities h.control_port h.state_port
      name)

-- The guards of `parse` that follow the type.
unfoldable pub parse_role :
    List ℕ → Header → Option DiscoveryMessageType → Option MachineRole → DiscoveryParseResult
unfolding parse_fields
parse_role bytes h none role = refused unknown_type
parse_role bytes h (some type) none = refused invalid_role
parse_role bytes h (some type) (some role) =
    if ltb maximum_name_size h.name_size || not (length bytes == header_size + h.name_size)
    then refused length_mismatch
    else parse_fields h (drop header_size bytes) type role

-- The guards of `parse` on the header.
unfoldable pub parse_header : List ℕ → Option Header → DiscoveryParseResult
unfolding parse_role known_type valid_role
parse_header bytes none = unread
parse_header bytes (some h) =
    if not (h.magic == discovery_magic)
    then refused invalid_magic
    else if not (h.version == current_version)
    then refused unsupported_version
    else parse_role bytes h (known_type h.type) (valid_role h.role)

-- `DiscoveryMessage::parse`
unfoldable pub parse_discovery : List ℕ → DiscoveryParseResult
unfolding parse_header read_header
parse_discovery bytes =
    if ltb (length bytes) header_size
    then refused truncated
    else parse_header bytes (read_header bytes)

-- `DiscoveryMessage::serialize`
unfoldable pub serialize_discovery : DiscoveryMessage → List ℕ
unfolding type_number role_number
serialize_discovery m =
    let out0 = replicate (header_size + length m.name) 0 in
    let out1 = write_field 4 discovery_magic out0 0 in
    let out2 = write_field 2 current_version out1 4 in
    let out3 = set (set out2 6 (type_number m.type)) 7 (role_number m.role) in
    let out4 = write_field 4 m.capabilities out3 8 in
    let out5 = write_field 8 m.request_id out4 12 in
    let out6 = write_field 8 m.node_id out5 20 in
    let out7 = write_field 2 m.control_port out6 28 in
    let out8 = write_field 2 m.state_port out7 30 in
    let out9 = set out8 32 (length m.name % 256) in copy_to out9 header_size m.name

-- How a message is made.
abbrev pub MadeAs : DiscoveryMessage → DiscoveryMessageType → Type 0
MadeAs m query = (0 < m.request_id) × (m ≡ create_query m.request_id)
MadeAs m advertisement =
    create_advertisement m.request_id m.node_id m.role m.capabilities m.control_port m.state_port
      m.name
    ≡ some m

-- What the factories and the types of the fields ensure.
pub record IsMessage (m : DiscoveryMessage) : Type 0 where
  pub made : MadeAs m m.type
  pub name_fits : length m.name ≤ maximum_name_size
  pub capabilities_fit : m.capabilities < 2 ^ 32
  pub request_fits : m.request_id < 2 ^ 64
  pub node_fits : m.node_id < 2 ^ 64
  pub control_fits : m.control_port < 2 ^ 16
  pub state_fits : m.state_port < 2 ^ 16
