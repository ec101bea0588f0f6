-- ===== src/Transport/ControlMessage.antt =====
-- transport/control_protocol.hpp and .cpp: the requests to the switch and their responses. A type is
-- given by its constructor; on the wire it is its number.
pub mod Messages
pub mod Parsing
use hzl_silicon_switch_lab.Base.{
  ℕ, ◌+◌, ◌%◌, ◌^◌, ◌≤◌, ◌<◌, Bool, true, false, not, ◌&&◌, ◌||◌, List, [], ◌∷◌, ◌≡◌, Option, none,
  some, ltb, ◌==◌, if◌then◌else◌, ◌>>=◌, length, drop, copy_to, replicate,
}
use hzl_silicon_switch_lab.Wire.{read_big_endian, write_field}

pub data ControlMessageType : Type 0 where
  create_port remove_port set_port_state create_vlan remove_vlan : ControlMessageType
  add_vlan_member set_router_interface add_or_replace_route remove_route : ControlMessageType
  add_or_replace_neighbor remove_neighbor configure_faults query_counters : ControlMessageType
  response : ControlMessageType

pub data ControlParseError : Type 0 where
  truncated invalid_magic unsupported_version unknown_message_type : ControlParseError
  payload_too_large length_mismatch : ControlParseError

pub record ControlMessage : Type 0 where
  pub version : ℕ
  pub type : ControlMessageType
  pub request_id : ℕ
  pub payload : List ℕ

-- `std::variant<ControlMessage, ControlParseError>`
pub data ControlParseResult : Type 0 where
  parsed : ControlMessage → ControlParseResult
  refused : ControlParseError → ControlParseResult
  -- `.value()` of an empty `std::optional`, which throws
  unread : ControlParseResult

abbrev pub current_version : ℕ
current_version = 1

abbrev pub header_size : ℕ
header_size = 16

abbrev pub maximum_payload_size : ℕ
maximum_payload_size = 1_048_576

abbrev pub control_magic : ℕ
control_magic = 0x53534350

-- `static_cast<std::uint16_t>(type)`
unfoldable pub type_number : ControlMessageType → ℕ
type_number create_port = 1
type_number remove_port = 2
type_number set_port_state = 3
type_number create_vlan = 10
type_number remove_vlan = 11
type_number add_vlan_member = 12
type_number set_router_interface = 20
type_number add_or_replace_route = 21
type_number remove_route = 22
type_number add_or_replace_neighbor = 23
type_number remove_neighbor = 24
type_number configure_faults = 30
type_number query_counters = 40
type_number response = 100

-- The types of `known`, in its order.
abbrev known_types : List ControlMessageType
known_types =
    create_port ∷ remove_port ∷ set_port_state ∷ create_vlan ∷ remove_vlan ∷ add_vlan_member
    ∷ set_router_interface ∷ add_or_replace_route ∷ remove_route ∷ add_or_replace_neighbor
    ∷ remove_neighbor ∷ configure_faults ∷ query_counters ∷ response ∷ []

-- The cases of the `switch`.
unfoldable pub known_among : ℕ → List ControlMessageType → Option ControlMessageType
unfolding type_number
known_among number [] = none
known_among number (type ∷ types) =
    if number == type_number type then some type else known_among number types

-- `known`, of the type that a number is cast to; `none` is a type that is not known.
unfoldable pub known : ℕ → Option ControlMessageType
unfolding known_among
known number = known_among number known_types

-- `ControlMessage::create`; every constructor of the type is known.
unfoldable pub create_message : ControlMessageType → ℕ → List ℕ → Option ControlMessage
create_message type request_id payload =
    if ltb maximum_payload_size (length payload)
    then none
    else some (record {
      version = current_version;
      type = type;
      request_id = request_id;
      payload = payload;
    })

-- The fields of a header, as they are read.
pub record Header : Type 0 where
  pub magic : ℕ
  pub version : ℕ
  pub type : ℕ
  pub request : ℕ
  pub length : ℕ

unfoldable pub read_header : List ℕ → Option Header
read_header bytes = do
  magic ← read_big_endian 4 bytes 0
  version ← read_big_endian 2 bytes 4
  type ← read_big_endian 2 bytes 6
  request ← read_big_endian 4 bytes 8
  length ← read_big_endian 4 bytes 12
  some
      (record { magic = magic; version = version; type = type; request = request; length = length })

-- The guards of `parse` from the type on.
unfoldable pub parse_type : List ℕ → Header → Option ControlMessageType → ControlParseResult
parse_type bytes h none = refused unknown_message_type
parse_type bytes h (some type) =
    if ltb maximum_payload_size h.length
    then refused payload_too_large
    else if not (length bytes == header_size + h.length)
    then refused length_mismatch
    else parsed (record {
      version = current_version;
      type = type;
      request_id = h.request;
      payload = drop header_size bytes;
    })

-- The guards of `parse` on the header.
unfoldable pub parse_header : List ℕ → Option Header → ControlParseResult
unfolding parse_type known
parse_header bytes none = unread
parse_header bytes (some h) =
    if not (h.magic == control_magic)
    then refused invalid_magic
    else if not (h.version == current_version)
    then refused unsupported_version
    else parse_type bytes h (known h.type)

-- `ControlMessage::parse`
unfoldable pub parse_message : List ℕ → ControlParseResult
unfolding parse_header read_header
parse_message bytes =
    if ltb (length bytes) header_size
    then refused truncated
    else parse_header bytes (read_header bytes)

-- `ControlMessage::serialize`
unfoldable pub serialize_message : ControlMessage → List ℕ
unfolding type_number
serialize_message m =
    let out0 = replicate (header_size + length m.payload) 0 in
    let out1 = write_field 4 control_magic out0 0 in
    let out2 = write_field 2 m.version out1 4 in
    let out3 = write_field 2 (type_number m.type) out2 6 in
    let out4 = write_field 4 m.request_id out3 8 in
    let out5 = write_field 4 (length m.payload % 2 ^ 32) out4 12 in
    copy_to out5 header_size m.payload

-- What `create` and the types of the fields ensure.
pub record IsMessage (m : ControlMessage) : Type 0 where
  pub version_current : m.version ≡ current_version
  pub payload_fits : length m.payload ≤ maximum_payload_size
  pub request_fits : m.request_id < 2 ^ 32
