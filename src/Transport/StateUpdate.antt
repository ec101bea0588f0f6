-- ===== src/Transport/StateUpdate.antt =====
-- transport/state_update_protocol.hpp and .cpp: the updates that the server sends to observers. A
-- type is given by its constructor; on the wire it is its number.
pub mod Codec
pub mod Parsing
use hzl_silicon_switch_lab.Base.{
  ℕ, ◌+◌, ◌*◌, ◌%◌, ◌^◌, ◌≤◌, ◌<◌, ◌≡◌, Bool, true, false, not, ◌&&◌, ◌||◌, List, [], Option, none,
  some, ltb, leb, ◌==◌, if◌then◌else◌, has_value, value_or, ◌>>=◌, length, drop, copy_to, replicate,
  All,
}
use hzl_silicon_switch_lab.Wire.{IsByte, read_big_endian, write_field}

pub data StateUpdateType : Type 0 where
  snapshot delta heartbeat resync_request : StateUpdateType

pub data StateUpdateParseError : Type 0 where
  truncated invalid_magic unsupported_version unknown_type : StateUpdateParseError
  payload_too_large length_mismatch invalid_revision : StateUpdateParseError

pub record StateUpdate : Type 0 where
  pub type : StateUpdateType
  pub session_id : ℕ
  pub sequence : ℕ
  pub timestamp_microseconds : ℕ
  pub base_revision : ℕ
  pub revision : ℕ
  pub payload : List ℕ

-- `std::variant<StateUpdate, StateUpdateParseError>`
pub data StateUpdateParseResult : Type 0 where
  parsed : StateUpdate → StateUpdateParseResult
  refused : StateUpdateParseError → StateUpdateParseResult
  -- `.value()` of an empty `std::optional`, which throws
  unread : StateUpdateParseResult

abbrev pub current_version : ℕ
current_version = 1

abbrev pub header_size : ℕ
header_size = 52

abbrev pub maximum_payload_size : ℕ
maximum_payload_size = 60 * 1024

abbrev pub state_update_magic : ℕ
state_update_magic = 0x53535550

-- `static_cast<std::uint16_t>(type)`
unfoldable pub type_number : StateUpdateType → ℕ
type_number snapshot = 1
type_number delta = 2
type_number heartbeat = 3
type_number resync_request = 4

-- `is_known`, of the type that a number is cast to; `none` is a type that is not known.
unfoldable pub known_type : ℕ → Option StateUpdateType
known_type number =
    if number == 1
    then some snapshot
    else if number == 2
    then some delta
    else if number == 3
    then some heartbeat
    else if number == 4
    then some resync_request
    else none

unfoldable pub revisions_are_valid : StateUpdateType → ℕ → ℕ → Bool
revisions_are_valid snapshot base_revision revision = base_revision == 0 && ltb 0 revision
revisions_are_valid delta base_revision revision = ltb base_revision revision
revisions_are_valid heartbeat base_revision revision = leb base_revision revision
revisions_are_valid resync_request base_revision revision = leb base_revision revision

-- `StateUpdate::create`; every constructor of the type is known.
unfoldable pub create_update : StateUpdateType → ℕ → ℕ → ℕ → ℕ → ℕ → List ℕ → Option StateUpdate
unfolding revisions_are_valid
create_update type session_id sequence timestamp_microseconds base_revision revision payload =
    if session_id == 0
      || sequence == 0
      || ltb maximum_payload_size (length payload)
      || not (revisions_are_valid type base_revision revision)
    then none
    else some (record {
      type = type;
      session_id = session_id;
      sequence = sequence;
      timestamp_microseconds = timestamp_microseconds;
      base_revision = base_revision;
      revision = revision;
      payload = payload;
    })

-- The fields of a header, as they are read.
pub record Header : Type 0 where
  pub magic : ℕ
  pub version : ℕ
  pub type : ℕ
  pub session : ℕ
  pub sequence : ℕ
  pub timestamp : ℕ
  pub base : ℕ
  pub revision : ℕ
  pub length : ℕ

unfoldable pub read_header : List ℕ → Option Header
read_header bytes = do
  magic ← read_big_endian 4 bytes 0
  version ← read_big_endian 2 bytes 4
  type ← read_big_endian 2 bytes 6
  session ← read_big_endian 8 bytes 8
  sequence ← read_big_endian 8 bytes 16
  timestamp ← read_big_endian 8 bytes 24
  base ← read_big_endian 8 bytes 32
  revision ← read_big_endian 8 bytes 40
  length ← read_big_endian 4 bytes 48
  some (record {
    magic = magic;
    version = version;
    type = type;
    session = session;
    sequence = sequence;
    timestamp = timestamp;
    base = base;
    revision = revision;
    length = length;
  })

-- The guards of `parse` that follow the type.
unfoldable pub parse_known : List ℕ → Header → StateUpdateType → StateUpdateParseResult
unfolding revisions_are_valid
parse_known bytes h type =
    if ltb maximum_payload_size h.length
    then refused payload_too_large
    else if not (length bytes == header_size + h.length)
    then refused length_mismatch
    else if h.session == 0 || h.sequence == 0 || not (revisions_are_valid type h.base h.revision)
    then refused invalid_revision
    else parsed (record {
      type = type;
      session_id = h.session;
      sequence = h.sequence;
      timestamp_microseconds = h.timestamp;
      base_revision = h.base;
      revision = h.revision;
      payload = drop header_size bytes;
    })

unfoldable pub parse_type : List ℕ → Header → Option StateUpdateType → StateUpdateParseResult
unfolding parse_known
parse_type bytes h none = refused unknown_type
parse_type bytes h (some type) = parse_known bytes h type

-- The guards of `parse` on the header.
unfoldable pub parse_header : List ℕ → Option Header → StateUpdateParseResult
unfolding parse_type known_type
parse_header bytes none = unread
parse_header bytes (some h) =
    if not (h.magic == state_update_magic)
    then refused invalid_magic
    else if not (h.version == current_version)
    then refused unsupported_version
    else parse_type bytes h (known_type h.type)

-- `StateUpdate::parse`
unfoldable pub parse_update : List ℕ → StateUpdateParseResult
unfolding parse_header read_header
parse_update bytes =
    if ltb (length bytes) header_size
    then refused truncated
    else parse_header bytes (read_header bytes)

-- `StateUpdate::serialize`
unfoldable pub serialize_update : StateUpdate → List ℕ
unfolding type_number
serialize_update u =
    let out0 = replicate (header_size + length u.payload) 0 in
    let out1 = write_field 4 state_update_magic out0 0 in
    let out2 = write_field 2 current_version out1 4 in
    let out3 = write_field 2 (type_number u.type) out2 6 in
    let out4 = write_field 8 u.session_id out3 8 in
    let out5 = write_field 8 u.sequence out4 16 in
    let out6 = write_field 8 u.timestamp_microseconds out5 24 in
    let out7 = write_field 8 u.base_revision out6 32 in
    let out8 = write_field 8 u.revision out7 40 in
    let out9 = write_field 4 (length u.payload % 2 ^ 32) out8 48 in
    copy_to out9 header_size u.payload

-- What `create` and the types of the fields ensure.
pub record IsUpdate (u : StateUpdate) : Type 0 where
  pub session_given : 0 < u.session_id
  pub sequence_given : 0 < u.sequence
  pub payload_fits : length u.payload ≤ maximum_payload_size
  pub revisions : revisions_are_valid u.type u.base_revision u.revision ≡ true
  pub session_fits : u.session_id < 2 ^ 64
  pub sequence_fits : u.sequence < 2 ^ 64
  pub timestamp_fits : u.timestamp_microseconds < 2 ^ 64
  pub base_fits : u.base_revision < 2 ^ 64
  pub revision_fits : u.revision < 2 ^ 64
