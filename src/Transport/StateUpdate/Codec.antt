-- ===== src/Transport/StateUpdate/Codec.antt =====
-- The bytes of an update, and the round trip.
use hzl_silicon_switch_lab.Base.{
  ℕ, ◌+◌, ◌%◌, ◌^◌, ◌≤◌, ◌<◌, ◌≡◌, refl, ap, ◌∙◌, List, [], ◌∷◌, ◌++◌, some, arith, ltb-false,
  ==_false, ==_refl, length, copy_to, copy_to-append, replicate, replicate-add, length-replicate,
}
use hzl_silicon_switch_lab.Wire.Layout.{read-be_bytes}
use hzl_silicon_switch_lab.Wire.Fields.{Fields, fields_image, write_fields-image}
use hzl_silicon_switch_lab.Transport.StateUpdate.{
  StateUpdate, StateUpdateType, snapshot, delta, heartbeat, resync_request, parsed, IsUpdate,
  Header, header_size, maximum_payload_size, state_update_magic, current_version, type_number,
  known_type, read_header, parse_header, parse_type, parse_known, parse_update, serialize_update,
}

-- The fields of the header.
abbrev update_fields : StateUpdate → Fields
update_fields u =
    (4, state_update_magic)
    ∷ (2, current_version)
    ∷ (2, type_number u.type)
    ∷ (8, u.session_id)
    ∷ (8, u.sequence)
    ∷ (8, u.timestamp_microseconds)
    ∷ (8, u.base_revision)
    ∷ (8, u.revision)
    ∷ (4, length u.payload)
    ∷ []

abbrev header_image : StateUpdate → List ℕ
header_image u = fields_image (update_fields u)

-- The wire form of an update.
abbrev pub update_image : StateUpdate → List ℕ
update_image u = header_image u ++ u.payload

length_field : (n : ℕ) → n ≤ maximum_payload_size → n % 2 ^ 32 ≡ n
length_field n h = omega arith

pub serialize_update-image : (u : StateUpdate) → IsUpdate u → serialize_update u ≡ update_image u
unfolding serialize_update type_number
serialize_update-image u v =
    let n = length u.payload in
    rw (length_field n v.payload_fits, replicate-add {A = ℕ} 52 n 0)
      (ap (λ t. copy_to t header_size u.payload)
          (write_fields-image (update_fields u) [] (replicate n 0) 0 refl)
        ∙ copy_to-append (header_image u) u.payload (replicate n 0) (length-replicate n 0))

abbrev header_of : StateUpdate → Header
header_of u = record {
  magic = state_update_magic;
  version = current_version;
  type = type_number u.type;
  session = u.session_id;
  sequence = u.sequence;
  timestamp = u.timestamp_microseconds;
  base = u.base_revision;
  revision = u.revision;
  length = length u.payload;
}

type_number-lt : (type : StateUpdateType) → type_number type < 65536
unfolding type_number
type_number-lt snapshot = omega arith
type_number-lt delta = omega arith
type_number-lt heartbeat = omega arith
type_number-lt resync_request = omega arith

known-type_number : (type : StateUpdateType) → known_type (type_number type) ≡ some type
unfolding type_number known_type
known-type_number snapshot = refl
known-type_number delta = refl
known-type_number heartbeat = refl
known-type_number resync_request = refl

length-update_image : (u : StateUpdate) → length (update_image u) ≡ header_size + length u.payload
length-update_image u = omega arith

read_header-image :
    (u : StateUpdate) → IsUpdate u → read_header (update_image u) ≡ some (header_of u)
unfolding read_header
read_header-image u v =
    let bytes = update_image u in
    rw (
      read-be_bytes 4 state_update_magic bytes _ 0 refl (omega arith) (omega arith),
      read-be_bytes 2 current_version bytes _ 4 refl (omega arith) (omega arith),
      read-be_bytes 2 (type_number u.type) bytes _ 6 refl (omega arith) (type_number-lt u.type),
      read-be_bytes 8 u.session_id bytes _ 8 refl (omega arith) v.session_fits,
      read-be_bytes 8 u.sequence bytes _ 16 refl (omega arith) v.sequence_fits,
      read-be_bytes 8 u.timestamp_microseconds bytes _ 24 refl (omega arith) v.timestamp_fits,
      read-be_bytes 8 u.base_revision bytes _ 32 refl (omega arith) v.base_fits,
      read-be_bytes 8 u.revision bytes _ 40 refl (omega arith) v.revision_fits,
      read-be_bytes 4 (length u.payload) bytes u.payload 48 refl (omega arith)
          (omega (arith, v.payload_fits)),
    )

-- An update that create makes, with fields that fit their types, is read back from the bytes that
-- it is sent as.
pub parse-serialize_update :
    (u : StateUpdate) → IsUpdate u → parse_update (serialize_update u) ≡ parsed u
unfolding parse_update parse_header parse_type parse_known
parse-serialize_update u v = rw (
  serialize_update-image u v,
  ltb-false (length (update_image u)) header_size (omega (arith, length-update_image u)),
  read_header-image u v,
  known-type_number u.type,
  ltb-false maximum_payload_size (length u.payload) v.payload_fits,
  length-update_image u,
  ==_refl (header_size + length u.payload),
  ==_false u.session_id 0 (omega (arith, v.session_given)),
  ==_false u.sequence 0 (omega (arith, v.sequence_given)),
  v.revisions,
)
