-- ===== src/Transport/ControlMessage/Messages.antt =====
-- The bytes of a message, the round trip, and what the parser accepts.
use hzl_silicon_switch_lab.Base.{
  ℕ, ◌+◌, ◌%◌, ◌^◌, ◌≤◌, ◌<◌, ◌≡◌, refl, ap, ◌∙◌, List, [], ◌∷◌, ◌++◌, some, arith, ltb-false,
  ==_refl, ◌==◌, length, copy_to, copy_to-append, replicate, replicate-add, length-replicate,
}
use hzl_silicon_switch_lab.Wire.Layout.{read-be_bytes}
use hzl_silicon_switch_lab.Wire.Fields.{Fields, fields_image, write_fields-image}
use hzl_silicon_switch_lab.Transport.ControlMessage.{
  ControlMessage, ControlMessageType, parsed, IsMessage, Header, header_size, maximum_payload_size,
  control_magic, current_version, type_number, known, known_among, read_header, parse_header,
  parse_type, parse_message, serialize_message,
}

-- The fields of the header.
abbrev message_fields : ControlMessage → Fields
message_fields m =
    (4, control_magic)
    ∷ (2, m.version)
    ∷ (2, type_number m.type)
    ∷ (4, m.request_id)
    ∷ (4, length m.payload)
    ∷ []

abbrev header_image : ControlMessage → List ℕ
header_image m = fields_image (message_fields m)

-- The wire form of a message.
abbrev pub message_image : ControlMessage → List ℕ
message_image m = header_image m ++ m.payload

length_field : (n : ℕ) → n ≤ maximum_payload_size → n % 2 ^ 32 ≡ n
length_field n h = omega arith

serialize_message-image : (m : ControlMessage) → IsMessage m → serialize_message m ≡ message_image m
unfolding serialize_message type_number
serialize_message-image m v =
    let n = length m.payload in
    rw (length_field n v.payload_fits, replicate-add {A = ℕ} 16 n 0)
      (ap (λ t. copy_to t header_size m.payload)
          (write_fields-image (message_fields m) [] (replicate n 0) 0 refl)
        ∙ copy_to-append (header_image m) m.payload (replicate n 0) (length-replicate n 0))

abbrev header_of : ControlMessage → Header
header_of m = record {
  magic = control_magic;
  version = m.version;
  type = type_number m.type;
  request = m.request_id;
  length = length m.payload;
}

type_number-lt : (type : ControlMessageType) → type_number type < 65536
unfolding type_number
type_number-lt type = ground arith

known-type_number : (type : ControlMessageType) → known (type_number type) ≡ some type
unfolding type_number known known_among
known-type_number type = ground arith

length-message_image :
    (m : ControlMessage) → length (message_image m) ≡ header_size + length m.payload
length-message_image m = omega arith

read_header-image :
    (m : ControlMessage) → IsMessage m → read_header (message_image m) ≡ some (header_of m)
unfolding read_header
read_header-image m v =
    let bytes = message_image m in
    rw (
      read-be_bytes 4 control_magic bytes _ 0 refl (omega arith) (omega arith),
      read-be_bytes 2 m.version bytes _ 4 refl (omega arith) (omega (arith, v.version_current)),
      read-be_bytes 2 (type_number m.type) bytes _ 6 refl (omega arith) (type_number-lt m.type),
      read-be_bytes 4 m.request_id bytes _ 8 refl (omega arith) v.request_fits,
      read-be_bytes 4 (length m.payload) bytes m.payload 12 refl (omega arith)
          (omega (arith, v.payload_fits)),
    )

accepted_at :
    (m : ControlMessage)
    → IsMessage m
    → parse_header (message_image m) (some (header_of m)) ≡ parsed m
unfolding parse_header parse_type
accepted_at m v = rw (
  ap (λ t. t == current_version) v.version_current,
  known-type_number m.type,
  ltb-false maximum_payload_size (length m.payload) v.payload_fits,
  length-message_image m,
  ==_refl (header_size + length m.payload),
  ← v.version_current,
)

-- A control message that create makes, with a request number of 32 bits, is read back from the
-- bytes that it is sent as.
pub parse-serialize_message :
    (m : ControlMessage) → IsMessage m → parse_message (serialize_message m) ≡ parsed m
unfolding parse_message
parse-serialize_message m v =
    rw
      (
        serialize_message-image m v,
        ltb-false (length (message_image m)) header_size (omega (arith, length-message_image m)),
        read_header-image m v,
      )
      (accepted_at m v)
