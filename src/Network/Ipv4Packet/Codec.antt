-- ===== src/Network/Ipv4Packet/Codec.antt =====
-- The bytes of a packet, and the round trip.
use hzl_silicon_switch_lab.Base.{
  ℕ, ◌+◌, ◌%◌, ◌^◌, ◌≤◌, ◌<◌, ◌≡◌, refl, List, [], ◌∷◌, ◌++◌, some, arith, Bool, true, false, not,
  ◌==◌, ltb-false, bit_and, if◌then◌else◌, length, copy_to-append, replicate, replicate-add,
  length-replicate, All, ==_false, ==_refl,
}
use hzl_silicon_switch_lab.Wire.{IsByte, write_loop}
use hzl_silicon_switch_lab.Wire.Layout.{be_bytes, write_fits, read-be_bytes}
use hzl_silicon_switch_lab.Network.Checksum.{compute_internet_checksum, has_valid_internet_checksum}
use hzl_silicon_switch_lab.Network.Checksum.Sum.{has_valid-checksum}
use hzl_silicon_switch_lab.Network.Ipv4Packet.{
  Ipv4Packet, IsPacket, header_size, create_packet, header_is_refused, parse_packet,
  serialize_packet,
}

abbrev flags : Bool → ℕ
flags dont_fragment = if dont_fragment then 0x4000 else 0

-- The header before and after the checksum.
abbrev header_front : Ipv4Packet → List ℕ
header_front p =
    0x45
    ∷ 0
    ∷ (be_bytes 2 (20 + length p.payload)
        ++ (be_bytes 2 p.identification
            ++ (be_bytes 2 (flags p.dont_fragment) ++ (p.time_to_live ∷ p.protocol ∷ []))))

abbrev header_back : Ipv4Packet → List ℕ
header_back p = be_bytes 4 p.source.value ++ be_bytes 4 p.destination.value

pub header_checksum : Ipv4Packet → ℕ
header_checksum p = compute_internet_checksum (header_front p ++ (0 ∷ 0 ∷ header_back p))

-- The wire form of a packet.
abbrev pub header_image : Ipv4Packet → List ℕ
header_image p = header_front p ++ (be_bytes 2 (header_checksum p) ++ header_back p)

abbrev pub packet_image : Ipv4Packet → List ℕ
packet_image p = header_image p ++ p.payload

total_length_lem :
    (n : ℕ) → n ≤ 65515 → length (replicate {A = ℕ} 20 0 ++ replicate n 0) % 2 ^ 16 ≡ 20 + n
total_length_lem n h = omega (arith, length-replicate {A = ℕ} n 0)

serialize_packet-image : (p : Ipv4Packet) → IsPacket p → serialize_packet p ≡ packet_image p
unfolding serialize_packet write_loop header_checksum
serialize_packet-image p v =
    let n = length p.payload in
    let rest : List ℕ = replicate n 0 in
    let t = 20 + n in
    let total = be_bytes 2 (20 + n) in
    let id = be_bytes 2 p.identification in
    let fl = be_bytes 2 (flags p.dont_fragment) in
    let src = be_bytes 4 p.source.value in
    let tail : List ℕ =
      p.time_to_live ∷ p.protocol ∷ 0 ∷ 0 ∷ 0 ∷ 0 ∷ 0 ∷ 0 ∷ 0 ∷ 0 ∷ 0 ∷ 0 ∷ rest in
    rw
      (
        replicate-add {A = ℕ} 20 n 0,
        total_length_lem n v.payload_fits,
        write_fits 2 t (0x45 ∷ 0 ∷ 0 ∷ 0 ∷ 0 ∷ 0 ∷ 0 ∷ 0 ∷ tail) 2 (omega arith),
        write_fits 2 p.identification (0x45 ∷ 0 ∷ (total ++ (0 ∷ 0 ∷ 0 ∷ 0 ∷ tail))) 4
            (omega arith),
        write_fits 2 (flags p.dont_fragment) (0x45 ∷ 0 ∷ (total ++ (id ++ (0 ∷ 0 ∷ tail)))) 6
            (omega arith),
        write_fits 4 p.source.value
            (header_front p ++ (0 ∷ 0 ∷ 0 ∷ 0 ∷ 0 ∷ 0 ∷ 0 ∷ 0 ∷ 0 ∷ 0 ∷ rest)) 12 (omega arith),
        write_fits 4 p.destination.value
            (header_front p ++ (0 ∷ 0 ∷ (src ++ (0 ∷ 0 ∷ 0 ∷ 0 ∷ rest)))) 16 (omega arith),
        write_fits 2 (header_checksum p) (header_front p ++ (0 ∷ 0 ∷ (header_back p ++ rest))) 10
            (omega arith),
      )
      (copy_to-append (header_image p) p.payload rest (length-replicate n 0))

header_front-IsByte : (p : Ipv4Packet) → IsPacket p → All IsByte (header_front p)
header_front-IsByte p v = omega (arith, v.time_byte, v.protocol_byte)

header_back-IsByte : (p : Ipv4Packet) → All IsByte (header_back p)
header_back-IsByte p = omega arith

-- The header that is sent passes the checksum test of the parser.
header_image_valid :
    (p : Ipv4Packet) → IsPacket p → has_valid_internet_checksum (header_image p) ≡ true
unfolding header_checksum
header_image_valid p v =
    has_valid-checksum (header_front p) (header_back p) tt (header_front-IsByte p v)
      (header_back-IsByte p)

flags-lt : (b : Bool) → flags b < 65536
flags-lt true = omega arith
flags-lt false = omega arith

flags_supported : (b : Bool) → (bit_and (flags b) 0xbfff == 0) ≡ true
flags_supported true = refl
flags_supported false = refl

flags_read : (b : Bool) → not (bit_and (flags b) 0x4000 == 0) ≡ b
flags_read true = refl
flags_read false = refl

length-packet_image : (p : Ipv4Packet) → length (packet_image p) ≡ 20 + length p.payload
length-packet_image p = omega arith

header_accepted :
    (p : Ipv4Packet)
    → IsPacket p
    → header_is_refused (packet_image p) (20 + length p.payload) (flags p.dont_fragment) ≡ false
unfolding header_is_refused
header_accepted p v = rw (
  length-packet_image p,
  ==_refl (20 + length p.payload),
  ltb-false (20 + length p.payload) 20 (omega arith),
  flags_supported p.dont_fragment,
  ==_false p.time_to_live 0 (omega (arith, v.alive)),
  header_image_valid p v,
)

create_packet-of :
    (p : Ipv4Packet)
    → IsPacket p
    → create_packet p.source p.destination p.protocol p.payload p.time_to_live p.identification
        p.dont_fragment
      ≡ some p
unfolding create_packet
create_packet-of p v = rw (
  ltb-false 65515 (length p.payload) v.payload_fits,
  ==_false p.time_to_live 0 (omega (arith, v.alive)),
)

-- A valid packet is read back from the bytes that it is sent as, header checksum included.
pub parse-serialize_packet :
    (p : Ipv4Packet) → IsPacket p → parse_packet (serialize_packet p) ≡ some p
unfolding parse_packet
parse-serialize_packet p v =
    let bytes = packet_image p in
    rw
      (
        serialize_packet-image p v,
        ltb-false (length bytes) 20 (omega arith),
        read-be_bytes 2 (20 + length p.payload) bytes _ 2 refl (omega arith)
            (omega (arith, v.payload_fits)),
        read-be_bytes 2 p.identification bytes _ 4 refl (omega arith) v.identification_fits,
        read-be_bytes 2 (flags p.dont_fragment) bytes _ 6 refl (omega arith)
            (flags-lt p.dont_fragment),
        header_accepted p v,
        read-be_bytes 4 p.source.value bytes _ 12 refl (omega arith) v.source_fits,
        read-be_bytes 4 p.destination.value bytes p.payload 16 refl (omega arith)
            v.destination_fits,
        flags_read p.dont_fragment,
      )
      (create_packet-of p v)

-- The size of what is sent.
pub length-serialize_packet :
    (p : Ipv4Packet) → IsPacket p → length (serialize_packet p) ≡ header_size + length p.payload
length-serialize_packet p v = rw (serialize_packet-image p v) (omega arith)
