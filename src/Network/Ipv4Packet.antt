-- ===== src/Network/Ipv4Packet.antt =====
-- network/ipv4_packet.hpp and .cpp: IPv4 packets with a plain 20-byte header. A protocol is its
-- number, since a cast makes one from any byte.
pub mod Codec
pub mod Bounds
use hzl_silicon_switch_lab.Base.{
  ℕ, ◌+◌, ◌-◌, ◌%◌, ◌^◌, ◌≤◌, ◌<◌, List, [], Option, none, some, Bool, true, false, not, ◌&&◌, ◌||◌,
  ltb, ◌==◌, if◌then◌else◌, ◌>>=◌, value_or, bit_and, length, get_or, set, take, drop, copy_to,
  replicate, All,
}
use hzl_silicon_switch_lab.Wire.{IsByte, read_big_endian, write_big_endian}
use hzl_silicon_switch_lab.Network.Ipv4Address.{Ipv4Address, IsAddress}
use hzl_silicon_switch_lab.Network.Checksum.{compute_internet_checksum, has_valid_internet_checksum}

pub record Ipv4Packet : Type 0 where
  pub source : Ipv4Address
  pub destination : Ipv4Address
  pub protocol : ℕ
  pub payload : List ℕ
  pub time_to_live : ℕ
  pub identification : ℕ
  pub dont_fragment : Bool

abbrev pub header_size : ℕ
header_size = 20

abbrev pub maximum_packet_size : ℕ
maximum_packet_size = 65535

abbrev pub maximum_payload_size : ℕ
maximum_payload_size = maximum_packet_size - header_size

-- `Ipv4Packet::create`
unfoldable pub create_packet :
    Ipv4Address → Ipv4Address → ℕ → List ℕ → ℕ → ℕ → Bool → Option Ipv4Packet
create_packet source destination protocol payload time_to_live identification dont_fragment =
    if ltb maximum_payload_size (length payload) || time_to_live == 0
    then none
    else some (record {
      source = source;
      destination = destination;
      protocol = protocol;
      payload = payload;
      time_to_live = time_to_live;
      identification = identification;
      dont_fragment = dont_fragment;
    })

-- The second guard of `Ipv4Packet::parse`, over the header fields that it reads.
unfoldable pub header_is_refused : List ℕ → ℕ → ℕ → Bool
header_is_refused bytes total_length flags_and_fragment =
    not (total_length == length bytes)
    || ltb total_length header_size
    || not (bit_and flags_and_fragment 0xbfff == 0)
    || get_or bytes 8 0 == 0
    || not (has_valid_internet_checksum (take header_size bytes))

-- `Ipv4Packet::parse`, with `read_address`. The first guard leaves 20 bytes at least, so no byte
-- that is read by itself is out of range, where the model would read a zero, and no read of an
-- address fails, where the code would dereference an empty optional and the model fails the parse.
unfoldable pub parse_packet : List ℕ → Option Ipv4Packet
unfolding header_is_refused
parse_packet bytes =
    if ltb (length bytes) header_size
      || not (get_or bytes 0 0 == 0x45)
      || not (get_or bytes 1 0 == 0)
    then none
    else (do
      total_length ← read_big_endian 2 bytes 2
      identification ← read_big_endian 2 bytes 4
      flags_and_fragment ← read_big_endian 2 bytes 6
      if header_is_refused bytes total_length flags_and_fragment then none else (do
        source ← read_big_endian 4 bytes 12
        destination ← read_big_endian 4 bytes 16
        create_packet (record { value = source }) (record { value = destination })
            (get_or bytes 9 0) (drop header_size bytes) (get_or bytes 8 0) identification
            (not (bit_and flags_and_fragment 0x4000 == 0))))

-- The first four bytes that `Ipv4Packet::serialize` sets.
unfoldable pub set_header_bytes : Ipv4Packet → List ℕ → List ℕ
set_header_bytes p bytes = set (set (set (set bytes 0 0x45) 1 0) 8 p.time_to_live) 9 p.protocol

-- `Ipv4Packet::serialize`
unfoldable pub serialize_packet : Ipv4Packet → List ℕ
unfolding set_header_bytes
serialize_packet p =
    let bytes = set_header_bytes p (replicate (header_size + length p.payload) 0) in
    value_or
      (do
        out1 ← write_big_endian 2 (length bytes % 2 ^ 16) bytes 2
        out2 ← write_big_endian 2 p.identification out1 4
        out3 ← write_big_endian 2 (if p.dont_fragment then 0x4000 else 0) out2 6
        out4 ← write_big_endian 4 p.source.value out3 12
        out5 ← write_big_endian 4 p.destination.value out4 16
        out6 ← write_big_endian 2 (compute_internet_checksum (take header_size out5)) out5 10
        some (copy_to out6 header_size p.payload))
      []

-- What `create` and the types of the fields ensure.
pub record IsPacket (p : Ipv4Packet) : Type 0 where
  pub source_fits : IsAddress p.source
  pub destination_fits : IsAddress p.destination
  pub protocol_byte : IsByte p.protocol
  pub payload_fits : length p.payload ≤ maximum_payload_size
  pub payload_bytes : All IsByte p.payload
  pub alive : 0 < p.time_to_live
  pub time_byte : IsByte p.time_to_live
  pub identification_fits : p.identification < 2 ^ 16
