-- ===== src/Network/ArpPacket.antt =====
-- network/arp_packet.hpp and .cpp: ARP requests and replies for IPv4 over Ethernet.
pub mod Codec
use hzl_silicon_switch_lab.Base.{
  ℕ, ◌+◌, ◌^◌, ◌≤◌, ◌<◌, ◌≡◌, List, [], Option, none, some, Bool, true, false, not, ◌&&◌, ◌||◌, ltb,
  ◌==◌, if◌then◌else◌, ◌>>=◌, value_or, length, get_or, set, replicate,
}
use hzl_silicon_switch_lab.Wire.{read_big_endian, write_big_endian}
use hzl_silicon_switch_lab.Network.MacAddress.{
  MacAddress, IsMac, mac_eq, unspecified_mac, is_usable_mac,
}
use hzl_silicon_switch_lab.Network.Ipv4Address.{Ipv4Address, IsAddress}
use hzl_silicon_switch_lab.Network.EthernetFrame.{read_mac, write_mac, ether_type_ipv4}

pub data ArpOperation : Type 0 where
  request reply : ArpOperation

abbrev pub operation_code : ArpOperation → ℕ
operation_code request = 1
operation_code reply = 2

pub record ArpPacket : Type 0 where
  pub operation : ArpOperation
  pub sender_mac : MacAddress
  pub sender_ip : Ipv4Address
  pub target_mac : MacAddress
  pub target_ip : Ipv4Address

abbrev pub serialized_size : ℕ
serialized_size = 28

-- `is_valid_unicast`
unfoldable pub is_valid_unicast : MacAddress → Bool
is_valid_unicast address = is_usable_mac address

-- `ArpPacket::create_request`
unfoldable pub create_request : MacAddress → Ipv4Address → Ipv4Address → Option ArpPacket
create_request sender_mac sender_ip target_ip =
    if not (is_valid_unicast sender_mac)
    then none
    else some (record {
      operation = request;
      sender_mac = sender_mac;
      sender_ip = sender_ip;
      target_mac = unspecified_mac;
      target_ip = target_ip;
    })

-- `ArpPacket::create_reply`
unfoldable pub create_reply : MacAddress → Ipv4Address → MacAddress → Ipv4Address → Option ArpPacket
create_reply sender_mac sender_ip target_mac target_ip =
    if not (is_valid_unicast sender_mac) || not (is_valid_unicast target_mac)
    then none
    else some (record {
      operation = reply;
      sender_mac = sender_mac;
      sender_ip = sender_ip;
      target_mac = target_mac;
      target_ip = target_ip;
    })

-- `create_parsed_packet`
unfoldable pub create_parsed_packet :
    ArpOperation → MacAddress → Ipv4Address → MacAddress → Ipv4Address → Option ArpPacket
unfolding create_request create_reply
create_parsed_packet request sender_mac sender_ip target_mac target_ip =
    if not (mac_eq target_mac unspecified_mac)
    then none
    else create_request sender_mac sender_ip target_ip
create_parsed_packet reply sender_mac sender_ip target_mac target_ip =
    create_reply sender_mac sender_ip target_mac target_ip

-- The enumerator with this code, for the two codes that the guard lets through.
decode_operation : ℕ → Option ArpOperation
decode_operation code = if code == 1 then some request else if code == 2 then some reply else none

-- `ArpPacket::parse`
unfoldable pub parse_arp : List ℕ → Option ArpPacket
unfolding decode_operation
parse_arp bytes = if not (length bytes == serialized_size) then none else (do
  hardware_type ← read_big_endian 2 bytes 0
  protocol_type ← read_big_endian 2 bytes 2
  code ← read_big_endian 2 bytes 6
  sender_ip ← read_big_endian 4 bytes 14
  target_ip ← read_big_endian 4 bytes 24
  if not (hardware_type == 1)
        || not (protocol_type == ether_type_ipv4)
        || not (get_or bytes 4 0 == 6)
        || not (get_or bytes 5 0 == 4)
      then none
      else (do
        operation ← decode_operation code
        create_parsed_packet operation (read_mac bytes 8) (record { value = sender_ip })
            (read_mac bytes 18) (record { value = target_ip })))

-- `ArpPacket::serialize`
unfoldable pub serialize_arp : ArpPacket → List ℕ
serialize_arp p =
    value_or
      (do
        out1 ← write_big_endian 2 1 (replicate serialized_size 0) 0
        out2 ← write_big_endian 2 ether_type_ipv4 out1 2
        out3 ← write_big_endian 2 (operation_code p.operation) out2 6
        out4 ← write_big_endian 4 p.sender_ip.value out3 14
        out5 ← write_big_endian 4 p.target_ip.value out4 24
        let out6 = set (set out5 4 6) 5 4
        some (write_mac p.target_mac (write_mac p.sender_mac out6 8) 18))
      []

-- What the two factories ensure: usable addresses, and no target in a request.
abbrev pub TargetOf : ArpOperation → MacAddress → Type 0
TargetOf request target = target ≡ unspecified_mac
TargetOf reply target = is_valid_unicast target ≡ true

pub record IsArp (p : ArpPacket) : Type 0 where
  pub sender : is_valid_unicast p.sender_mac ≡ true
  pub target : TargetOf p.operation p.target_mac
  pub sender_bytes : IsMac p.sender_mac
  pub target_bytes : IsMac p.target_mac
  pub sender_fits : IsAddress p.sender_ip
  pub target_fits : IsAddress p.target_ip
