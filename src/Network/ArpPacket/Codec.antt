-- ===== src/Network/ArpPacket/Codec.antt =====
-- The bytes of an ARP packet, and the round trip.
use hzl_silicon_switch_lab.Base.{ℕ, ◌<◌, ◌≡◌, refl, List, [], ◌∷◌, ◌++◌, some, arith}
use hzl_silicon_switch_lab.Wire.{write_big_endian, write_loop}
use hzl_silicon_switch_lab.Wire.Layout.{be_bytes, read-be_bytes}
use hzl_silicon_switch_lab.Network.MacAddress.{mac_bytes, mac_eq_iff, unspecified_mac}
use hzl_silicon_switch_lab.Network.EthernetFrame.{read_mac, write_mac, ether_type_ipv4}
use hzl_silicon_switch_lab.Network.ArpPacket.{
  ArpPacket, ArpOperation, request, reply, IsArp, operation_code, create_parsed_packet,
  decode_operation, parse_arp, serialize_arp,
}

-- The wire form of a packet.
abbrev pub arp_image : ArpPacket → List ℕ
arp_image p =
    be_bytes 2 1
    ++ (be_bytes 2 ether_type_ipv4
        ++ (6
            ∷ 4
            ∷ (be_bytes 2 (operation_code p.operation)
                ++ (mac_bytes p.sender_mac
                    ++ (be_bytes 4 p.sender_ip.value
                        ++ (mac_bytes p.target_mac ++ be_bytes 4 p.target_ip.value))))))

serialize_arp-image : (p : ArpPacket) → serialize_arp p ≡ arp_image p
unfolding serialize_arp write_mac write_big_endian write_loop
serialize_arp-image p = refl

decode_operation-code : (o : ArpOperation) → decode_operation (operation_code o) ≡ some o
unfolding decode_operation
decode_operation-code request = refl
decode_operation-code reply = refl

operation_code-lt : (o : ArpOperation) → operation_code o < 65536
operation_code-lt request = omega arith
operation_code-lt reply = omega arith

create_parsed_packet-of :
    (p : ArpPacket)
    → IsArp p
    → create_parsed_packet p.operation p.sender_mac p.sender_ip p.target_mac p.target_ip ≡ some p
unfolding create_parsed_packet
create_parsed_packet-of p v = by_operation p.operation refl
  where
    by_operation :
        (o : ArpOperation)
        → p.operation ≡ o
        → create_parsed_packet p.operation p.sender_mac p.sender_ip p.target_mac p.target_ip
          ≡ some p
    by_operation request e =
        ground (arith, v.sender, v.target, mac_eq_iff p.target_mac unspecified_mac)
    by_operation reply e = ground (arith, v.sender, v.target)

-- A valid ARP packet is read back from the bytes that it is sent as.
pub parse-serialize_arp : (p : ArpPacket) → IsArp p → parse_arp (serialize_arp p) ≡ some p
unfolding parse_arp
parse-serialize_arp p v =
    let bytes = arp_image p in
    rw
      (
        serialize_arp-image p,
        read-be_bytes 2 1 bytes _ 0 refl (omega arith) (omega arith),
        read-be_bytes 2 ether_type_ipv4 bytes _ 2 refl (omega arith) (omega arith),
        read-be_bytes 2 (operation_code p.operation) bytes _ 6 refl (omega arith)
            (operation_code-lt p.operation),
        read-be_bytes 4 p.sender_ip.value bytes _ 14 refl (omega arith) v.sender_fits,
        read-be_bytes 4 p.target_ip.value bytes [] 24 refl (omega arith) v.target_fits,
        decode_operation-code p.operation,
      )
      (unfold read_mac in create_parsed_packet-of p v)
