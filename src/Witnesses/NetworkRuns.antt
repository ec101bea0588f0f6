-- ===== src/Witnesses/NetworkRuns.antt =====
-- The network layer at concrete inputs.
use hzl_silicon_switch_lab.Base.{
  ℕ, ◌-◌, ◌/◌, ◌^◌, ◌≤◌, ◌<◌, ◌≡◌, ◌≢◌, ◌↔◌, refl, true, List, [], ◌∷◌, ◌++◌, none, some, length,
  arith, take, drop,
}
use hzl_silicon_switch_lab.Wire.{read_big_endian, write_big_endian}
use hzl_silicon_switch_lab.Wire.Layout.{be_bytes}
use hzl_silicon_switch_lab.Wire.RoundTrip.{read-write, refused_iff}
use hzl_silicon_switch_lab.Network.Vlan.{
  IsTag, from_tag_control_information, tag_control_information, tag_control_information-from,
}
use hzl_silicon_switch_lab.Network.MacAddress.Text.{parse_mac, mac_to_string, parse-mac_to_string}
use hzl_silicon_switch_lab.Network.Ipv4Address.Text.{
  parse_address, address_to_string, parse-address_to_string,
}
use hzl_silicon_switch_lab.Network.Ipv4Prefix.{contains, create_prefix, mask_value, last_address}
use hzl_silicon_switch_lab.Network.Ipv4Prefix.Text.{
  parse_prefix, prefix_to_string, parse-prefix_to_string,
}
use hzl_silicon_switch_lab.Network.Ipv4Prefix.Range.{contains_iff_same_bits, contains_iff_range}
use hzl_silicon_switch_lab.Network.EthernetFrame.{parse_frame, serialize_frame}
use hzl_silicon_switch_lab.Network.EthernetFrame.Codec.{parse-serialize_frame}
use hzl_silicon_switch_lab.Network.ArpPacket.{
  ArpPacket, request, IsArp, parse_arp, serialize_arp, is_valid_unicast,
}
use hzl_silicon_switch_lab.Network.ArpPacket.Codec.{parse-serialize_arp}
use hzl_silicon_switch_lab.Network.MacAddress.{
  unspecified_mac, is_usable_mac, mac_eq, is_unicast, is_multicast,
}
use hzl_silicon_switch_lab.Network.Checksum.{compute_internet_checksum, has_valid_internet_checksum}
use hzl_silicon_switch_lab.Network.Checksum.Sum.{
  word_total, ones_complement, checksum-word_total, has_valid-checksum,
}
use hzl_silicon_switch_lab.Network.Ipv4Packet.{parse_packet, serialize_packet}
use hzl_silicon_switch_lab.Network.Ipv4Packet.Codec.{parse-serialize_packet}
use hzl_silicon_switch_lab.Witnesses.Samples.{
  host_mac, host_address, tag10, host_frame, host_packet, host_bytes, host_frame-IsFrame,
  host_packet-IsPacket, ten_slash_eight, ten_slash_eight-IsPrefix,
}

read-write_example :
    (out : List ℕ) × (write_big_endian 2 515 (9 ∷ 9 ∷ 9 ∷ 9 ∷ []) 1 ≡ some out)
    × (read_big_endian 2 out 1 ≡ some 515)
    × (length out ≡ 4)
    × (take 1 out ≡ 9 ∷ [])
    × (drop 2 (drop 1 out) ≡ 9 ∷ [])
read-write_example =
    read-write 2 515 1 (9 ∷ 9 ∷ 9 ∷ 9 ∷ []) (omega arith) (omega arith) (omega arith)

refused_iff_example :
    ((read_big_endian 2 (9 ∷ []) 0 ≡ none) ↔ (1 < 2))
    × ((write_big_endian 2 5 (9 ∷ []) 0 ≡ none) ↔ (1 < 2))
refused_iff_example = refused_iff 2 5 0 (9 ∷ []) (omega arith)

tag10-IsTag : IsTag tag10
tag10-IsTag = record { vlan = (omega arith, omega arith); priority_fits = omega arith }

tag10_read : from_tag_control_information 28682 ≡ some tag10
unfolding from_tag_control_information
tag10_read = refl

tag_control_information-from_example : IsTag tag10 × (tag_control_information tag10 ≡ 28682)
tag_control_information-from_example =
    tag_control_information-from 28682 tag10 (omega arith) tag10_read

parse-mac_to_string_example : parse_mac (mac_to_string (host_mac 1)) ≡ some (host_mac 1)
parse-mac_to_string_example = parse-mac_to_string (host_mac 1) host_bytes

parse-address_to_string_example :
    parse_address (address_to_string (host_address 1)) ≡ some (host_address 1)
parse-address_to_string_example = parse-address_to_string (host_address 1) (omega arith)

parse-prefix_to_string_example :
    parse_prefix (prefix_to_string ten_slash_eight) ≡ some ten_slash_eight
parse-prefix_to_string_example = parse-prefix_to_string ten_slash_eight ten_slash_eight-IsPrefix

made : create_prefix (host_address 1) 8 ≡ some ten_slash_eight
unfolding create_prefix mask_value
made = refl

contains_iff_range_example :
    (contains ten_slash_eight (host_address 1) ≡ true)
    ↔ ((0x0a000000 ≤ 0x0a000001) × (0x0a000001 ≤ (last_address ten_slash_eight).value))
contains_iff_range_example =
    contains_iff_range ten_slash_eight (host_address 1) ten_slash_eight-IsPrefix (omega arith)

contains_iff_same_bits_example :
    (contains ten_slash_eight (host_address 1) ≡ true) ↔ (0x0a000001 / 2 ^ 24 ≡ 0x0a000000 / 2 ^ 24)
contains_iff_same_bits_example =
    contains_iff_same_bits ten_slash_eight (host_address 1) ten_slash_eight-IsPrefix (omega arith)

parse-serialize_frame_example :
    (parse_frame (serialize_frame host_frame) ≡ some host_frame)
    ↔ (host_frame.vlan_tag ≡ none → host_frame.ether_type ≢ 0x8100)
parse-serialize_frame_example = parse-serialize_frame host_frame host_frame-IsFrame

abbrev arp_request : ArpPacket
arp_request = record {
  operation = request;
  sender_mac = host_mac 1;
  sender_ip = host_address 1;
  target_mac = unspecified_mac;
  target_ip = host_address 2;
}

arp_request-IsArp : IsArp arp_request
unfolding is_valid_unicast is_usable_mac mac_eq is_unicast is_multicast
arp_request-IsArp = record {
  sender = refl;
  target = refl;
  sender_bytes = host_bytes;
  target_bytes =
      (omega arith, (omega arith, (omega arith, (omega arith, (omega arith, (omega arith, tt))))));
  sender_fits = omega arith;
  target_fits = omega arith;
}

parse-serialize_arp_example : parse_arp (serialize_arp arp_request) ≡ some arp_request
parse-serialize_arp_example = parse-serialize_arp arp_request arp_request-IsArp

checksum-word_total_example :
    compute_internet_checksum (1 ∷ 2 ∷ 3 ∷ [])
    ≡ 65535 - ones_complement (word_total (1 ∷ 2 ∷ 3 ∷ []))
checksum-word_total_example =
    checksum-word_total (1 ∷ 2 ∷ 3 ∷ []) (omega arith, (omega arith, (omega arith, tt)))

has_valid-checksum_example :
    has_valid_internet_checksum (
      (1 ∷ 2 ∷ [])
      ++ (be_bytes 2 (compute_internet_checksum (1 ∷ 2 ∷ 0 ∷ 0 ∷ 3 ∷ 4 ∷ [])) ++ (3 ∷ 4 ∷ [])))
    ≡ true
has_valid-checksum_example =
    has_valid-checksum (1 ∷ 2 ∷ []) (3 ∷ 4 ∷ []) tt (omega arith, (omega arith, tt))
      (omega arith, (omega arith, tt))

parse-serialize_packet_example : parse_packet (serialize_packet host_packet) ≡ some host_packet
parse-serialize_packet_example = parse-serialize_packet host_packet host_packet-IsPacket
