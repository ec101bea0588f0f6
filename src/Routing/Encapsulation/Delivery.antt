-- ===== src/Routing/Encapsulation/Delivery.antt =====
-- What the encapsulation of a packet gives.
use hzl_silicon_switch_lab.Base.{
  ℕ, ◌≤◌, ◌<◌, ◌≡◌, refl, true, false, Option, none, some, arith, ltb, length, Bool-cases, inl, inr,
}
use hzl_silicon_switch_lab.Network.MacAddress.{MacAddress}
use hzl_silicon_switch_lab.Network.EthernetFrame.{create_frame, ether_type_ipv4}
use hzl_silicon_switch_lab.Network.Ipv4Packet.{IsPacket, serialize_packet, parse_packet}
use hzl_silicon_switch_lab.Network.Ipv4Packet.Codec.{
  parse-serialize_packet, length-serialize_packet,
}
use hzl_silicon_switch_lab.Routing.ArpCache.{ArpCache, lookup}
use hzl_silicon_switch_lab.Routing.Engine.{ForwardedIpv4Packet}
use hzl_silicon_switch_lab.Routing.Encapsulation.{
  invalid_source_mac, neighbor_not_found, packet_too_large, L3EncapsulationResult, encapsulated,
  failed, is_valid_source_mac, frame_or_failure, encapsulate_with_destination, encapsulate_to,
  encapsulate_ipv4_in_ethernet,
}

module _ (forwarding : ForwardedIpv4Packet) (source_mac : MacAddress)
    (neighbour : Option MacAddress) where
  -- What each result says, from the neighbour that the cache answers for the next hop.
  abbrev pub EncapsulationSpec : L3EncapsulationResult → Type 0
  EncapsulationSpec (encapsulated frame) =
      (is_valid_source_mac source_mac ≡ true)
      × (neighbour ≡ some frame.destination)
      × (frame.source ≡ source_mac)
      × (frame.ether_type ≡ ether_type_ipv4)
      × (frame.vlan_tag ≡ none)
      × (parse_packet frame.payload ≡ some forwarding.packet)
      × (length frame.payload ≤ 1500)
  EncapsulationSpec (failed invalid_source_mac) = is_valid_source_mac source_mac ≡ false
  EncapsulationSpec (failed neighbor_not_found) =
      (is_valid_source_mac source_mac ≡ true) × (neighbour ≡ none)
  EncapsulationSpec (failed packet_too_large) =
      (is_valid_source_mac source_mac ≡ true)
      × ((mac : MacAddress) × (neighbour ≡ some mac))
      × (1480 < length forwarding.packet.payload)

with_destination :
    (forwarding : ForwardedIpv4Packet) (source_mac destination_mac : MacAddress)
    → is_valid_source_mac source_mac ≡ true
    → IsPacket forwarding.packet
    → EncapsulationSpec forwarding source_mac
        (some destination_mac)
        (encapsulate_with_destination forwarding source_mac destination_mac)
unfolding encapsulate_with_destination create_frame frame_or_failure
with_destination forwarding source_mac destination_mac ok v =
    let size = length-serialize_packet forwarding.packet v in
    elim (Bool-cases (ltb 1500 (length (serialize_packet forwarding.packet)))) [
      | inl large ↦ rw large (ok, (destination_mac, refl), ground (arith, large, size))
      | inr fits ↦ rw fits (
        ok,
        refl,
        refl,
        refl,
        refl,
        parse-serialize_packet forwarding.packet v,
        ground (arith, fits),
      )
    ]

to_neighbour :
    (forwarding : ForwardedIpv4Packet) (source_mac : MacAddress) (neighbour : Option MacAddress)
    → is_valid_source_mac source_mac ≡ true
    → IsPacket forwarding.packet
    → EncapsulationSpec forwarding source_mac neighbour
        (encapsulate_to forwarding source_mac neighbour)
unfolding encapsulate_to
to_neighbour forwarding source_mac none ok v = (ok, refl)
to_neighbour forwarding source_mac (some mac) ok v = with_destination forwarding source_mac mac ok v

-- For a valid packet, the encapsulation fails when the source MAC address is unspecified or
-- multicast, when the cache has no live entry for the next hop, and when the packet is larger than
-- the payload of a frame, in this order; otherwise the frame goes untagged from the source to the
-- neighbour as IPv4, and its payload is read back as the packet.
pub encapsulate_ipv4_in_ethernet_lem :
    (forwarding : ForwardedIpv4Packet) (source_mac : MacAddress) (arp_cache : ArpCache) (now : ℕ)
    → IsPacket forwarding.packet
    → EncapsulationSpec forwarding source_mac
        (lookup arp_cache forwarding.next_hop now)
        (encapsulate_ipv4_in_ethernet forwarding source_mac arp_cache now)
unfolding encapsulate_ipv4_in_ethernet
encapsulate_ipv4_in_ethernet_lem forwarding source_mac arp_cache now v =
    elim (Bool-cases (is_valid_source_mac source_mac)) [
      | inl ok ↦
          rw ok (to_neighbour forwarding source_mac (lookup arp_cache forwarding.next_hop now) ok v)
      | inr bad ↦ rw bad bad
    ]
