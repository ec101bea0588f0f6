-- ===== src/Routing/Encapsulation.antt =====
-- routing/l3_ethernet_encapsulation.hpp and .cpp: the frame that carries a routed packet to its next
-- hop.
pub mod Delivery
use hzl_silicon_switch_lab.Base.{
  ℕ, ◌<◌, Bool, true, false, not, Option, none, some, ltb, if◌then◌else◌, length,
}
use hzl_silicon_switch_lab.Network.MacAddress.{MacAddress, is_usable_mac}
use hzl_silicon_switch_lab.Network.EthernetFrame.{
  EthernetFrame, create_frame, maximum_payload_size, ether_type_ipv4,
}
use hzl_silicon_switch_lab.Network.Ipv4Packet.{serialize_packet}
use hzl_silicon_switch_lab.Routing.ArpCache.{ArpCache, lookup}
use hzl_silicon_switch_lab.Routing.Engine.{ForwardedIpv4Packet}

pub data L3EncapsulationFailure : Type 0 where
  invalid_source_mac neighbor_not_found packet_too_large : L3EncapsulationFailure

pub data L3EncapsulationResult : Type 0 where
  encapsulated : EthernetFrame → L3EncapsulationResult
  failed : L3EncapsulationFailure → L3EncapsulationResult

-- `is_valid_source_mac`
unfoldable pub is_valid_source_mac : MacAddress → Bool
is_valid_source_mac address = is_usable_mac address

unfoldable pub frame_or_failure : Option EthernetFrame → L3EncapsulationResult
frame_or_failure none = failed packet_too_large
frame_or_failure (some frame) = encapsulated frame

-- `encapsulate_with_destination`
unfoldable pub encapsulate_with_destination :
    ForwardedIpv4Packet → MacAddress → MacAddress → L3EncapsulationResult
unfolding frame_or_failure
encapsulate_with_destination forwarding source_mac destination_mac =
    let payload = serialize_packet forwarding.packet in
    if ltb maximum_payload_size (length payload)
    then failed packet_too_large
    else frame_or_failure (create_frame destination_mac source_mac ether_type_ipv4 payload none)

unfoldable pub encapsulate_to :
    ForwardedIpv4Packet → MacAddress → Option MacAddress → L3EncapsulationResult
encapsulate_to forwarding source_mac none = failed neighbor_not_found
encapsulate_to forwarding source_mac (some destination_mac) =
    encapsulate_with_destination forwarding source_mac destination_mac

-- `encapsulate_ipv4_in_ethernet`
unfoldable pub encapsulate_ipv4_in_ethernet :
    ForwardedIpv4Packet → MacAddress → ArpCache → ℕ → L3EncapsulationResult
unfolding encapsulate_to
encapsulate_ipv4_in_ethernet forwarding source_mac arp_cache now =
    if not (is_valid_source_mac source_mac)
    then failed invalid_source_mac
    else encapsulate_to forwarding source_mac (lookup arp_cache forwarding.next_hop now)
