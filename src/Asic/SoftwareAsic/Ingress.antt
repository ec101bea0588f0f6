-- ===== src/Asic/SoftwareAsic/Ingress.antt =====
-- asic/software_asic.cpp: process_packet, each step in the order of the source.
use hzl_silicon_switch_lab.Base.{
  ℕ, not, List, [], ◌∷◌, Option, none, some, if◌then◌else◌, value_or, length, nat_order, ℤ, pos,
}
use hzl_silicon_switch_lab.Base.Map.{find, assign}
use hzl_silicon_switch_lab.Network.Vlan.{VlanId, vlan_order}
use hzl_silicon_switch_lab.Network.EthernetFrame.{EthernetFrame, parse_frame, serialize_frame}
use hzl_silicon_switch_lab.Network.ArpPacket.{ArpPacket, parse_arp}
use hzl_silicon_switch_lab.Network.Ipv4Packet.{Ipv4Packet, parse_packet}
use hzl_silicon_switch_lab.Switching.VlanPort.{VlanPortConfig}
use hzl_silicon_switch_lab.Switching.Pipeline.{
  PipelineAction, PipelineDropReason, PipelineDecision, process_l2_l3_ingress,
}
use hzl_silicon_switch_lab.Switching.VirtualPort.{VirtualPort, operational, receive}
use hzl_silicon_switch_lab.Routing.ArpCache.{ArpCache}
use hzl_silicon_switch_lab.Routing.ArpCache
use hzl_silicon_switch_lab.Routing.Engine.{
  ForwardedIpv4Packet, Ipv4DropReason, Ipv4ForwardingResult, forwarded, undefined_result,
}
use hzl_silicon_switch_lab.Routing.Engine
use hzl_silicon_switch_lab.Routing.Encapsulation.{
  L3EncapsulationFailure, L3EncapsulationResult, encapsulated, failed, encapsulate_ipv4_in_ethernet,
}
use hzl_silicon_switch_lab.Asic.FaultInjector.{FaultInjectionResult, injected, lost, process}
use hzl_silicon_switch_lab.Asic.TrafficStatistics.{
  ingress_packets, ingress_bytes, parse_errors, route_misses, ttl_expirations, neighbor_misses,
  corrupted_packets,
}
use hzl_silicon_switch_lab.Asic.SoftwareAsic.{SoftwareAsic}
use hzl_silicon_switch_lab.Asic.SoftwareAsic.PacketPath.{
  switched, flooded, routed, delivered_to_control_plane, no_reason, ingress_port_unavailable,
  malformed_frame, vlan_rejected, malformed_ipv4, route_miss, ttl_expired, neighbor_miss,
  egress_port_unavailable, Processing, dropped_result, count, count_if, fault_counter, fault_reason,
  pipeline_drop_counter, members_vlan,
}
use hzl_silicon_switch_lab.Asic.SoftwareAsic.Egress.{enqueue_outputs}

-- A frame for the control plane: the sender of an ARP packet becomes a neighbour.
unfoldable pub deliver_arp : SoftwareAsic → ℕ → ℤ → Option ArpPacket → Processing
deliver_arp asic now latency none =
    (count asic parse_errors 1, some (dropped_result malformed_frame latency))
deliver_arp asic now latency (some arp) = (
  record asic {
    arp_cache = (ArpCache.add_or_replace asic.arp_cache arp.sender_ip arp.sender_mac now).0;
  },
  some (record {
    disposition = delivered_to_control_plane;
    drop_reason = no_reason;
    output_ports = [];
    injected_latency = latency;
  }),
)

-- A routed packet, in its frame or with the reason that it has none.
unfoldable pub send_encapsulated : SoftwareAsic → ℕ → ℤ → L3EncapsulationResult → Processing
send_encapsulated asic output_port latency (failed L3EncapsulationFailure.neighbor_not_found) =
    (count asic neighbor_misses 1, some (dropped_result neighbor_miss latency))
send_encapsulated asic output_port latency (failed L3EncapsulationFailure.invalid_source_mac) =
    (asic, some (dropped_result egress_port_unavailable latency))
send_encapsulated asic output_port latency (failed L3EncapsulationFailure.packet_too_large) =
    (asic, some (dropped_result egress_port_unavailable latency))
send_encapsulated asic output_port latency (encapsulated frame) =
    enqueue_outputs asic routed (output_port ∷ []) (serialize_frame frame) latency

-- A forwarded packet, at its egress port.
unfoldable pub send_forwarded :
    SoftwareAsic → ℕ → ℤ → ForwardedIpv4Packet → Option VirtualPort → Processing
unfolding send_encapsulated
send_forwarded asic now latency packet none =
    (asic, some (dropped_result egress_port_unavailable latency))
send_forwarded asic now latency packet (some egress) =
    if not (operational egress)
    then (asic, some (dropped_result egress_port_unavailable latency))
    else send_encapsulated asic packet.output_port latency
        (encapsulate_ipv4_in_ethernet packet egress.mac_address asic.arp_cache now)

-- What the forwarding engine answers.
unfoldable pub routed_by : SoftwareAsic → ℕ → ℤ → Ipv4ForwardingResult → Processing
unfolding send_forwarded
routed_by asic now latency undefined_result = (asic, none)
routed_by asic now latency (Ipv4ForwardingResult.dropped Ipv4DropReason.route_not_found) =
    (count asic route_misses 1, some (dropped_result route_miss latency))
routed_by asic now latency (Ipv4ForwardingResult.dropped Ipv4DropReason.time_to_live_expired) =
    (count asic ttl_expirations 1, some (dropped_result ttl_expired latency))
routed_by asic now latency (forwarded packet) =
    send_forwarded asic now latency packet (find packet.output_port asic.ports)

-- A frame for the router.
unfoldable pub route_packet : SoftwareAsic → ℕ → ℤ → Option Ipv4Packet → Processing
unfolding routed_by
route_packet asic now latency none =
    (count asic parse_errors 1, some (dropped_result malformed_ipv4 latency))
route_packet asic now latency (some packet) =
    routed_by asic now latency (Engine.forward asic.route_table packet)

-- A frame that the pipeline drops.
unfoldable pub drop_for : SoftwareAsic → ℤ → Option PipelineDropReason → Processing
unfolding pipeline_drop_counter
drop_for asic latency none = (asic, none)
drop_for asic latency (some reason) =
    (count asic (pipeline_drop_counter reason) 1, some (dropped_result vlan_rejected latency))

-- What follows the pipeline, by its action.
unfoldable pub act :
    SoftwareAsic → ℕ → ℤ → EthernetFrame → PipelineAction → PipelineDecision → Processing
unfolding deliver_arp route_packet drop_for
act asic now latency frame PipelineAction.drop decision = drop_for asic latency decision.drop_reason
act asic now latency frame PipelineAction.deliver_to_control_plane decision =
    deliver_arp asic now latency (parse_arp frame.payload)
act asic now latency frame PipelineAction.route_ipv4 decision =
    route_packet asic now latency (parse_packet frame.payload)
act asic now latency frame PipelineAction.flood decision =
    enqueue_outputs asic flooded decision.output_ports (serialize_frame frame) latency
act asic now latency frame PipelineAction.switch_known_unicast decision =
    enqueue_outputs asic switched decision.output_ports (serialize_frame frame) latency

unfoldable pub decided : SoftwareAsic → ℕ → ℤ → EthernetFrame → Option PipelineDecision → Processing
unfolding act
decided asic now latency frame none = (asic, none)
decided asic now latency frame (some decision) = act asic now latency frame decision.action decision

-- The pipeline, with the members of the VLAN that was looked up.
unfoldable pub in_vlan :
    SoftwareAsic → ℕ → ℕ → ℤ → EthernetFrame → VlanPortConfig → Option VlanId → Processing
unfolding decided
in_vlan asic ingress_port now latency frame config none = (asic, none)
in_vlan asic ingress_port now latency frame config (some vlan) =
    let (mac_table, decision) =
      process_l2_l3_ingress frame ingress_port config (value_or (find vlan asic.vlan_members) [])
        asic.mac_table asic.router_interfaces now in
    decided (record asic { mac_table = mac_table }) now latency frame decision

-- The port receives the frame, and its counters move.
unfoldable pub parsed : SoftwareAsic → ℕ → VirtualPort → ℕ → ℤ → Option EthernetFrame → Processing
unfolding in_vlan members_vlan
parsed asic ingress_port port now latency none =
    (count asic parse_errors 1, some (dropped_result malformed_frame latency))
parsed asic ingress_port port now latency (some frame) =
    let (after, received) = receive port (length frame.payload) in
    let updated = record asic { ports = assign ingress_port after asic.ports } in
    if not received
    then (updated, some (dropped_result ingress_port_unavailable latency))
    else in_vlan updated ingress_port now latency frame after.vlan_config
        (members_vlan after.vlan_config frame)

-- What the fault injector answers for the bytes that arrived.
unfoldable pub arrived : SoftwareAsic → ℕ → VirtualPort → ℕ → FaultInjectionResult → Processing
unfolding parsed count_if fault_counter fault_reason
arrived asic ingress_port port now (lost reason) =
    (count asic (fault_counter reason) 1, some (dropped_result (fault_reason reason) (pos 0)))
arrived asic ingress_port port now (injected packet) =
    parsed (count_if packet.corrupted asic corrupted_packets) ingress_port port now packet.latency
      (parse_frame packet.bytes)

unfoldable pub accepted_at : SoftwareAsic → ℕ → VirtualPort → List ℕ → ℕ → Processing
unfolding arrived count
accepted_at asic ingress_port port bytes now =
    let counted = count (count asic ingress_packets 1) ingress_bytes (length bytes) in
    let (injector, fault) = process counted.fault_injector ingress_port bytes in
    arrived (record counted { fault_injector = injector }) ingress_port port now fault

unfoldable pub at_port : SoftwareAsic → ℕ → List ℕ → ℕ → Option VirtualPort → Processing
unfolding accepted_at
at_port asic ingress_port bytes now none =
    (asic, some (dropped_result ingress_port_unavailable (pos 0)))
at_port asic ingress_port bytes now (some port) =
    if not (operational port)
    then (asic, some (dropped_result ingress_port_unavailable (pos 0)))
    else accepted_at asic ingress_port port bytes now

-- `SoftwareAsic::process_packet`
unfoldable pub process_packet : SoftwareAsic → ℕ → List ℕ → ℕ → Processing
unfolding at_port
process_packet asic ingress_port bytes now =
    at_port asic ingress_port bytes now (find ingress_port asic.ports)
