-- ===== src/Asic/SoftwareAsic/Actions.antt =====
-- process_packet after the pipeline: what each action returns.
use hzl_silicon_switch_lab.Base.{
  ℕ, ◌≡◌, ◌≢◌, refl, true, false, List, [], ◌∷◌, Option, none, some, arith, has_value, Bool-cases,
  Option-cases, inl, inr, nat_order, ℤ, ltb, leb, ◌==◌, length, ◌-◌,
}
use hzl_silicon_switch_lab.Base.Map.{find}
use hzl_silicon_switch_lab.Network.Vlan.{vlan_order}
use hzl_silicon_switch_lab.Network.EthernetFrame.{EthernetFrame, serialize_frame}
use hzl_silicon_switch_lab.Network.ArpPacket.{ArpPacket, parse_arp}
use hzl_silicon_switch_lab.Network.Ipv4Packet.{
  Ipv4Packet, parse_packet, create_packet, maximum_payload_size,
}
use hzl_silicon_switch_lab.Network.Ipv4Packet.Bounds.{IsAlive, parse_packet-IsAlive}
use hzl_silicon_switch_lab.Switching.VirtualPort.{VirtualPort, operational}
use hzl_silicon_switch_lab.Switching.Pipeline.{PipelineAction, PipelineDropReason, PipelineDecision}
use hzl_silicon_switch_lab.Routing.RouteTable.{Ipv4RouteTable, longest_prefix_match}
use hzl_silicon_switch_lab.Routing.Engine.{
  ForwardedIpv4Packet, Ipv4DropReason, Ipv4ForwardingResult, forwarded, undefined_result,
  decrement_ipv4_ttl, move_packet, forward_updated, forward_by,
}
use hzl_silicon_switch_lab.Routing.Engine
use hzl_silicon_switch_lab.Routing.Encapsulation.{
  L3EncapsulationFailure, L3EncapsulationResult, encapsulated, failed, encapsulate_ipv4_in_ethernet,
}
use hzl_silicon_switch_lab.Asic.SoftwareAsic.{SoftwareAsic}
use hzl_silicon_switch_lab.Asic.SoftwareAsic.PacketPath.{
  switched, flooded, routed, dropped_result, count,
}
use hzl_silicon_switch_lab.Asic.SoftwareAsic.Ingress.{
  deliver_arp, send_encapsulated, send_forwarded, routed_by, route_packet, drop_for, act,
}
use hzl_silicon_switch_lab.Asic.SoftwareAsic.Invariant.{IsAsic}
use hzl_silicon_switch_lab.Asic.SoftwareAsic.Movement.{Moved}
use hzl_silicon_switch_lab.Asic.SoftwareAsic.Isolation.{
  IsProcessed, IsIsolated, dropped-IsProcessed, enqueue_outputs-IsProcessed,
}

-- A packet that was parsed is routed or dropped, with no undefined step.
forward-ne_undefined :
    (table : Ipv4RouteTable) (packet : Ipv4Packet)
    → IsAlive packet
    → Engine.forward table packet ≢ undefined_result
unfolding Engine.forward decrement_ipv4_ttl create_packet move_packet forward_updated forward_by
forward-ne_undefined table packet v e = elim (Bool-cases (leb packet.time_to_live 1)) [
  | inl expired ↦ cc (rw expired at e)
  | inr alive ↦
      let small : ltb maximum_payload_size (length packet.payload) ≡ false =
        ground (arith, v.payload_fits) in
      let left : (packet.time_to_live - 1 == 0) ≡ false = ground (arith, alive) in
      elim (Option-cases (longest_prefix_match table packet.destination)) [
        | inl missed ↦ cc (rw (alive, small, left, missed) at e)
        | inr (route, found) ↦ cc (rw (alive, small, left, found) at e)
      ]
]

-- What the packet path needs of a decision.
abbrev pub ActionFits :
    SoftwareAsic → ℕ → PipelineAction → List ℕ → Option PipelineDropReason → Type 0
ActionFits asic ingress PipelineAction.drop outputs why = has_value why ≡ true
ActionFits asic ingress PipelineAction.deliver_to_control_plane outputs why = Unit {0}
ActionFits asic ingress PipelineAction.route_ipv4 outputs why = Unit {0}
ActionFits asic ingress PipelineAction.flood outputs why = IsIsolated asic ingress outputs
ActionFits asic ingress PipelineAction.switch_known_unicast outputs why =
    IsIsolated asic ingress outputs

module _ (asic : SoftwareAsic) (ingress : ℕ) (now : ℕ) (latency : ℤ) where
  module _ (after : SoftwareAsic) (v : IsAsic after) (m : Moved asic after) where
    deliver_arp-IsProcessed :
        (arp : Option ArpPacket) → IsProcessed asic ingress (deliver_arp after now latency arp)
    unfolding deliver_arp count dropped_result
    deliver_arp-IsProcessed none = (v, m, (refl, λ e. cc))
    deliver_arp-IsProcessed (some arp) = (v, m, (refl, refl))

    send_encapsulated-IsProcessed :
        (port : ℕ) (result : L3EncapsulationResult)
        → IsProcessed asic ingress (send_encapsulated after port latency result)
    unfolding send_encapsulated count dropped_result
    send_encapsulated-IsProcessed port (failed L3EncapsulationFailure.neighbor_not_found) =
        (v, m, (refl, λ e. cc))
    send_encapsulated-IsProcessed port (failed L3EncapsulationFailure.invalid_source_mac) =
        (v, m, (refl, λ e. cc))
    send_encapsulated-IsProcessed port (failed L3EncapsulationFailure.packet_too_large) =
        (v, m, (refl, λ e. cc))
    send_encapsulated-IsProcessed port (encapsulated frame) =
        enqueue_outputs-IsProcessed asic ingress after routed (port ∷ []) (serialize_frame frame)
          latency v m tt

    send_forwarded-IsProcessed :
        (packet : ForwardedIpv4Packet) (egress : Option VirtualPort)
        → IsProcessed asic ingress (send_forwarded after now latency packet egress)
    unfolding send_forwarded
    send_forwarded-IsProcessed packet none =
        dropped-IsProcessed asic ingress after _ latency v m (λ e. cc)
    send_forwarded-IsProcessed packet (some egress) = elim (Bool-cases (operational egress)) [
      | inr down ↦ rw down (dropped-IsProcessed asic ingress after _ latency v m (λ e. cc))
      | inl up ↦ rw up (
          send_encapsulated-IsProcessed packet.output_port
            (encapsulate_ipv4_in_ethernet packet egress.mac_address after.arp_cache now))
    ]

    routed_by-IsProcessed :
        (result : Ipv4ForwardingResult)
        → result ≢ undefined_result
        → IsProcessed asic ingress (routed_by after now latency result)
    unfolding routed_by count dropped_result
    routed_by-IsProcessed undefined_result n = absurd (n refl)
    routed_by-IsProcessed (Ipv4ForwardingResult.dropped Ipv4DropReason.route_not_found) n =
        (v, m, (refl, λ e. cc))
    routed_by-IsProcessed (Ipv4ForwardingResult.dropped Ipv4DropReason.time_to_live_expired) n =
        (v, m, (refl, λ e. cc))
    routed_by-IsProcessed (forwarded packet) n =
        send_forwarded-IsProcessed packet (find packet.output_port after.ports)

    route_packet-IsProcessed :
        (bytes : List ℕ) (packet : Option Ipv4Packet)
        → parse_packet bytes ≡ packet
        → IsProcessed asic ingress (route_packet after now latency packet)
    unfolding route_packet count dropped_result
    route_packet-IsProcessed bytes none e = (v, m, (refl, λ e. cc))
    route_packet-IsProcessed bytes (some packet) e =
        routed_by-IsProcessed (Engine.forward after.route_table packet)
          (forward-ne_undefined after.route_table packet (parse_packet-IsAlive bytes packet e))

    drop_for-IsProcessed :
        (why : Option PipelineDropReason)
        → has_value why ≡ true
        → IsProcessed asic ingress (drop_for after latency why)
    unfolding drop_for count dropped_result
    drop_for-IsProcessed none h = cc
    drop_for-IsProcessed (some why) h = (v, m, (refl, λ e. cc))

    pub act-IsProcessed :
        (frame : EthernetFrame) (action : PipelineAction) (decision : PipelineDecision)
        → ActionFits asic ingress action decision.output_ports decision.drop_reason
        → IsProcessed asic ingress (act after now latency frame action decision)
    unfolding act
    act-IsProcessed frame PipelineAction.drop decision h =
        drop_for-IsProcessed decision.drop_reason h
    act-IsProcessed frame PipelineAction.deliver_to_control_plane decision h =
        deliver_arp-IsProcessed (parse_arp frame.payload)
    act-IsProcessed frame PipelineAction.route_ipv4 decision h =
        route_packet-IsProcessed frame.payload (parse_packet frame.payload) refl
    act-IsProcessed frame PipelineAction.flood decision h =
        enqueue_outputs-IsProcessed asic ingress after flooded decision.output_ports
          (serialize_frame frame) latency v m h
    act-IsProcessed frame PipelineAction.switch_known_unicast decision h =
        enqueue_outputs-IsProcessed asic ingress after switched decision.output_ports
          (serialize_frame frame) latency v m h
