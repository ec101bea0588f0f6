-- ===== src/Routing/Engine.antt =====
-- routing/ipv4_forwarding_result.hpp, routing/ipv4_ttl.cpp and routing/ipv4_forwarding_engine.hpp and
-- .cpp: the routing of one packet. The engine's state is its route table, which nothing changes.
pub mod Forwarding
use hzl_silicon_switch_lab.Base.{
  ℕ, ◌-◌, Bool, true, false, Option, none, some, leb, if◌then◌else◌, value_or,
}
use hzl_silicon_switch_lab.Network.Ipv4Address.{Ipv4Address}
use hzl_silicon_switch_lab.Network.Ipv4Packet.{Ipv4Packet, create_packet}
use hzl_silicon_switch_lab.Routing.RouteTable.{RouteEntry, Ipv4RouteTable, longest_prefix_match}

pub data Ipv4DropReason : Type 0 where
  time_to_live_expired route_not_found : Ipv4DropReason

pub record ForwardedIpv4Packet : Type 0 where
  pub packet : Ipv4Packet
  pub output_port : ℕ
  pub next_hop : Ipv4Address

pub data Ipv4TtlUpdateResult : Type 0 where
  updated_packet : Ipv4Packet → Ipv4TtlUpdateResult
  dropped_packet : Ipv4DropReason → Ipv4TtlUpdateResult
  -- `*decremented_packet` of an empty `std::optional`
  undefined_packet : Ipv4TtlUpdateResult

pub data Ipv4ForwardingResult : Type 0 where
  forwarded : ForwardedIpv4Packet → Ipv4ForwardingResult
  dropped : Ipv4DropReason → Ipv4ForwardingResult
  undefined_result : Ipv4ForwardingResult

unfoldable pub move_packet : Option Ipv4Packet → Ipv4TtlUpdateResult
move_packet none = undefined_packet
move_packet (some packet) = updated_packet packet

-- `decrement_ipv4_ttl`
unfoldable pub decrement_ipv4_ttl : Ipv4Packet → Ipv4TtlUpdateResult
unfolding move_packet
decrement_ipv4_ttl packet =
    if leb packet.time_to_live 1
    then dropped_packet time_to_live_expired
    else move_packet (
        create_packet packet.source packet.destination packet.protocol packet.payload
          (packet.time_to_live - 1) packet.identification packet.dont_fragment)

-- The end of `forward`, once the table has been asked.
unfoldable pub forward_by : Ipv4Address → Ipv4Packet → Option RouteEntry → Ipv4ForwardingResult
forward_by destination updated none = dropped route_not_found
forward_by destination updated (some route) = forwarded (record {
  packet = updated;
  output_port = route.output_port;
  next_hop = value_or route.next_hop destination;
})

unfoldable pub forward_updated :
    Ipv4RouteTable → Ipv4Address → Ipv4TtlUpdateResult → Ipv4ForwardingResult
unfolding forward_by
forward_updated route_table destination (dropped_packet reason) = dropped reason
forward_updated route_table destination undefined_packet = undefined_result
forward_updated route_table destination (updated_packet updated) =
    forward_by destination updated (longest_prefix_match route_table destination)

-- `Ipv4ForwardingEngine::forward`
unfoldable pub forward : Ipv4RouteTable → Ipv4Packet → Ipv4ForwardingResult
unfolding forward_updated
forward route_table packet =
    forward_updated route_table packet.destination (decrement_ipv4_ttl packet)
