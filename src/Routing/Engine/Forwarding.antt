-- ===== src/Routing/Engine/Forwarding.antt =====
-- What the routing of a packet gives.
use hzl_silicon_switch_lab.Base.{
  ◌-◌, ◌≤◌, ◌<◌, ◌≡◌, refl, Option, none, some, arith, leb, value_or, Bool-cases, inl, inr,
}
use hzl_silicon_switch_lab.Network.Ipv4Packet.{Ipv4Packet, create_packet, IsPacket}
use hzl_silicon_switch_lab.Routing.RouteTable.{RouteEntry, Ipv4RouteTable, longest_prefix_match}
use hzl_silicon_switch_lab.Routing.RouteTable.LongestPrefix.{
  IsBest, NoMatch, MatchSpec, longest_prefix_match_lem,
}
use hzl_silicon_switch_lab.Routing.Engine.{
  time_to_live_expired, route_not_found, updated_packet, dropped_packet, Ipv4ForwardingResult,
  forwarded, dropped, undefined_result, move_packet, decrement_ipv4_ttl, forward_by,
  forward_updated, forward,
}

-- The packet with one hop less to live.
abbrev pub decremented : Ipv4Packet → Ipv4Packet
decremented packet = record packet { time_to_live = packet.time_to_live - 1 }

decremented-IsPacket :
    (packet : Ipv4Packet)
    → 1 < packet.time_to_live
    → IsPacket packet
    → IsPacket (decremented packet)
decremented-IsPacket packet h v = record {
  source_fits = v.source_fits;
  destination_fits = v.destination_fits;
  protocol_byte = v.protocol_byte;
  payload_fits = v.payload_fits;
  payload_bytes = v.payload_bytes;
  alive = omega arith;
  time_byte = omega (arith, v.time_byte);
  identification_fits = v.identification_fits;
}

decrement-alive :
    (packet : Ipv4Packet)
    → 1 < packet.time_to_live
    → IsPacket packet
    → decrement_ipv4_ttl packet ≡ updated_packet (decremented packet)
unfolding decrement_ipv4_ttl create_packet move_packet
decrement-alive packet h v = ground (arith, h, v.payload_fits)

decrement-expired :
    (packet : Ipv4Packet)
    → packet.time_to_live ≤ 1
    → decrement_ipv4_ttl packet ≡ dropped_packet time_to_live_expired
unfolding decrement_ipv4_ttl
decrement-expired packet h = ground arith

-- What each result says of the packet and the table.
abbrev pub ForwardSpec : Ipv4RouteTable → Ipv4Packet → Ipv4ForwardingResult → Type 0
ForwardSpec table packet (forwarded f) =
    (1 < packet.time_to_live)
    × (f.packet ≡ decremented packet)
    × IsPacket f.packet
    × ((route : RouteEntry) × IsBest packet.destination table route
        × (f.output_port ≡ route.output_port)
        × (f.next_hop ≡ value_or route.next_hop packet.destination))
ForwardSpec table packet (dropped time_to_live_expired) = packet.time_to_live ≤ 1
ForwardSpec table packet (dropped route_not_found) =
    (1 < packet.time_to_live) × NoMatch packet.destination table
ForwardSpec table packet undefined_result = ⊥

module _ (table : Ipv4RouteTable) (packet : Ipv4Packet) where
  forward_by_lem :
      (route : Option RouteEntry)
      → 1 < packet.time_to_live
      → IsPacket packet
      → MatchSpec packet.destination table route
      → ForwardSpec table packet (forward_by packet.destination (decremented packet) route)
  unfolding forward_by
  forward_by_lem none h v m = (h, m)
  forward_by_lem (some route) h v m =
      (h, refl, decremented-IsPacket packet h v, (route, m, refl, refl))

  -- A valid packet is dropped as expired just when its time to live is at most 1; otherwise it is
  -- dropped when no route matches its destination, and forwarded, with its time to live one less
  -- and all else as it was, to the port and next hop of a longest matching route, where a route
  -- with no next hop sends it to its destination; the empty optional is never dereferenced.
  pub forward_lem : IsPacket packet → ForwardSpec table packet (forward table packet)
  unfolding forward forward_updated
  forward_lem v = elim (Bool-cases (leb packet.time_to_live 1)) [
    | inl expired ↦
        let h : packet.time_to_live ≤ 1 = ground (arith, expired) in
        rw (decrement-expired packet h) h
    | inr alive ↦
        let h : 1 < packet.time_to_live = ground (arith, alive) in
        rw (decrement-alive packet h v) (
          forward_by_lem (longest_prefix_match table packet.destination) h v
            (longest_prefix_match_lem packet.destination table))
  ]
