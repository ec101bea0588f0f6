-- ===== src/Witnesses/RoutingRuns.antt =====
-- The routing layer at concrete inputs.
use hzl_silicon_switch_lab.Base.{
  ℕ, ◌+◌, ◌≤◌, ◌≡◌, refl, [], ◌∷◌, none, some, length, arith, if◌then◌else◌, equiv, has_value,
}
use hzl_silicon_switch_lab.Network.Ipv4Address.{Ipv4Address, address_order, address_eq}
use hzl_silicon_switch_lab.Network.Ipv4Prefix.{Ipv4Prefix, prefix_eq}
use hzl_silicon_switch_lab.Routing.RouteTable.{
  RouteEntry, inserted, replaced, Ipv4RouteTable, find_exact, add_or_replace, longest_prefix_match,
}
use hzl_silicon_switch_lab.Routing.RouteTable.Exact.{IsRouteTable, find_exact-add_or_replace}
use hzl_silicon_switch_lab.Routing.RouteTable.LongestPrefix.{
  MatchSpec, longest_prefix_match_lem, longest_prefix_match_same,
}
use hzl_silicon_switch_lab.Routing.Engine.{ForwardedIpv4Packet, forward}
use hzl_silicon_switch_lab.Routing.Engine.Forwarding.{ForwardSpec, forward_lem}
use hzl_silicon_switch_lab.Routing.ArpCache.{ArpCache, lookup, expire}
use hzl_silicon_switch_lab.Routing.ArpCache.Lifetime.{
  IsCache, UpdateSpec, lookup-add_or_replace, lookup-expire, lookup-remove,
}
use hzl_silicon_switch_lab.Routing.Encapsulation.{encapsulate_ipv4_in_ethernet}
use hzl_silicon_switch_lab.Routing.Encapsulation.Delivery.{
  EncapsulationSpec, encapsulate_ipv4_in_ethernet_lem,
}
use hzl_silicon_switch_lab.Witnesses.Samples.{
  host_mac, host_address, host_packet, host_packet-IsPacket, ten_slash_eight,
}

abbrev route8 : RouteEntry
route8 = record { prefix = ten_slash_eight; next_hop = some (host_address 9); output_port = 3 }

-- The default route.
abbrev route0 : RouteEntry
route0 = record {
  prefix = record { network_address = record { value = 0 }; length = 0 };
  next_hop = none;
  output_port = 1;
}

abbrev routes : Ipv4RouteTable
routes = route0 ∷ route8 ∷ []

routes-IsRouteTable : IsRouteTable routes
unfolding find_exact prefix_eq address_eq
routes-IsRouteTable = (refl, (refl, tt))

-- The same routes, added the other way round.
abbrev routes_reversed : Ipv4RouteTable
routes_reversed = route8 ∷ route0 ∷ []

same_routes : (p : Ipv4Prefix) → find_exact routes p ≡ find_exact routes_reversed p
unfolding find_exact prefix_eq address_eq
same_routes p = ground arith

longest_prefix_match_lem_example :
    MatchSpec (host_address 2) routes (longest_prefix_match routes (host_address 2))
longest_prefix_match_lem_example = longest_prefix_match_lem (host_address 2) routes

longest_prefix_match_same_example :
    longest_prefix_match routes (host_address 2)
    ≡ longest_prefix_match routes_reversed (host_address 2)
longest_prefix_match_same_example =
    longest_prefix_match_same (host_address 2) routes routes_reversed same_routes

find_exact-add_or_replace_example :
    ((q : Ipv4Prefix)
      → find_exact (add_or_replace routes route8).0 q
        ≡ (if prefix_eq ten_slash_eight q then some route8 else find_exact routes q))
    × ((add_or_replace routes route8).1
        ≡ (if has_value (find_exact routes ten_slash_eight) then replaced else inserted))
find_exact-add_or_replace_example = find_exact-add_or_replace routes route8

forward_lem_example : ForwardSpec routes host_packet (forward routes host_packet)
forward_lem_example = forward_lem routes host_packet host_packet-IsPacket

abbrev cache : ArpCache
cache = record {
  entry_lifetime = 300;
  entries = (host_address 9, record { mac_address = host_mac 9; learned_at = 100 }) ∷ [];
}

cache-IsCache : IsCache cache
cache-IsCache = record { lifetime_positive = omega arith; sorted = (tt, tt) }

lookup-add_or_replace_example :
    let (cache', r) =
      hzl_silicon_switch_lab.Routing.ArpCache.add_or_replace cache
        (host_address 8)
        (host_mac 8)
        200 in
    UpdateSpec cache (host_address 8) (host_mac 8) 200 cache' r
lookup-add_or_replace_example =
    lookup-add_or_replace cache (host_address 8) (host_mac 8) 200 cache-IsCache

lookup-expire_example :
    ((address : Ipv4Address) (later : ℕ)
      → 400 ≤ later
      → lookup (expire cache 400).0 address later ≡ lookup cache address later)
    × ((expire cache 400).1 + length (expire cache 400).0.entries ≡ 1)
lookup-expire_example = lookup-expire cache 400 cache-IsCache

lookup-remove_example :
    lookup
      (hzl_silicon_switch_lab.Routing.ArpCache.remove cache (host_address 9)).0
      (host_address 9)
      150
    ≡ (if equiv (host_address 9) (host_address 9) then none else lookup cache (host_address 9) 150)
lookup-remove_example = lookup-remove cache (host_address 9) (host_address 9) 150

abbrev routed : ForwardedIpv4Packet
routed = record { packet = host_packet; output_port = 3; next_hop = host_address 9 }

encapsulate_ipv4_in_ethernet_lem_example :
    EncapsulationSpec routed
      (host_mac 1)
      (lookup cache (host_address 9) 150)
      (encapsulate_ipv4_in_ethernet routed (host_mac 1) cache 150)
encapsulate_ipv4_in_ethernet_lem_example =
    encapsulate_ipv4_in_ethernet_lem routed (host_mac 1) cache 150 host_packet-IsPacket
