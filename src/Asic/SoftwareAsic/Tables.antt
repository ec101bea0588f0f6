-- ===== src/Asic/SoftwareAsic/Tables.antt =====
-- asic/software_asic.cpp: the routes, the neighbours and the faults.
use hzl_silicon_switch_lab.Base.{ℕ, not, Option, none, some, if◌then◌else◌, has_value, nat_order}
use hzl_silicon_switch_lab.Base.Map.{find}
use hzl_silicon_switch_lab.Network.Vlan.{vlan_order}
use hzl_silicon_switch_lab.Network.MacAddress.{MacAddress}
use hzl_silicon_switch_lab.Network.Ipv4Address.{Ipv4Address}
use hzl_silicon_switch_lab.Network.Ipv4Prefix.{Ipv4Prefix}
use hzl_silicon_switch_lab.Routing.RouteTable.{RouteEntry, Ipv4RouteTable, find_exact}
use hzl_silicon_switch_lab.Routing.RouteTable
use hzl_silicon_switch_lab.Routing.ArpCache.{ArpCache, ArpCacheUpdate, lookup}
use hzl_silicon_switch_lab.Routing.ArpCache
use hzl_silicon_switch_lab.Asic.FaultInjector.{FaultInjector, FaultInjectionConfig, set_config}
use hzl_silicon_switch_lab.Asic.SoftwareAsic.{
  SoftwareAsic, AsicStatus, success, not_found, invalid_argument, dependency_missing,
}

-- `SoftwareAsic::add_or_replace_route`
unfoldable pub add_or_replace_route : SoftwareAsic → RouteEntry → SoftwareAsic × AsicStatus
add_or_replace_route asic route =
    if not (has_value (find route.output_port asic.ports)) then (asic, dependency_missing) else (
      record asic { route_table = (RouteTable.add_or_replace asic.route_table route).0 },
      success,
    )

-- `SoftwareAsic::remove_route`
unfoldable pub remove_route : SoftwareAsic → Ipv4Prefix → SoftwareAsic × AsicStatus
remove_route asic prefix =
    let (routes, removed) = RouteTable.remove asic.route_table prefix in
    (record asic { route_table = routes }, if removed then success else not_found)

unfoldable pub neighbor_status : ArpCacheUpdate → AsicStatus
neighbor_status ArpCacheUpdate.inserted = success
neighbor_status ArpCacheUpdate.replaced = success
neighbor_status ArpCacheUpdate.rejected = invalid_argument

-- `SoftwareAsic::add_or_replace_neighbor`
unfoldable pub add_or_replace_neighbor :
    SoftwareAsic → Ipv4Address → MacAddress → ℕ → SoftwareAsic × AsicStatus
unfolding neighbor_status
add_or_replace_neighbor asic address mac learned_at =
    let (cache, update) = ArpCache.add_or_replace asic.arp_cache address mac learned_at in
    (record asic { arp_cache = cache }, neighbor_status update)

-- `SoftwareAsic::remove_neighbor`
unfoldable pub remove_neighbor : SoftwareAsic → Ipv4Address → SoftwareAsic × AsicStatus
remove_neighbor asic address =
    let (cache, removed) = ArpCache.remove asic.arp_cache address in
    (record asic { arp_cache = cache }, if removed then success else not_found)

unfoldable pub with_injector : SoftwareAsic → Option FaultInjector → SoftwareAsic × AsicStatus
with_injector asic none = (asic, invalid_argument)
with_injector asic (some injector) = (record asic { fault_injector = injector }, success)

-- `SoftwareAsic::configure_faults`
unfoldable pub configure_faults : SoftwareAsic → FaultInjectionConfig → SoftwareAsic × AsicStatus
unfolding with_injector
configure_faults asic config = with_injector asic (set_config asic.fault_injector config)
