-- ===== src/Asic/SoftwareAsic.antt =====
-- asic/switch_asic.hpp, and the state, the ports and the queries of asic/software_asic.hpp and .cpp.
pub mod Vlans
pub mod Tables
pub mod PacketPath
pub mod Egress
pub mod Ingress
pub mod Members
pub mod Invariant
pub mod Ports
pub mod VlanChanges
pub mod Membership
pub mod VlanRemoval
pub mod Movement
pub mod Delivery
pub mod Arrival
pub mod Isolation
pub mod Actions
pub mod Decisions
pub mod Processing
pub mod Commands
use hzl_silicon_switch_lab.Base.{
  ℕ, Bool, true, false, not, ◌&&◌, ◌||◌, List, [], ◌∷◌, ◌++◌, Option, none, some, ◌==◌,
  if◌then◌else◌, has_value, value_or, nat_order, ℤ, pos,
}
use hzl_silicon_switch_lab.Base.Map.{Map, find, emplace, assign, insert_or_assign, erase}
use hzl_silicon_switch_lab.Network.Vlan.{VlanId, vlan_order}
use hzl_silicon_switch_lab.Network.MacAddress.{MacAddress, is_usable_mac}
use hzl_silicon_switch_lab.Network.Ipv4Address.{Ipv4Address}
use hzl_silicon_switch_lab.Network.Ipv4Prefix.{Ipv4Prefix}
use hzl_silicon_switch_lab.Switching.VlanPort.{VlanSet, allows}
use hzl_silicon_switch_lab.Switching.MacTable.{MacTable, create_table}
use hzl_silicon_switch_lab.Switching.Forwarding.{contains_port}
use hzl_silicon_switch_lab.Switching.Pipeline.{RouterInterfaces}
use hzl_silicon_switch_lab.Switching.VirtualPort.{VirtualPort, set_admin_enabled, set_link_up}
use hzl_silicon_switch_lab.Routing.RouteTable.{RouteEntry, Ipv4RouteTable, find_exact}
use hzl_silicon_switch_lab.Routing.RouteTable
use hzl_silicon_switch_lab.Routing.ArpCache.{ArpCache, ArpCacheUpdate, lookup}
use hzl_silicon_switch_lab.Routing.ArpCache
use hzl_silicon_switch_lab.Asic.BoundedQueue.{BoundedQueue, create_queue, try_dequeue, close}
use hzl_silicon_switch_lab.Asic.FaultInjector.{
  FaultInjector, FaultInjectionConfig, no_faults, set_config,
}
use hzl_silicon_switch_lab.Asic.TrafficStatistics.{TrafficStatistics, no_traffic, snapshot}

pub data AsicStatus : Type 0 where
  success already_exists not_found invalid_argument : AsicStatus
  dependency_missing resource_exhausted : AsicStatus

abbrev pub PacketQueue : Type 0
PacketQueue = BoundedQueue (List ℕ)

-- A port is keyed by the number of its `PortId`; a queue that `queues_` owns is its value.
pub record SoftwareAsic : Type 0 where
  pub ports : Map ℕ VirtualPort
  pub queues : Map ℕ PacketQueue
  pub vlans : VlanSet
  pub vlan_members : Map VlanId (List ℕ)
  pub router_interfaces : RouterInterfaces
  pub mac_table : MacTable
  pub route_table : Ipv4RouteTable
  pub arp_cache : ArpCache
  pub fault_injector : FaultInjector
  pub statistics : TrafficStatistics

-- The lifetime of 300 seconds that the table and the cache take by default, in nanoseconds.
abbrev pub default_entry_lifetime : ℕ
default_entry_lifetime = 300_000_000_000

unfoldable pub asic_with : Option MacTable → Option SoftwareAsic
asic_with none = none
asic_with (some mac_table) = some (record {
  ports = [];
  queues = [];
  vlans = [];
  vlan_members = [];
  router_interfaces = [];
  mac_table = mac_table;
  route_table = [];
  arp_cache = record { entry_lifetime = default_entry_lifetime; entries = [] };
  fault_injector = record { config = no_faults; processed_packets = 0 };
  statistics = no_traffic;
})

-- `SoftwareAsic::SoftwareAsic`; `none` is the exception of an empty MAC table.
unfoldable pub create_asic : ℕ → Option SoftwareAsic
unfolding asic_with
create_asic mac_table_capacity = asic_with (create_table mac_table_capacity default_entry_lifetime)

unfoldable pub create_port_with :
    SoftwareAsic → VirtualPort → Option PacketQueue → SoftwareAsic × AsicStatus
create_port_with asic port none = (asic, invalid_argument)
create_port_with asic port (some queue) =
    if has_value (find port.id asic.ports) then (asic, already_exists) else (
      record asic {
        queues = emplace port.id queue asic.queues;
        ports = emplace port.id port asic.ports;
      },
      success,
    )

-- `SoftwareAsic::create_port`; the test of the capacity is that of the queue's constructor.
unfoldable pub create_port : SoftwareAsic → VirtualPort → ℕ → SoftwareAsic × AsicStatus
unfolding create_port_with
create_port asic port queue_capacity = create_port_with asic port (create_queue queue_capacity)

-- `list.erase(std::remove(list.begin(), list.end(), port), list.end())`
unfoldable pub remove_member : ℕ → List ℕ → List ℕ
remove_member port [] = []
remove_member port (member ∷ members) =
    if member == port then remove_member port members else member ∷ remove_member port members

-- The loop over the members of every VLAN.
unfoldable pub remove_from_members : ℕ → Map VlanId (List ℕ) → Map VlanId (List ℕ)
unfolding remove_member
remove_from_members port [] = []
remove_from_members port ((vlan, members) ∷ rest) =
    (vlan, remove_member port members) ∷ remove_from_members port rest

-- What is left of `remove_port` once the queue has been looked up; the queue that is closed is
-- destroyed with its entry. No status is the exception of `queues_.at`.
unfoldable pub drop_port : SoftwareAsic → ℕ → Option PacketQueue → SoftwareAsic × Option AsicStatus
drop_port asic port none = (asic, none)
drop_port asic port (some queue) =
    (record asic { queues = erase port asic.queues; ports = erase port asic.ports }, some success)

-- `SoftwareAsic::remove_port`
unfoldable pub remove_port : SoftwareAsic → ℕ → SoftwareAsic × Option AsicStatus
unfolding drop_port
remove_port asic port =
    if not (has_value (find port asic.ports))
    then (asic, some not_found)
    else drop_port (record asic { vlan_members = remove_from_members port asic.vlan_members }) port
        (find port asic.queues)

unfoldable pub set_found_state :
    SoftwareAsic → ℕ → Bool → Bool → Option VirtualPort → SoftwareAsic × AsicStatus
set_found_state asic port admin_enabled link_up none = (asic, not_found)
set_found_state asic port admin_enabled link_up (some existing) = (
  record asic {
    ports = assign port (set_link_up (set_admin_enabled existing admin_enabled) link_up) asic.ports;
  },
  success,
)

-- `SoftwareAsic::set_port_state`
unfoldable pub set_port_state : SoftwareAsic → ℕ → Bool → Bool → SoftwareAsic × AsicStatus
unfolding set_found_state
set_port_state asic port admin_enabled link_up =
    set_found_state asic port admin_enabled link_up (find port asic.ports)

-- The queries
unfoldable pub has_port : SoftwareAsic → ℕ → Bool
has_port asic port = has_value (find port asic.ports)

unfoldable pub has_vlan : SoftwareAsic → VlanId → Bool
has_vlan asic vlan = has_value (find vlan asic.vlans)

unfoldable pub find_route : SoftwareAsic → Ipv4Prefix → Option RouteEntry
find_route asic prefix = find_exact asic.route_table prefix

unfoldable pub find_neighbor : SoftwareAsic → Ipv4Address → ℕ → Option MacAddress
find_neighbor asic address now = lookup asic.arp_cache address now

unfoldable pub counters : SoftwareAsic → TrafficStatistics
counters asic = snapshot asic.statistics

unfoldable pub dequeue_found :
    SoftwareAsic → ℕ → Option PacketQueue → SoftwareAsic × Option (List ℕ)
dequeue_found asic port none = (asic, none)
dequeue_found asic port (some queue) =
    let (rest, packet) = try_dequeue queue in
    (record asic { queues = assign port rest asic.queues }, packet)

-- `SoftwareAsic::dequeue_packet`
unfoldable pub dequeue_packet : SoftwareAsic → ℕ → SoftwareAsic × Option (List ℕ)
unfolding dequeue_found
dequeue_packet asic port = dequeue_found asic port (find port asic.queues)
