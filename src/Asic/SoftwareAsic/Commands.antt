-- ===== src/Asic/SoftwareAsic/Commands.antt =====
-- Every state that a sequence of calls on a new ASIC reaches, as class SoftwareAsic offers them.
use hzl_silicon_switch_lab.Base.{
  ℕ, ◌≡◌, Bool, List, Option, none, some, Bool-cases, Option-cases, inl, inr, has_value, nat_order,
}
use hzl_silicon_switch_lab.Base.Map.{find}
use hzl_silicon_switch_lab.Network.Vlan.{VlanId}
use hzl_silicon_switch_lab.Network.MacAddress.{MacAddress}
use hzl_silicon_switch_lab.Network.Ipv4Address.{Ipv4Address}
use hzl_silicon_switch_lab.Network.Ipv4Prefix.{Ipv4Prefix}
use hzl_silicon_switch_lab.Switching.VirtualPort.{VirtualPort}
use hzl_silicon_switch_lab.Routing.RouteTable.{RouteEntry}
use hzl_silicon_switch_lab.Asic.FaultInjector.{FaultInjectionConfig, set_config}
use hzl_silicon_switch_lab.Asic.SoftwareAsic.{
  SoftwareAsic, create_asic, create_port, remove_port, set_port_state, dequeue_packet,
}
use hzl_silicon_switch_lab.Asic.SoftwareAsic.Vlans.{
  create_vlan, remove_vlan, add_vlan_member, set_router_interface,
}
use hzl_silicon_switch_lab.Asic.SoftwareAsic.Tables.{
  add_or_replace_route, remove_route, add_or_replace_neighbor, remove_neighbor, configure_faults,
  with_injector,
}
use hzl_silicon_switch_lab.Asic.SoftwareAsic.PacketPath.{PacketProcessingResult}
use hzl_silicon_switch_lab.Asic.SoftwareAsic.Ingress.{process_packet}
use hzl_silicon_switch_lab.Asic.SoftwareAsic.Invariant.{IsAsic, IsPort}
use hzl_silicon_switch_lab.Asic.SoftwareAsic.Isolation.{IsProcessed}
use hzl_silicon_switch_lab.Asic.SoftwareAsic.Ports.{
  create_asic-IsAsic, create_port-IsAsic, remove_port_lem, set_port_state-IsAsic,
  dequeue_packet-IsAsic,
}
use hzl_silicon_switch_lab.Asic.SoftwareAsic.VlanChanges.{
  create_vlan-IsAsic, set_router_interface-IsAsic,
}
use hzl_silicon_switch_lab.Asic.SoftwareAsic.Membership.{add_vlan_member-IsAsic}
use hzl_silicon_switch_lab.Asic.SoftwareAsic.VlanRemoval.{remove_vlan-IsAsic}
use hzl_silicon_switch_lab.Asic.SoftwareAsic.Processing.{process_packet_lem}

-- One call that changes the ASIC, in a relation between the states before and after; a port that
-- is created is one that its factory made.
pub data Calls (asic : SoftwareAsic) : SoftwareAsic → Type 0 where
  creates_port :
      (port : VirtualPort) (queue_capacity : ℕ)
      → IsPort port
      → Calls asic (create_port asic port queue_capacity).0
  removes_port : (port : ℕ) → Calls asic (remove_port asic port).0
  sets_port_state :
      (port : ℕ) (admin_enabled link_up : Bool)
      → Calls asic (set_port_state asic port admin_enabled link_up).0
  creates_vlan : (vlan : VlanId) → Calls asic (create_vlan asic vlan).0
  removes_vlan : (vlan : VlanId) → Calls asic (remove_vlan asic vlan).0
  adds_vlan_member : (vlan : VlanId) (port : ℕ) → Calls asic (add_vlan_member asic vlan port).0
  sets_router_interface :
      (vlan : VlanId) (mac : MacAddress) → Calls asic (set_router_interface asic vlan mac).0
  adds_route : (route : RouteEntry) → Calls asic (add_or_replace_route asic route).0
  removes_route : (prefix : Ipv4Prefix) → Calls asic (remove_route asic prefix).0
  adds_neighbor :
      (address : Ipv4Address) (mac : MacAddress) (learned_at : ℕ)
      → Calls asic (add_or_replace_neighbor asic address mac learned_at).0
  removes_neighbor : (address : Ipv4Address) → Calls asic (remove_neighbor asic address).0
  configures_faults : (config : FaultInjectionConfig) → Calls asic (configure_faults asic config).0
  processes_packet :
      (port : ℕ) (bytes : List ℕ) (now : ℕ) → Calls asic (process_packet asic port bytes now).0
  dequeues_packet : (port : ℕ) → Calls asic (dequeue_packet asic port).0

-- The states that calls on a new ASIC reach.
pub data Reaches (mac_table_capacity : ℕ) : SoftwareAsic → Type 0 where
  starts :
      (asic : SoftwareAsic)
      → create_asic mac_table_capacity ≡ some asic
      → Reaches mac_table_capacity asic
  follows :
      (before after : SoftwareAsic)
      → Reaches mac_table_capacity before
      → Calls before after
      → Reaches mac_table_capacity after

processed-IsAsic :
    (asic : SoftwareAsic) (port : ℕ) (after : SoftwareAsic) (result : Option PacketProcessingResult)
    → IsProcessed asic port (after, result)
    → IsAsic after
processed-IsAsic asic port after none h = elim h [ ]
processed-IsAsic asic port after (some result) h = h.0

add_or_replace_route-IsAsic :
    (asic : SoftwareAsic) (route : RouteEntry)
    → IsAsic asic
    → IsAsic (add_or_replace_route asic route).0
unfolding add_or_replace_route
add_or_replace_route-IsAsic asic route v =
    elim (Bool-cases (has_value (find route.output_port asic.ports))) [
      | inl there ↦ rw there v
      | inr missing ↦ rw missing v
    ]

configure_faults-IsAsic :
    (asic : SoftwareAsic) (config : FaultInjectionConfig)
    → IsAsic asic
    → IsAsic (configure_faults asic config).0
unfolding configure_faults with_injector
configure_faults-IsAsic asic config v =
    elim (Option-cases (set_config asic.fault_injector config)) [
      | inl refused ↦ rw refused v
      | inr (injector, made) ↦ rw made v
    ]

Calls-IsAsic : (before after : SoftwareAsic) → Calls before after → IsAsic before → IsAsic after
Calls-IsAsic before _ (creates_port port capacity fits) v =
    create_port-IsAsic before v port capacity fits
Calls-IsAsic before _ (removes_port port) v = (remove_port_lem before v port).0
Calls-IsAsic before _ (sets_port_state port admin_enabled link_up) v =
    set_port_state-IsAsic before v port admin_enabled link_up
Calls-IsAsic before _ (creates_vlan vlan) v = create_vlan-IsAsic before v vlan
Calls-IsAsic before _ (removes_vlan vlan) v = remove_vlan-IsAsic before v vlan
Calls-IsAsic before _ (adds_vlan_member vlan port) v = add_vlan_member-IsAsic before v vlan port
Calls-IsAsic before _ (sets_router_interface vlan mac) v =
    set_router_interface-IsAsic before v vlan mac
Calls-IsAsic before _ (adds_route route) v = add_or_replace_route-IsAsic before route v
Calls-IsAsic before _ (removes_route prefix) v = unfold remove_route in v
Calls-IsAsic before _ (adds_neighbor address mac learned_at) v = unfold add_or_replace_neighbor in v
Calls-IsAsic before _ (removes_neighbor address) v = unfold remove_neighbor in v
Calls-IsAsic before _ (configures_faults config) v = configure_faults-IsAsic before config v
Calls-IsAsic before _ (processes_packet port bytes now) v =
    processed-IsAsic before port (process_packet before port bytes now).0
      (process_packet before port bytes now).1 (process_packet_lem before v port now bytes)
Calls-IsAsic before _ (dequeues_packet port) v = dequeue_packet-IsAsic before v port

-- Every ASIC that calls on a new one reach is well-formed, given that the ports created are as
-- their factory makes them: ports and queues have the same keys, each port stands under its own
-- number, with a valid VLAN configuration and an MTU within bounds, no queue is closed or over its
-- capacity, the members of a VLAN are ports that allow it, each once, and are members of a VLAN
-- that exists, router interfaces have usable addresses and VLANs that exist, and the MAC table is
-- well-formed.
pub Reaches-IsAsic :
    (mac_table_capacity : ℕ) (asic : SoftwareAsic) → Reaches mac_table_capacity asic → IsAsic asic
Reaches-IsAsic capacity _ (starts asic made) = create_asic-IsAsic capacity asic made
Reaches-IsAsic capacity _ (follows before after reached call) =
    Calls-IsAsic before after call (Reaches-IsAsic capacity before reached)
