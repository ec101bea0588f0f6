-- ===== src/Switching/Pipeline.antt =====
-- switching/l2_l3_pipeline.hpp and .cpp: what the switch does with a frame that arrives at a port.
-- The MAC table is a state that the function takes and returns. A result of `none` stands for a
-- dereference of an empty `std::optional` in the source.
pub mod Decision
pub mod Processing
use hzl_silicon_switch_lab.Base.{
  ℕ, Bool, true, false, List, [], Option, none, some, ◌==◌, if◌then◌else◌,
}
use hzl_silicon_switch_lab.Base.Map.{Map, find}
use hzl_silicon_switch_lab.Network.Vlan.{VlanId, vlan_order}
use hzl_silicon_switch_lab.Network.MacAddress.{MacAddress, mac_eq}
use hzl_silicon_switch_lab.Network.EthernetFrame.{EthernetFrame, ether_type_ipv4, ether_type_arp}
use hzl_silicon_switch_lab.Switching.VlanPort.{VlanPortConfig}
use hzl_silicon_switch_lab.Switching.VlanPort.Ingress.{
  VlanIngressDropReason, VlanIngressResult, accepted_ingress, dropped_ingress, undefined_ingress,
  classify_vlan_ingress,
}
use hzl_silicon_switch_lab.Switching.MacTable.{
  MacTable, MacTableUpdate, inserted, refreshed, moved, table_full, rejected, static_conflict,
  learn,
}
use hzl_silicon_switch_lab.Switching.Forwarding.{
  L2ForwardingAction, known_unicast, unknown_unicast_flood, broadcast_flood, multicast_flood,
  L2ForwardingDropReason, L2ForwardingDecision, decide_l2_forwarding,
}

pub data PipelineAction : Type 0 where
  switch_known_unicast flood route_ipv4 deliver_to_control_plane drop : PipelineAction

pub data PipelineDropReason : Type 0 where
  tagged_frame_on_access_port untagged_frame_without_native_vlan vlan_not_allowed :
      PipelineDropReason
  invalid_source_mac static_mac_conflict : PipelineDropReason
  same_ingress_port destination_not_in_vlan no_eligible_egress_port : PipelineDropReason
  unsupported_router_protocol : PipelineDropReason

pub record PipelineDecision : Type 0 where
  pub action : PipelineAction
  pub vlan : Option VlanId
  pub output_ports : List ℕ
  pub drop_reason : Option PipelineDropReason

-- `PipelineDecision::accept`
unfoldable pub accept : PipelineAction → VlanId → List ℕ → PipelineDecision
accept action vlan output_ports = record {
  action = action;
  vlan = some vlan;
  output_ports = output_ports;
  drop_reason = none;
}

-- `PipelineDecision::drop`
unfoldable pub drop_decision : Option VlanId → PipelineDropReason → PipelineDecision
drop_decision vlan reason = record {
  action = drop;
  vlan = vlan;
  output_ports = [];
  drop_reason = some reason;
}

unfoldable pub map_vlan_drop : VlanIngressDropReason → PipelineDropReason
map_vlan_drop VlanIngressDropReason.tagged_frame_on_access_port = tagged_frame_on_access_port
map_vlan_drop VlanIngressDropReason.untagged_frame_without_native_vlan =
    untagged_frame_without_native_vlan
map_vlan_drop VlanIngressDropReason.vlan_not_allowed = vlan_not_allowed

unfoldable pub map_l2_drop : L2ForwardingDropReason → PipelineDropReason
map_l2_drop L2ForwardingDropReason.same_ingress_port = same_ingress_port
map_l2_drop L2ForwardingDropReason.destination_not_in_vlan = destination_not_in_vlan
map_l2_drop L2ForwardingDropReason.no_eligible_egress_port = no_eligible_egress_port

abbrev pub RouterInterfaces : Type 0
RouterInterfaces = Map VlanId MacAddress

-- The two tests on the result of learning.
unfoldable pub learning_drop : MacTableUpdate → Option PipelineDropReason
learning_drop inserted = none
learning_drop refreshed = none
learning_drop moved = none
learning_drop table_full = none
learning_drop rejected = some invalid_source_mac
learning_drop static_conflict = some static_mac_conflict

-- `router != router_interfaces.end() && frame.destination() == router->second`
unfoldable pub is_router_address : MacAddress → Option MacAddress → Bool
is_router_address destination none = false
is_router_address destination (some router) = mac_eq destination router

-- The end of the function, by the action of the forwarding decision.
unfoldable pub switched :
    VlanId → L2ForwardingAction → List ℕ → Option L2ForwardingDropReason → Option PipelineDecision
switched vlan L2ForwardingAction.drop outputs none = none
switched vlan L2ForwardingAction.drop outputs (some reason) =
    some (drop_decision (some vlan) (map_l2_drop reason))
switched vlan known_unicast outputs reason = some (accept switch_known_unicast vlan outputs)
switched vlan unknown_unicast_flood outputs reason = some (accept flood vlan outputs)
switched vlan broadcast_flood outputs reason = some (accept flood vlan outputs)
switched vlan multicast_flood outputs reason = some (accept flood vlan outputs)

-- What follows the learning of the source address.
unfoldable pub process_destination :
    EthernetFrame → ℕ → List ℕ → MacTable → RouterInterfaces → VlanId → Option PipelineDecision
unfolding switched
process_destination frame ingress_port vlan_ports mac_table router_interfaces vlan =
    if is_router_address frame.destination (find vlan router_interfaces)
    then if frame.ether_type == ether_type_ipv4
      then some (accept route_ipv4 vlan [])
      else if frame.ether_type == ether_type_arp
      then some (accept deliver_to_control_plane vlan [])
      else some (drop_decision (some vlan) unsupported_router_protocol)
    else let l2 = decide_l2_forwarding frame vlan ingress_port vlan_ports mac_table in
      switched vlan l2.action l2.output_ports l2.drop_reason

unfoldable pub process_learned :
    EthernetFrame
    → ℕ
    → List ℕ
    → MacTable
    → RouterInterfaces
    → VlanId
    → Option PipelineDropReason
    → Option PipelineDecision
process_learned frame ingress_port vlan_ports mac_table router_interfaces vlan (some reason) =
    some (drop_decision (some vlan) reason)
process_learned frame ingress_port vlan_ports mac_table router_interfaces vlan none =
    process_destination frame ingress_port vlan_ports mac_table router_interfaces vlan

unfoldable pub process_classified :
    EthernetFrame
    → ℕ
    → List ℕ
    → MacTable
    → RouterInterfaces
    → ℕ
    → VlanIngressResult
    → MacTable × Option PipelineDecision
process_classified frame ingress_port vlan_ports mac_table router_interfaces now
      (dropped_ingress reason) =
    (mac_table, some (drop_decision none (map_vlan_drop reason)))
process_classified frame ingress_port vlan_ports mac_table router_interfaces now undefined_ingress =
    (mac_table, none)
process_classified frame ingress_port vlan_ports mac_table router_interfaces now
      (accepted_ingress vlan) =
    let (learned, learning) = learn mac_table vlan frame.source ingress_port now in
    (
      learned,
      process_learned frame ingress_port vlan_ports learned router_interfaces vlan
          (learning_drop learning),
    )

-- `process_l2_l3_ingress`
unfoldable pub process_l2_l3_ingress :
    EthernetFrame
    → ℕ
    → VlanPortConfig
    → List ℕ
    → MacTable
    → RouterInterfaces
    → ℕ
    → MacTable × Option PipelineDecision
unfolding process_classified
process_l2_l3_ingress frame ingress_port port_config vlan_ports mac_table router_interfaces now =
    process_classified frame ingress_port vlan_ports mac_table router_interfaces now
      (classify_vlan_ingress frame port_config)
