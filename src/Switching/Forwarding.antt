-- ===== src/Switching/Forwarding.antt =====
-- switching/l2_forwarding.hpp and .cpp: the output ports of a frame inside its VLAN. A port is the
-- number of its `PortId`.
pub mod Outputs
use hzl_silicon_switch_lab.Base.{
  ℕ, ◌≡◌, Bool, true, false, not, ◌&&◌, ◌||◌, List, [], ◌∷◌, ◌++◌, Option, none, some, ◌==◌,
  if◌then◌else◌,
}
use hzl_silicon_switch_lab.Network.Vlan.{VlanId}
use hzl_silicon_switch_lab.Network.MacAddress.{MacAddress, is_broadcast, is_multicast}
use hzl_silicon_switch_lab.Network.EthernetFrame.{EthernetFrame}
use hzl_silicon_switch_lab.Switching.MacTable.{MacTable, MacTableEntry, lookup}

pub data L2ForwardingAction : Type 0 where
  known_unicast unknown_unicast_flood broadcast_flood multicast_flood drop : L2ForwardingAction

pub data L2ForwardingDropReason : Type 0 where
  same_ingress_port destination_not_in_vlan no_eligible_egress_port : L2ForwardingDropReason

pub record L2ForwardingDecision : Type 0 where
  pub action : L2ForwardingAction
  pub output_ports : List ℕ
  pub drop_reason : Option L2ForwardingDropReason

-- `L2ForwardingDecision::forward`
unfoldable pub forward : L2ForwardingAction → List ℕ → L2ForwardingDecision
forward action output_ports = record {
  action = action;
  output_ports = output_ports;
  drop_reason = none;
}

-- `L2ForwardingDecision::drop`
unfoldable pub drop_frame : L2ForwardingDropReason → L2ForwardingDecision
drop_frame reason = record { action = drop; output_ports = []; drop_reason = some reason }

-- `std::find(ports.begin(), ports.end(), port) != ports.end()`
unfoldable pub contains_port : ℕ → List ℕ → Bool
contains_port port [] = false
contains_port port (p ∷ ports) = p == port || contains_port port ports

-- The loop of `flood`, over the ports that are left.
unfoldable pub flood_loop : ℕ → List ℕ → (outputs : List ℕ) → List ℕ
unfolding contains_port
flood_loop ingress_port [] outputs = outputs
flood_loop ingress_port (port ∷ ports) outputs = flood_loop ingress_port ports (
    if not (port == ingress_port) && not (contains_port port outputs)
    then outputs ++ (port ∷ [])
    else outputs)

unfoldable pub forward_or_drop : L2ForwardingAction → List ℕ → L2ForwardingDecision
unfolding forward drop_frame
forward_or_drop action [] = drop_frame no_eligible_egress_port
forward_or_drop action (p ∷ outputs) = forward action (p ∷ outputs)

-- `flood`
unfoldable pub flood : L2ForwardingAction → ℕ → List ℕ → L2ForwardingDecision
unfolding forward_or_drop
flood action ingress_port vlan_ports =
    forward_or_drop action (flood_loop ingress_port vlan_ports [])

-- The end of `decide_l2_forwarding`, once the table has been asked.
unfoldable pub decide_unicast : ℕ → List ℕ → Option MacTableEntry → L2ForwardingDecision
decide_unicast ingress_port vlan_ports none = flood unknown_unicast_flood ingress_port vlan_ports
decide_unicast ingress_port vlan_ports (some destination) =
    if destination.port == ingress_port
    then drop_frame same_ingress_port
    else if not (contains_port destination.port vlan_ports)
    then drop_frame destination_not_in_vlan
    else forward known_unicast (destination.port ∷ [])

-- `decide_l2_forwarding`
unfoldable pub decide_l2_forwarding :
    EthernetFrame → VlanId → ℕ → List ℕ → MacTable → L2ForwardingDecision
unfolding decide_unicast
decide_l2_forwarding frame vlan ingress_port vlan_ports mac_table =
    if is_broadcast frame.destination
    then flood broadcast_flood ingress_port vlan_ports
    else if is_multicast frame.destination
    then flood multicast_flood ingress_port vlan_ports
    else decide_unicast ingress_port vlan_ports (lookup mac_table vlan frame.destination)
