-- ===== src/Asic/SoftwareAsic/PacketPath.antt =====
-- asic/software_asic.cpp: process_packet, from the arrival of the bytes at a port to the queues. A
-- result of `none` stands for a dereference of an empty `std::optional` or of an end iterator.
use hzl_silicon_switch_lab.Base.{
  ℕ, Bool, true, false, List, [], ◌∷◌, Option, none, some, if◌then◌else◌, value_or, nat_order, ℤ,
}
use hzl_silicon_switch_lab.Network.Vlan.{VlanId, VlanTag, vlan_order}
use hzl_silicon_switch_lab.Network.EthernetFrame.{EthernetFrame}
use hzl_silicon_switch_lab.Switching.VlanPort.{VlanPortConfig, VlanSet, is_access}
use hzl_silicon_switch_lab.Switching.Pipeline.{PipelineDropReason}
use hzl_silicon_switch_lab.Switching.VirtualPort.{VirtualPort, operational}
use hzl_silicon_switch_lab.Asic.FaultInjector.{
  FaultDropReason, failed_port, deterministic_packet_loss,
}
use hzl_silicon_switch_lab.Asic.TrafficStatistics.{
  TrafficCounter, vlan_drops, filtered_frames, fault_drops, increment,
}
use hzl_silicon_switch_lab.Asic.SoftwareAsic.{SoftwareAsic}

pub data PacketDisposition : Type 0 where
  switched flooded routed delivered_to_control_plane dropped : PacketDisposition

-- The drop reasons of a packet; `no_reason` is the source's `none`.
pub data PacketDropReason : Type 0 where
  no_reason ingress_port_unavailable malformed_frame vlan_rejected : PacketDropReason
  forwarding_filtered malformed_ipv4 route_miss ttl_expired : PacketDropReason
  neighbor_miss egress_port_unavailable queue_congestion : PacketDropReason
  injected_fault resource_exhaustion : PacketDropReason

pub record PacketProcessingResult : Type 0 where
  pub disposition : PacketDisposition
  pub drop_reason : PacketDropReason
  pub output_ports : List ℕ
  pub injected_latency : ℤ

-- A step of the packet path: the ASIC after it, and the result.
abbrev pub Processing : Type 0
Processing = SoftwareAsic × Option PacketProcessingResult

-- `dropped`
unfoldable pub dropped_result : PacketDropReason → ℤ → PacketProcessingResult
dropped_result cause latency = record {
  disposition = dropped;
  drop_reason = cause;
  output_ports = [];
  injected_latency = latency;
}

-- `statistics_.increment`
unfoldable pub count : SoftwareAsic → TrafficCounter → ℕ → SoftwareAsic
count asic counter amount = record asic { statistics = increment asic.statistics counter amount }

unfoldable pub count_if : Bool → SoftwareAsic → TrafficCounter → SoftwareAsic
unfolding count
count_if true asic counter = count asic counter 1
count_if false asic counter = asic

-- The counter of a fault, and the drop reason.
unfoldable pub fault_counter : FaultDropReason → TrafficCounter
fault_counter failed_port = fault_drops
fault_counter deterministic_packet_loss = fault_drops
fault_counter FaultDropReason.resource_exhaustion = TrafficCounter.resource_exhaustion

unfoldable pub fault_reason : FaultDropReason → PacketDropReason
fault_reason failed_port = injected_fault
fault_reason deterministic_packet_loss = injected_fault
fault_reason FaultDropReason.resource_exhaustion = resource_exhaustion

-- The counter that `count_pipeline_drop` increments.
unfoldable pub pipeline_drop_counter : PipelineDropReason → TrafficCounter
pipeline_drop_counter PipelineDropReason.tagged_frame_on_access_port = vlan_drops
pipeline_drop_counter PipelineDropReason.untagged_frame_without_native_vlan = vlan_drops
pipeline_drop_counter PipelineDropReason.vlan_not_allowed = vlan_drops
pipeline_drop_counter PipelineDropReason.invalid_source_mac = filtered_frames
pipeline_drop_counter PipelineDropReason.static_mac_conflict = filtered_frames
pipeline_drop_counter PipelineDropReason.same_ingress_port = filtered_frames
pipeline_drop_counter PipelineDropReason.destination_not_in_vlan = filtered_frames
pipeline_drop_counter PipelineDropReason.no_eligible_egress_port = filtered_frames
pipeline_drop_counter PipelineDropReason.unsupported_router_protocol = filtered_frames

unfoldable pub is_operational : Option VirtualPort → Bool
is_operational none = false
is_operational (some port) = operational port

-- `*port->second.vlan_config().allowed_vlans().begin()`
unfoldable pub first_vlan : VlanSet → Option VlanId
first_vlan [] = none
first_vlan ((vlan, u) ∷ vlans) = some vlan

-- The VLAN whose members the packet path looks up.
unfoldable pub members_vlan_of_trunk :
    VlanPortConfig → Option VlanTag → Option VlanId → Option VlanId
members_vlan_of_trunk config (some tag) first = some tag.vlan_id
members_vlan_of_trunk config none none = none
members_vlan_of_trunk config none (some first) = some (value_or config.native_vlan first)

unfoldable pub members_vlan : VlanPortConfig → EthernetFrame → Option VlanId
unfolding members_vlan_of_trunk first_vlan
members_vlan config frame =
    if is_access config.mode
    then config.access_vlan
    else members_vlan_of_trunk config frame.vlan_tag (first_vlan config.allowed_vlans)
