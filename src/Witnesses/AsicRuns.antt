-- ===== src/Witnesses/AsicRuns.antt =====
-- The queues, the faults and the software ASIC at concrete inputs.
use hzl_silicon_switch_lab.Base.{
  ℕ, ◌+◌, ◌/◌, ◌≡◌, refl, true, false, List, [], ◌∷◌, none, some, arith, pos, if◌then◌else◌,
  has_value, nat_order, equiv,
}
use hzl_silicon_switch_lab.Base.Map.{find}
use hzl_silicon_switch_lab.Network.Vlan.{VlanId, vlan_order}
use hzl_silicon_switch_lab.Network.EthernetFrame.{serialize_frame}
use hzl_silicon_switch_lab.Switching.VlanPort.{access_config}
use hzl_silicon_switch_lab.Switching.VlanPort.Ingress.{access_config-IsConfig}
use hzl_silicon_switch_lab.Switching.MacTable.{create_table}
use hzl_silicon_switch_lab.Switching.Forwarding.{contains_port}
use hzl_silicon_switch_lab.Switching.VirtualPort.{VirtualPort, gbps_1, zero_counters, operational}
use hzl_silicon_switch_lab.Asic.FaultInjector.{FaultInjectionConfig, no_faults}
use hzl_silicon_switch_lab.Asic.FaultInjector.Losses.{LosesOnly, losses, losses_lem}
use hzl_silicon_switch_lab.Asic.TrafficStatistics.{
  no_traffic, increment, egress_packets, egress_bytes,
}
use hzl_silicon_switch_lab.Asic.SoftwareAsic.{
  SoftwareAsic, PacketQueue, success, not_found, create_asic, asic_with, create_port, remove_port,
  set_port_state, default_entry_lifetime,
}
use hzl_silicon_switch_lab.Asic.SoftwareAsic.Vlans.{create_vlan, add_vlan_member}
use hzl_silicon_switch_lab.Asic.SoftwareAsic.PacketPath.{routed, no_reason, first_vlan}
use hzl_silicon_switch_lab.Asic.SoftwareAsic.Egress.{enqueue_outputs, max_latency}
use hzl_silicon_switch_lab.Asic.SoftwareAsic.Ingress.{process_packet}
use hzl_silicon_switch_lab.Asic.SoftwareAsic.Members.{members_of}
use hzl_silicon_switch_lab.Asic.SoftwareAsic.Invariant.{IsAsic, IsPort}
use hzl_silicon_switch_lab.Asic.SoftwareAsic.Isolation.{IsProcessed}
use hzl_silicon_switch_lab.Asic.SoftwareAsic.Processing.{process_packet_lem}
use hzl_silicon_switch_lab.Asic.SoftwareAsic.Ports.{remove_port_lem}
use hzl_silicon_switch_lab.Asic.SoftwareAsic.Arrival.{CanTake, enqueue_outputs-arrives}
use hzl_silicon_switch_lab.Asic.SoftwareAsic.Commands.{
  Reaches, starts, follows, creates_port, sets_port_state, creates_vlan, adds_vlan_member,
  Reaches-IsAsic,
}
use hzl_silicon_switch_lab.Witnesses.Samples.{vlan10, host_mac, host_frame}
use hzl_silicon_switch_lab.Asic.BoundedQueue.{BoundedQueue, create_queue}
use hzl_silicon_switch_lab.Asic.BoundedQueue.Fifo.{
  Call, enqueue_call, dequeue_call, close_call, run, begin, IsFifo, run-IsFifo,
}

abbrev small_queue : BoundedQueue ℕ
small_queue = record { capacity = 2; values = []; closed = false }

abbrev some_calls : List (Call ℕ)
some_calls =
    enqueue_call 5
    ∷ enqueue_call 6
    ∷ enqueue_call 7
    ∷ dequeue_call
    ∷ close_call
    ∷ enqueue_call 8
    ∷ []

small_queue-made : create_queue 2 ≡ some small_queue
unfolding create_queue
small_queue-made = refl

run-IsFifo_example : IsFifo 2 (run (begin small_queue) some_calls)
run-IsFifo_example = run-IsFifo 2 small_queue some_calls small_queue-made

-- Every third packet is lost.
abbrev lossy : FaultInjectionConfig
lossy = record {
  failed_ports = [];
  drop_every_nth_packet = 3;
  corrupt_every_nth_packet = 0;
  latency = pos 0;
  resource_exhausted = false;
}

lossy-LosesOnly : LosesOnly lossy 1
unfolding find
lossy-LosesOnly = record { port_works = refl; has_resources = refl; period = omega arith }

abbrev four_packets : List (List ℕ)
four_packets = (1 ∷ []) ∷ (2 ∷ []) ∷ (3 ∷ []) ∷ (4 ∷ []) ∷ []

losses_lem_example :
    losses (record { config = lossy; processed_packets = 0 }) 1 four_packets + 0 / 3 ≡ (0 + 4) / 3
losses_lem_example = losses_lem lossy 1 lossy-LosesOnly 0 four_packets (omega arith)

-- An access port of VLAN 10.
abbrev port_numbered : ℕ → VirtualPort
port_numbered n = record {
  id = n;
  mac_address = host_mac n;
  speed = gbps_1;
  mtu = 1500;
  vlan_config = access_config vlan10;
  admin_enabled = false;
  link_up = false;
  counters = zero_counters;
}

port_numbered-IsPort : (n : ℕ) → IsPort (port_numbered n)
unfolding access_config first_vlan
port_numbered-IsPort n = record {
  config = access_config-IsConfig vlan10;
  some_vlan = refl;
  mtu_low = omega arith;
  mtu_high = omega arith;
}

abbrev new_asic : SoftwareAsic
new_asic = record {
  ports = [];
  queues = [];
  vlans = [];
  vlan_members = [];
  router_interfaces = [];
  mac_table = record { capacity = 4; entry_lifetime = default_entry_lifetime; entries = [] };
  route_table = [];
  arp_cache = record { entry_lifetime = default_entry_lifetime; entries = [] };
  fault_injector = record { config = no_faults; processed_packets = 0 };
  statistics = no_traffic;
}

new_asic-made : create_asic 4 ≡ some new_asic
unfolding create_asic asic_with create_table
new_asic-made = refl

-- Ports 1 and 2 in VLAN 10, both up.
abbrev with_ports : SoftwareAsic
with_ports = (create_port (create_port new_asic (port_numbered 1) 8).0 (port_numbered 2) 8).0

abbrev ports_up : SoftwareAsic
ports_up = (set_port_state (set_port_state with_ports 1 true true).0 2 true true).0

abbrev small_asic : SoftwareAsic
small_asic =
    (add_vlan_member (add_vlan_member (create_vlan ports_up vlan10).0 vlan10 1).0 vlan10 2).0

small_asic-reached : Reaches 4 small_asic
small_asic-reached =
    follows _ _
      (follows _ _
        (follows _ _
          (follows _ _
            (follows _ _
              (follows _ _
                (follows _ _ (starts new_asic new_asic-made)
                  (creates_port (port_numbered 1) 8 (port_numbered-IsPort 1)))
                (creates_port (port_numbered 2) 8 (port_numbered-IsPort 2)))
              (sets_port_state 1 true true))
            (sets_port_state 2 true true))
          (creates_vlan vlan10))
        (adds_vlan_member vlan10 1))
      (adds_vlan_member vlan10 2)

Reaches-IsAsic_example : IsAsic small_asic
Reaches-IsAsic_example = Reaches-IsAsic 4 small_asic small_asic-reached

small_asic-IsAsic : IsAsic small_asic
small_asic-IsAsic = Reaches-IsAsic 4 small_asic small_asic-reached

process_packet_lem_example :
    IsProcessed small_asic 1 (process_packet small_asic 1 (serialize_frame host_frame) 5)
process_packet_lem_example =
    process_packet_lem small_asic small_asic-IsAsic 1 5 (serialize_frame host_frame)

remove_port_lem_example :
    IsAsic (remove_port small_asic 1).0
    × ((remove_port small_asic 1).1
        ≡ some (if has_value (find 1 small_asic.ports) then success else not_found))
    × (find 1 (remove_port small_asic 1).0.ports ≡ none)
    × (find 1 (remove_port small_asic 1).0.queues ≡ none)
    × ((vlan : VlanId)
        → contains_port 1 (members_of (remove_port small_asic 1).0.vlan_members vlan) ≡ false)
remove_port_lem_example = remove_port_lem small_asic small_asic-IsAsic 1

abbrev ready_port : VirtualPort
ready_port = record (port_numbered 1) { admin_enabled = true; link_up = true }

abbrev ready_queue : PacketQueue
ready_queue = record { capacity = 2; values = (9 ∷ []) ∷ []; closed = false }

abbrev ready_asic : SoftwareAsic
ready_asic = record new_asic { ports = (1, ready_port) ∷ []; queues = (1, ready_queue) ∷ [] }

ready_asic-CanTake : CanTake ready_asic 1 ready_port ready_queue (1 ∷ 2 ∷ [])
unfolding find operational equiv
ready_asic-CanTake = record {
  port_found = refl;
  queue_found = refl;
  works = refl;
  frame_fits = omega arith;
  queue_open = refl;
  has_room = omega arith;
  harmless = record {
    port_works = refl;
    has_resources = refl;
    no_losses = refl;
    no_corruption = refl;
  };
}

enqueue_outputs-arrives_example :
    let (after, result) = enqueue_outputs ready_asic routed (1 ∷ []) (1 ∷ 2 ∷ []) (pos 0) in
    (result
      ≡ some (record {
        disposition = routed;
        drop_reason = no_reason;
        output_ports = 1 ∷ [];
        injected_latency = max_latency (pos 0) (pos 0);
      }))
    × (find 1 after.queues
        ≡ some (record { capacity = 2; values = (9 ∷ []) ∷ (1 ∷ 2 ∷ []) ∷ []; closed = false }))
    × (after.statistics ≡ increment (increment no_traffic egress_packets 1) egress_bytes 2)
enqueue_outputs-arrives_example =
    enqueue_outputs-arrives ready_asic 1 ready_port ready_queue (1 ∷ 2 ∷ []) ready_asic-CanTake
      routed (pos 0)
