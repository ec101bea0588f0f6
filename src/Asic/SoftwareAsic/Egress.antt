-- ===== src/Asic/SoftwareAsic/Egress.antt =====
-- asic/software_asic.cpp: enqueue_outputs, which puts a frame into the queues of its output ports.
use hzl_silicon_switch_lab.Base.{
  ℕ, not, List, [], ◌∷◌, ◌++◌, Option, none, some, ltb, if◌then◌else◌, length, nat_order, ℤ, less_ℤ,
}
use hzl_silicon_switch_lab.Base.Map.{find, assign}
use hzl_silicon_switch_lab.Network.Vlan.{vlan_order}
use hzl_silicon_switch_lab.Switching.VirtualPort.{VirtualPort, operational, transmit}
use hzl_silicon_switch_lab.Asic.BoundedQueue.{
  QueueEnqueueResult, enqueued, full_queue, closed_queue, try_enqueue,
}
use hzl_silicon_switch_lab.Asic.FaultInjector.{FaultInjectionResult, injected, lost, process}
use hzl_silicon_switch_lab.Asic.TrafficStatistics.{
  egress_packets, egress_bytes, queue_drops, corrupted_packets,
}
use hzl_silicon_switch_lab.Asic.SoftwareAsic.{SoftwareAsic, PacketQueue}
use hzl_silicon_switch_lab.Asic.SoftwareAsic.PacketPath.{
  PacketDisposition, no_reason, queue_congestion, PacketProcessingResult, Processing,
  dropped_result, count, count_if, fault_counter,
}

-- The state of the loop: the ASIC, the ports that the frame went to, and the latency so far.
pub record Egress : Type 0 where
  pub asic : SoftwareAsic
  pub outputs : List ℕ
  pub latency : ℤ

-- `std::max`
unfoldable pub max_latency : ℤ → ℤ → ℤ
unfolding less_ℤ
max_latency a b = if less_ℤ a b then b else a

-- The port once it has transmitted, in the map.
unfoldable pub transmit_at : SoftwareAsic → ℕ → VirtualPort → ℕ → SoftwareAsic
transmit_at asic id port size = record asic { ports = assign id (transmit port size).0 asic.ports }

-- The queue once it has been offered the packet, in the map.
unfoldable pub put_queue : SoftwareAsic → ℕ → PacketQueue → SoftwareAsic
put_queue asic id queue = record asic { queues = assign id queue asic.queues }

-- The end of the loop's body, by what the queue answers.
unfoldable pub queued : Egress → ℕ → VirtualPort → ℕ → PacketQueue × QueueEnqueueResult → Egress
unfolding transmit_at put_queue count
queued state id port size (queue, full_queue) = record state {
  asic = count (put_queue state.asic id queue) queue_drops 1;
}
queued state id port size (queue, closed_queue) = record state {
  asic = count (put_queue state.asic id queue) queue_drops 1;
}
queued state id port size (queue, enqueued) = record state {
  asic =
      count (count (transmit_at (put_queue state.asic id queue) id port size) egress_packets 1)
        egress_bytes size;
  outputs = state.outputs ++ (id ∷ []);
}

-- The size test of the loop's body.
unfoldable pub sized : Egress → ℕ → VirtualPort → PacketQueue → List ℕ → Egress
unfolding queued
sized state id port queue bytes =
    let size = length bytes in
    if ltb port.mtu size
    then record state { asic = transmit_at state.asic id port size }
    else queued state id port size (try_enqueue queue bytes)

-- The loop's body, by what the fault injector answers.
unfoldable pub faulted : Egress → ℕ → VirtualPort → PacketQueue → FaultInjectionResult → Egress
unfolding sized count_if fault_counter
faulted state id port queue (lost reason) = record state {
  asic = count state.asic (fault_counter reason) 1;
}
faulted state id port queue (injected packet) =
    sized
      (record state {
        asic = count_if packet.corrupted state.asic corrupted_packets;
        latency = max_latency state.latency packet.latency;
      })
      id port queue packet.bytes

-- The loop's body once the port and its queue have been looked up.
unfoldable pub offered : Egress → ℕ → List ℕ → Option VirtualPort → Option PacketQueue → Egress
unfolding faulted
offered state id frame none queue = state
offered state id frame (some port) none = state
offered state id frame (some port) (some queue) =
    let (injector, fault) = process state.asic.fault_injector id frame in
    let after =
      faulted (record state { asic = record state.asic { fault_injector = injector } }) id port
        queue fault in
    if not (operational port) then state else after

-- The loop's body
unfoldable pub offer : Egress → ℕ → List ℕ → Egress
unfolding offered
offer state id frame = offered state id frame (find id state.asic.ports) (find id state.asic.queues)

-- The loop, over the ports that are left.
unfoldable pub egress_loop : Egress → List ℕ → List ℕ → Egress
egress_loop state [] frame = state
egress_loop state (id ∷ requested) frame = egress_loop (offer state id frame) requested frame

-- The end of `enqueue_outputs`.
unfoldable pub egress_result : PacketDisposition → List ℕ → ℤ → PacketProcessingResult
egress_result disposition [] latency = dropped_result queue_congestion latency
egress_result disposition (id ∷ outputs) latency = record {
  disposition = disposition;
  drop_reason = no_reason;
  output_ports = id ∷ outputs;
  injected_latency = latency;
}

-- `SoftwareAsic::enqueue_outputs`
unfoldable pub enqueue_outputs : SoftwareAsic → PacketDisposition → List ℕ → List ℕ → ℤ → Processing
unfolding egress_loop egress_result
enqueue_outputs asic disposition requested frame latency =
    let state =
      egress_loop (record { asic = asic; outputs = []; latency = latency }) requested frame in
    (state.asic, some (egress_result disposition state.outputs state.latency))
