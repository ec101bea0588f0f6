-- ===== src/Asic/SoftwareAsic/Arrival.antt =====
-- A frame that nothing stands against reaches the queue of its output port.
use hzl_silicon_switch_lab.Base.{
  ℕ, ◌+◌, ◌%◌, ◌^◌, ◌≡◌, ◌≤◌, ◌<◌, refl, ap, Bool, true, false, not, ◌&&◌, List, [], ◌∷◌, ◌++◌,
  none, some, arith, length, leb, ltb-false, ◌==◌, nat_order, equiv_refl, ℤ,
}
use hzl_silicon_switch_lab.Base.Map.{find, find-assign}
use hzl_silicon_switch_lab.Switching.VirtualPort.{VirtualPort, operational}
use hzl_silicon_switch_lab.Asic.BoundedQueue.{enqueued, try_enqueue, is_full}
use hzl_silicon_switch_lab.Asic.FaultInjector.{
  FaultInjectionConfig, FaultInjector, injected, process, fault_of, is_nth, is_empty_packet,
}
use hzl_silicon_switch_lab.Asic.TrafficStatistics.{increment, egress_packets, egress_bytes}
use hzl_silicon_switch_lab.Asic.SoftwareAsic.{SoftwareAsic, PacketQueue}
use hzl_silicon_switch_lab.Asic.SoftwareAsic.PacketPath.{
  PacketDisposition, no_reason, count, count_if,
}
use hzl_silicon_switch_lab.Asic.SoftwareAsic.Egress.{
  Egress, max_latency, transmit_at, put_queue, queued, sized, faulted, offered, offer, egress_loop,
  egress_result, enqueue_outputs,
}

-- The injector does no harm at the port.
pub record IsHarmless (config : FaultInjectionConfig) (id : ℕ) : Type 0 where
  pub port_works : find id config.failed_ports ≡ none
  pub has_resources : config.resource_exhausted ≡ false
  pub no_losses : config.drop_every_nth_packet ≡ 0
  pub no_corruption : config.corrupt_every_nth_packet ≡ 0

-- The output port works, the frame fits its MTU, and its queue is open and has room.
pub record CanTake (asic : SoftwareAsic) (id : ℕ) (port : VirtualPort) (queue : PacketQueue)
    (frame : List ℕ) : Type 0 where
  pub port_found : find id asic.ports ≡ some port
  pub queue_found : find id asic.queues ≡ some queue
  pub works : operational port ≡ true
  pub frame_fits : length frame ≤ port.mtu
  pub queue_open : queue.closed ≡ false
  pub has_room : length queue.values < queue.capacity
  pub harmless : IsHarmless asic.fault_injector.config id

none_corrupted :
    (b : Bool) (n processed : ℕ) → n ≡ 0 → (b && (not (n == 0) && processed % n == 0)) ≡ false
none_corrupted b n processed e = ground arith

unharmed :
    (injector : FaultInjector) (id : ℕ) (frame : List ℕ)
    → IsHarmless injector.config id
    → (process injector id frame).1
      ≡ injected (record { bytes = frame; latency = injector.config.latency; corrupted = false })
unfolding process fault_of is_nth
unharmed injector id frame h =
    let processed = (injector.processed_packets + 1) % 2 ^ 64 in
    let c = injector.config in
    let no_losses : (not (c.drop_every_nth_packet == 0) && processed % c.drop_every_nth_packet == 0)
        ≡ false =
      ground (arith, h.no_losses) in
    let intact =
      none_corrupted (not (is_empty_packet frame)) c.corrupt_every_nth_packet processed
        h.no_corruption in
    simp (h.port_works, h.has_resources, no_losses, intact) refl

module _ (asic : SoftwareAsic) (id : ℕ) (port : VirtualPort) (queue : PacketQueue) (frame : List ℕ)
    (v : CanTake asic id port queue frame) where
  -- The queue with the frame behind what it had.
  abbrev pub filled : PacketQueue
  filled = record queue { values = queue.values ++ (frame ∷ []) }

  accepted : try_enqueue queue frame ≡ (filled, enqueued)
  unfolding try_enqueue is_full
  accepted =
      let room : leb queue.capacity (length queue.values) ≡ false = ground (arith, v.has_room) in
      simp (v.queue_open, room) refl

  sized_lem :
      (state : Egress)
      → sized state id port queue frame ≡ queued state id port (length frame) (filled, enqueued)
  unfolding sized
  sized_lem state =
      rw (ltb-false port.mtu (length frame) v.frame_fits)
        (ap (queued state id port (length frame)) accepted)

  -- The state after the injector has let the frame pass.
  abbrev passed : ℤ → Egress
  passed latency = record {
    asic = record asic { fault_injector = (process asic.fault_injector id frame).0 };
    outputs = [];
    latency = max_latency latency asic.fault_injector.config.latency;
  }

  offer_lem :
      (latency : ℤ)
      → offer (record { asic = asic; outputs = []; latency = latency }) id frame
        ≡ queued (passed latency) id port (length frame) (filled, enqueued)
  unfolding offer offered faulted count_if
  offer_lem latency =
      rw (v.port_found, v.queue_found, v.works, unharmed asic.fault_injector id frame v.harmless)
        (sized_lem (passed latency))

  -- When an output port is operational, its queue open and with room, the frame within its MTU, and
  -- no fault set for the port, the frame is put at the end of the queue of the port, the result
  -- names the port and the greater of the two latencies, and just the two egress counters move.
  pub enqueue_outputs-arrives :
      (disposition : PacketDisposition) (latency : ℤ)
      → let (after, result) = enqueue_outputs asic disposition (id ∷ []) frame latency in
        (result
          ≡ some (record {
            disposition = disposition;
            drop_reason = no_reason;
            output_ports = id ∷ [];
            injected_latency = max_latency latency asic.fault_injector.config.latency;
          }))
        × (find id after.queues ≡ some filled)
        × (after.statistics
            ≡ increment (increment asic.statistics egress_packets 1) egress_bytes (length frame))
  unfolding enqueue_outputs egress_loop egress_result
  enqueue_outputs-arrives disposition latency = rw (offer_lem latency) (
      unfold queued count put_queue transmit_at in
      (refl, rw (find-assign id id filled asic.queues, equiv_refl id, v.queue_found) refl, refl))
