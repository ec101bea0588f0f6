-- ===== src/Asic/SoftwareAsic/Delivery.antt =====
-- What the loop of enqueue_outputs keeps: a well-formed switch, and output ports that work and
-- were asked for.
use hzl_silicon_switch_lab.Base.{
  ℕ, ◌≡◌, refl, true, List, [], ◌∷◌, ◌++◌, Option, none, some, arith, length, Bool-cases, inl, inr,
  nat_order, ◌∙◌, sym, ap, ltb, ==_refl,
}
use hzl_silicon_switch_lab.Base.Map.{find, assign}
use hzl_silicon_switch_lab.Switching.VirtualPort.{VirtualPort, operational, transmit}
use hzl_silicon_switch_lab.Switching.Forwarding.{contains_port}
use hzl_silicon_switch_lab.Switching.Forwarding.Outputs.{contains_port-append}
use hzl_silicon_switch_lab.Asic.BoundedQueue.{
  QueueEnqueueResult, enqueued, full_queue, closed_queue, try_enqueue,
}
use hzl_silicon_switch_lab.Asic.FaultInjector.{FaultInjectionResult, injected, lost, process}
use hzl_silicon_switch_lab.Asic.SoftwareAsic.{SoftwareAsic, PacketQueue}
use hzl_silicon_switch_lab.Asic.SoftwareAsic.PacketPath.{is_operational, count, count_if}
use hzl_silicon_switch_lab.Asic.SoftwareAsic.Egress.{
  Egress, transmit_at, put_queue, queued, sized, faulted, offered, offer, egress_loop,
}
use hzl_silicon_switch_lab.Asic.SoftwareAsic.Invariant.{
  IsAsic, QueueFits, assign_port-IsAsic, assign_queue-IsAsic,
}
use hzl_silicon_switch_lab.Asic.SoftwareAsic.Ports.{queue_at}
use hzl_silicon_switch_lab.Asic.SoftwareAsic.Movement.{
  Moved, Moved-trans, assign-SamePorts, transmit-Keeps, try_enqueue-QueueFits,
}

module _ (start : SoftwareAsic) (requested : List ℕ) where
  -- The output ports so far work and were asked for.
  abbrev pub AreDelivered : List ℕ → Type 0
  AreDelivered outputs =
      (p : ℕ)
      → contains_port p outputs ≡ true
      → (is_operational (find p start.ports) ≡ true) × (contains_port p requested ≡ true)

  abbrev pub IsEgress : SoftwareAsic → List ℕ → Type 0
  IsEgress asic outputs = IsAsic asic × Moved start asic × AreDelivered outputs

  transmit_at-IsAsic :
      (asic : SoftwareAsic) (id : ℕ) (port : VirtualPort) (size : ℕ)
      → IsAsic asic
      → Moved start asic
      → find id asic.ports ≡ some port
      → IsAsic (transmit_at asic id port size) × Moved start (transmit_at asic id port size)
  unfolding transmit_at
  transmit_at-IsAsic asic id port size v m e =
      let (k, up) = transmit-Keeps port size in
      (
        assign_port-IsAsic asic v id port (transmit port size).0 e k,
        Moved-trans start asic (record asic { ports = assign id (transmit port size).0 asic.ports })
            m (assign-SamePorts asic.ports id port (transmit port size).0 e k up, refl),
      )

  put_queue-IsAsic :
      (asic : SoftwareAsic) (id : ℕ) (old queue : PacketQueue)
      → IsAsic asic
      → find id asic.queues ≡ some old
      → QueueFits id (some queue)
      → IsAsic (put_queue asic id queue)
  unfolding put_queue
  put_queue-IsAsic asic id old queue v e fits = assign_queue-IsAsic asic v id queue (rw e refl) fits

  appended-AreDelivered :
      (outputs : List ℕ) (id : ℕ)
      → AreDelivered outputs
      → is_operational (find id start.ports) ≡ true
      → contains_port id requested ≡ true
      → AreDelivered (outputs ++ (id ∷ []))
  unfolding contains_port
  appended-AreDelivered outputs id d up asked p c = elim (Bool-cases (contains_port p outputs)) [
    | inl before ↦ d p before
    | inr after ↦
        let same : p ≡ id = ground (arith, contains_port-append p outputs (id ∷ []), c, after) in
        rw same (up, asked)
  ]

  module _ (id : ℕ) (port : VirtualPort) (queue : PacketQueue)
      (asked : contains_port id requested ≡ true)
      (up : is_operational (find id start.ports) ≡ true) where
    -- The port and its queue are those of the ASIC so far.
    abbrev Holds : SoftwareAsic → Type 0
    Holds asic = (find id asic.ports ≡ some port) × (find id asic.queues ≡ some queue)

    queued-IsEgress :
        (state : Egress) (size : ℕ) (after : PacketQueue) (result : QueueEnqueueResult)
        → IsEgress state.asic state.outputs
        → Holds state.asic
        → QueueFits id (some after)
        → IsEgress
            (queued state id port size (after, result)).asic
            (queued state id port size (after, result)).outputs
    unfolding queued count put_queue
    queued-IsEgress state size after full_queue (v, m, d) (e, f) fits =
        (put_queue-IsAsic state.asic id queue after v f fits, m, d)
    queued-IsEgress state size after closed_queue (v, m, d) (e, f) fits =
        (put_queue-IsAsic state.asic id queue after v f fits, m, d)
    queued-IsEgress state size after enqueued (v, m, d) (e, f) fits =
        let put = put_queue-IsAsic state.asic id queue after v f fits in
        let (w, moved) = transmit_at-IsAsic (put_queue state.asic id after) id port size put m e in
        (
          unfold transmit_at in w,
          unfold transmit_at in moved,
          appended-AreDelivered state.outputs id d up asked,
        )

    sized-IsEgress :
        (state : Egress) (bytes : List ℕ)
        → IsEgress state.asic state.outputs
        → Holds state.asic
        → IsEgress (sized state id port queue bytes).asic (sized state id port queue bytes).outputs
    unfolding sized
    sized-IsEgress state bytes (v, m, d) (e, f) =
        let (after, result) = try_enqueue queue bytes in
        elim (Bool-cases (ltb port.mtu (length bytes))) [
          | inl large ↦
              let (w, moved) = transmit_at-IsAsic state.asic id port (length bytes) v m e in
              rw large (w, moved, d)
          | inr fits ↦ rw fits (
              queued-IsEgress state (length bytes) after result (v, m, d) (e, f)
                (try_enqueue-QueueFits id queue bytes (queue_at state.asic v id queue f)))
        ]

    faulted-IsEgress :
        (state : Egress) (fault : FaultInjectionResult)
        → IsEgress state.asic state.outputs
        → Holds state.asic
        → IsEgress
            (faulted state id port queue fault).asic
            (faulted state id port queue fault).outputs
    unfolding faulted count count_if
    faulted-IsEgress state (lost reason) h k = h
    faulted-IsEgress state (injected packet) h k = elim (Bool-cases packet.corrupted) [
      | inl corrupted ↦ rw corrupted (sized-IsEgress _ packet.bytes h k)
      | inr intact ↦ rw intact (sized-IsEgress _ packet.bytes h k)
    ]

  offered-IsEgress :
      (state : Egress) (id : ℕ) (frame : List ℕ) (port : Option VirtualPort)
      (queue : Option PacketQueue)
      → contains_port id requested ≡ true
      → find id state.asic.ports ≡ port
      → find id state.asic.queues ≡ queue
      → IsEgress state.asic state.outputs
      → IsEgress
          (offered state id frame port queue).asic
          (offered state id frame port queue).outputs
  unfolding offered
  offered-IsEgress state id frame none queue asked e f h = h
  offered-IsEgress state id frame (some port) none asked e f h = h
  offered-IsEgress state id frame (some port) (some queue) asked e f (v, m, d) =
      let (injector, fault) = process state.asic.fault_injector id frame in
      elim (Bool-cases (operational port)) [
        | inr down ↦ rw down (v, m, d)
        | inl up ↦
            let at_start : is_operational (find id start.ports) ≡ true =
              sym (m.0.0 id) ∙ ap is_operational e ∙ unfold is_operational in up in
            rw up (
              faulted-IsEgress id port queue asked at_start
                (record state { asic = record state.asic { fault_injector = injector } }) fault
                (v, m, d) (e, f))
      ]

  -- The loop over ports that were all asked for.
  pub egress_loop-IsEgress :
      (state : Egress) (ports frame : List ℕ)
      → ((p : ℕ) → contains_port p ports ≡ true → contains_port p requested ≡ true)
      → IsEgress state.asic state.outputs
      → IsEgress (egress_loop state ports frame).asic (egress_loop state ports frame).outputs
  unfolding egress_loop contains_port
  egress_loop-IsEgress state [] frame asked h = h
  egress_loop-IsEgress state (id ∷ ports) frame asked h =
      egress_loop-IsEgress (offer state id frame) ports frame (λ p c. asked p (ground (arith, c)))
        (unfold offer in
          offered-IsEgress state id frame (find id state.asic.ports) (find id state.asic.queues)
            (asked id (ground (arith, ==_refl id))) refl refl h)
