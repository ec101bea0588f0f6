-- ===== src/Asic/SoftwareAsic/Processing.antt =====
-- process_packet in a well-formed switch: from the arrival of the bytes to the result.
use hzl_silicon_switch_lab.Base.{
  ℕ, ◌≡◌, refl, true, List, [], Option, none, some, has_value, value_or, Bool-cases, inl, inr,
  nat_order, ◌∙◌, sym, ap, ℤ, pos, length,
}
use mathlib.Core.Path.{subst}
use hzl_silicon_switch_lab.Base.Map.{Map, find, assign}
use hzl_silicon_switch_lab.Network.Vlan.{VlanId, vlan_order}
use hzl_silicon_switch_lab.Network.EthernetFrame.{EthernetFrame, parse_frame}
use hzl_silicon_switch_lab.Switching.VlanPort.{VlanPortConfig, IsConfig, allows}
use hzl_silicon_switch_lab.Switching.VirtualPort.{VirtualPort, operational, receive}
use hzl_silicon_switch_lab.Switching.Pipeline.{process_l2_l3_ingress}
use hzl_silicon_switch_lab.Switching.Pipeline.Processing.{process_l2_l3_ingress-IsTable}
use hzl_silicon_switch_lab.Asic.FaultInjector.{
  FaultDropReason, failed_port, deterministic_packet_loss, FaultInjectionResult, injected, lost,
}
use hzl_silicon_switch_lab.Asic.SoftwareAsic.{SoftwareAsic}
use hzl_silicon_switch_lab.Asic.SoftwareAsic.PacketPath.{
  dropped_result, count, count_if, fault_reason, members_vlan, first_vlan,
}
use hzl_silicon_switch_lab.Asic.SoftwareAsic.Ingress.{
  decided, in_vlan, parsed, arrived, accepted_at, at_port, process_packet,
}
use hzl_silicon_switch_lab.Asic.SoftwareAsic.Members.{members_of}
use hzl_silicon_switch_lab.Asic.SoftwareAsic.Invariant.{
  IsAsic, IsPort, port_allows, port_at, assign_port-IsAsic, with_table-IsAsic, Keeps-IsPort,
}
use hzl_silicon_switch_lab.Asic.SoftwareAsic.Movement.{
  Moved, Moved-refl, assign-SamePorts, receive-Keeps,
}
use hzl_silicon_switch_lab.Asic.SoftwareAsic.Isolation.{
  IsProcessed, dropped-IsProcessed, has-members_vlan,
}
use hzl_silicon_switch_lab.Asic.SoftwareAsic.Decisions.{decided-IsProcessed}

module _ (asic : SoftwareAsic) (v : IsAsic asic) (ingress now : ℕ) where
  in_vlan-IsProcessed :
      (after : SoftwareAsic) (latency : ℤ) (frame : EthernetFrame) (config : VlanPortConfig)
      (vlan : Option VlanId)
      → members_vlan config frame ≡ vlan
      → IsAsic after
      → Moved asic after
      → ((w : VlanId) → allows config w ≡ true → port_allows w (find ingress asic.ports) ≡ true)
      → IsConfig config
      → has_value (first_vlan config.allowed_vlans) ≡ true
      → IsProcessed asic ingress (in_vlan after ingress now latency frame config vlan)
  unfolding in_vlan members_of
  in_vlan-IsProcessed after latency frame config none e w m here fits some_vlan =
      absurd (cc (rw e at (has-members_vlan frame config fits some_vlan)))
  in_vlan-IsProcessed after latency frame config (some vlan) e w m here fits some_vlan =
      let run = λ (members : Map VlanId (List ℕ)).
        process_l2_l3_ingress frame ingress config (value_or (find vlan members) []) after.mac_table
          after.router_interfaces now in
      subst
        (λ members. IsProcessed asic ingress (
          decided (record after { mac_table = (run members).0 }) now latency frame (run members).1))
        (sym m.1)
        (decided-IsProcessed asic v ingress now frame config here vlan e fits some_vlan
          after.mac_table after.router_interfaces
          (record after { mac_table = (run asic.vlan_members).0 }) latency (run asic.vlan_members)
          refl
          (with_table-IsAsic after w (run asic.vlan_members).0 (
            process_l2_l3_ingress-IsTable frame ingress config (members_of asic.vlan_members vlan)
              after.mac_table after.router_interfaces now w.is_table))
          m)

  received-allows :
      (port : VirtualPort) (size : ℕ) (w : VlanId)
      → find ingress asic.ports ≡ some port
      → allows (receive port size).0.vlan_config w ≡ true
      → port_allows w (find ingress asic.ports) ≡ true
  unfolding port_allows
  received-allows port size w e h =
      rw e (ap (λ c. allows c w) (sym (receive-Keeps port size).0.config) ∙ h)

  parsed-IsProcessed :
      (after : SoftwareAsic) (port : VirtualPort) (latency : ℤ) (frame : Option EthernetFrame)
      → IsAsic after
      → after.ports ≡ asic.ports
      → after.vlan_members ≡ asic.vlan_members
      → find ingress asic.ports ≡ some port
      → IsProcessed asic ingress (parsed after ingress port now latency frame)
  unfolding parsed count dropped_result
  parsed-IsProcessed after port latency none w same members e =
      (w, (rw same (Moved-refl asic).0, members), (refl, λ e. cc))
  parsed-IsProcessed after port latency (some frame) w same members e =
      let size = length frame.payload in
      let (moved_on, received) = receive port size in
      let (k, up) = receive-Keeps port size in
      let at_after : find ingress after.ports ≡ some port = rw same e in
      let updated : SoftwareAsic = record after { ports = assign ingress moved_on after.ports } in
      let u : IsAsic updated = assign_port-IsAsic after w ingress port moved_on at_after k in
      let m : Moved asic updated =
        (rw same (assign-SamePorts asic.ports ingress port moved_on e k up), members) in
      let good : IsPort moved_on = Keeps-IsPort port moved_on k (port_at asic v ingress port e).1 in
      elim (Bool-cases received) [
        | inr refused ↦ rw refused (u, m, (refl, λ e. cc))
        | inl accepted ↦ rw accepted (
            in_vlan-IsProcessed updated latency frame moved_on.vlan_config
              (members_vlan moved_on.vlan_config frame) refl u m
              (λ vlan h. received-allows port size vlan e h) good.config good.some_vlan)
      ]

  arrived-IsProcessed :
      (after : SoftwareAsic) (port : VirtualPort) (fault : FaultInjectionResult)
      → IsAsic after
      → after.ports ≡ asic.ports
      → after.vlan_members ≡ asic.vlan_members
      → find ingress asic.ports ≡ some port
      → IsProcessed asic ingress (arrived after ingress port now fault)
  unfolding arrived count count_if dropped_result fault_reason
  arrived-IsProcessed after port (lost failed_port) w same members e =
      (w, (rw same (Moved-refl asic).0, members), (refl, λ e. cc))
  arrived-IsProcessed after port (lost deterministic_packet_loss) w same members e =
      (w, (rw same (Moved-refl asic).0, members), (refl, λ e. cc))
  arrived-IsProcessed after port (lost FaultDropReason.resource_exhaustion) w same members e =
      (w, (rw same (Moved-refl asic).0, members), (refl, λ e. cc))
  arrived-IsProcessed after port (injected packet) w same members e =
      elim (Bool-cases packet.corrupted) [
        | inl corrupted ↦
            rw corrupted
              (parsed-IsProcessed _ port packet.latency (parse_frame packet.bytes) w same members e)
        | inr intact ↦ rw intact (
            parsed-IsProcessed after port packet.latency (parse_frame packet.bytes) w same members
              e)
      ]

  at_port-IsProcessed :
      (bytes : List ℕ) (port : Option VirtualPort)
      → find ingress asic.ports ≡ port
      → IsProcessed asic ingress (at_port asic ingress bytes now port)
  unfolding at_port accepted_at count
  at_port-IsProcessed bytes none e =
      dropped-IsProcessed asic ingress asic _ (pos 0) v (Moved-refl asic) (λ e. cc)
  at_port-IsProcessed bytes (some port) e = elim (Bool-cases (operational port)) [
    | inr down ↦
        rw down (dropped-IsProcessed asic ingress asic _ (pos 0) v (Moved-refl asic) (λ e. cc))
    | inl up ↦ rw up (arrived-IsProcessed _ port _ v refl refl e)
  ]

  -- In a well-formed ASIC, whatever bytes arrive at whatever port, process_packet returns a result
  -- and reaches no undefined step (no dereference of an empty optional or of an end iterator); the
  -- ASIC stays well-formed, and its ports keep their states, their VLANs and their memberships. A
  -- dropped packet has a reason and no output port, and one for the control plane has no output
  -- port; otherwise there are output ports, all of them operational. The output ports of a packet
  -- that is switched or flooded are members of one VLAN, which they and the ingress port allow, and
  -- the ingress port is none of them.
  pub process_packet_lem :
      (bytes : List ℕ) → IsProcessed asic ingress (process_packet asic ingress bytes now)
  unfolding process_packet
  process_packet_lem bytes = at_port-IsProcessed bytes (find ingress asic.ports) refl
