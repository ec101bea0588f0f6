-- ===== src/Switching/Pipeline/Processing.antt =====
-- What the pipeline does with a frame, from its arrival to the decision.
use mathlib.Core.Path.{subst}
use hzl_silicon_switch_lab.Base.{ℕ, ◌≡◌, refl, ap, List, Option, none, some, sym, some_inj}
use hzl_silicon_switch_lab.Network.Vlan.{vlan_order}
use hzl_silicon_switch_lab.Network.EthernetFrame.{EthernetFrame}
use hzl_silicon_switch_lab.Switching.VlanPort.{VlanPortConfig, IsConfig}
use hzl_silicon_switch_lab.Switching.VlanPort.Ingress.{
  VlanIngressResult, accepted_ingress, dropped_ingress, undefined_ingress, classify_vlan_ingress,
  classify_vlan_ingress_lem, IngressSpec,
}
use hzl_silicon_switch_lab.Switching.MacTable.{MacTable, learn}
use hzl_silicon_switch_lab.Switching.MacTable.Expiry.{IsTable, learn-IsTable}
use hzl_silicon_switch_lab.Switching.Forwarding.Outputs.{AreOutputs}
use hzl_silicon_switch_lab.Switching.Pipeline.{
  PipelineDecision, drop_decision, map_vlan_drop, RouterInterfaces, process_classified,
  process_l2_l3_ingress,
}
use hzl_silicon_switch_lab.Switching.Pipeline.Decision.{
  Handled, Blocked, process_learned_lem, process_learned-Blocked, Handled-AreOutputs, no-AreOutputs,
}

module _ (frame : EthernetFrame) (ingress_port : ℕ) (port_config : VlanPortConfig)
    (vlan_ports : List ℕ) (mac_table : MacTable) (router_interfaces : RouterInterfaces)
    (now : ℕ) where
  -- A frame that the port's VLAN configuration drops changes nothing; any other is learned from and
  -- then handled in its VLAN.
  abbrev pub Processed : VlanIngressResult → MacTable × Option PipelineDecision → Type 0
  Processed undefined_ingress result = ⊥
  Processed (dropped_ingress reason) result =
      result ≡ (mac_table, some (drop_decision none (map_vlan_drop reason)))
  Processed (accepted_ingress vlan) (table, decision) =
      let (learned, learning) = learn mac_table vlan frame.source ingress_port now in
      (table ≡ learned)
      × Handled frame ingress_port vlan_ports learned learning router_interfaces vlan decision
      × Blocked frame ingress_port vlan_ports learned learning router_interfaces vlan decision

  process_classified_lem :
      (c : VlanIngressResult)
      → IngressSpec frame port_config c
      → Processed c
          (process_classified frame ingress_port vlan_ports mac_table router_interfaces now c)
  unfolding process_classified
  process_classified_lem undefined_ingress s = s
  process_classified_lem (dropped_ingress reason) s = refl
  process_classified_lem (accepted_ingress vlan) s =
      let (learned, learning) = learn mac_table vlan frame.source ingress_port now in
      (
        refl,
        process_learned_lem frame ingress_port vlan_ports learned learning router_interfaces vlan
            learning refl,
        process_learned-Blocked frame ingress_port vlan_ports learned learning router_interfaces
            vlan,
      )

  -- With a port configuration that its factories made, the pipeline always returns a decision; a
  -- frame that the configuration drops leaves the MAC table as it was and is dropped for the reason
  -- of the configuration; any other frame is learned from, and is dropped when the learning was
  -- rejected or met a static entry of another port, routed (IPv4), delivered to the control plane
  -- (ARP) or dropped (any other EtherType) when its destination is the address of the router
  -- interface of its VLAN, and otherwise has the action, the output ports and the drop reason of
  -- what decide_l2_forwarding returns on the learned table. Only a dropped frame has a drop reason.
  pub process_l2_l3_ingress_lem :
      IsConfig port_config
      → Processed (classify_vlan_ingress frame port_config) (
          process_l2_l3_ingress frame ingress_port port_config vlan_ports mac_table
            router_interfaces now)
  unfolding process_l2_l3_ingress
  process_l2_l3_ingress_lem v =
      process_classified_lem (classify_vlan_ingress frame port_config)
        (classify_vlan_ingress_lem frame port_config v)

  Processed-AreOutputs :
      (c : VlanIngressResult) (table : MacTable) (d : PipelineDecision)
      → Processed c (table, some d)
      → AreOutputs ingress_port vlan_ports d.output_ports
  unfolding drop_decision
  Processed-AreOutputs undefined_ingress table d p = elim p [ ]
  Processed-AreOutputs (dropped_ingress reason) table d p =
      subst (λ d. AreOutputs ingress_port vlan_ports d.output_ports)
        (sym (some_inj (ap (λ r. r.1) p))) (no-AreOutputs ingress_port vlan_ports)
  Processed-AreOutputs (accepted_ingress vlan) table d p =
      let (learned, learning) = learn mac_table vlan frame.source ingress_port now in
      Handled-AreOutputs frame ingress_port vlan_ports learned learning router_interfaces vlan d p.1

  -- When the pipeline decides, with a port configuration that its factories made, the output ports
  -- are ports of the VLAN given, none of them the ingress port and none of them twice.
  pub process_l2_l3_ingress-AreOutputs :
      (decision : PipelineDecision)
      → IsConfig port_config
      → (process_l2_l3_ingress frame ingress_port port_config vlan_ports mac_table router_interfaces
          now).1
        ≡ some decision
      → AreOutputs ingress_port vlan_ports decision.output_ports
  process_l2_l3_ingress-AreOutputs decision v e =
      let result =
        process_l2_l3_ingress frame ingress_port port_config vlan_ports mac_table router_interfaces
          now in
      Processed-AreOutputs (classify_vlan_ingress frame port_config) result.0 decision (
        subst (λ d. Processed (classify_vlan_ingress frame port_config) (result.0, d)) e
          (process_l2_l3_ingress_lem v))

  process_classified-IsTable :
      (c : VlanIngressResult)
      → IsTable mac_table
      → IsTable
          (process_classified frame ingress_port vlan_ports mac_table router_interfaces now c).0
  unfolding process_classified
  process_classified-IsTable undefined_ingress t = t
  process_classified-IsTable (dropped_ingress reason) t = t
  process_classified-IsTable (accepted_ingress vlan) t =
      learn-IsTable mac_table vlan frame.source ingress_port now t

  -- The pipeline keeps a MAC table that is within its capacity and in the order of its keys so.
  pub process_l2_l3_ingress-IsTable :
      IsTable mac_table
      → IsTable
          (process_l2_l3_ingress frame ingress_port port_config vlan_ports mac_table
            router_interfaces now).0
  unfolding process_l2_l3_ingress
  process_l2_l3_ingress-IsTable t =
      process_classified-IsTable (classify_vlan_ingress frame port_config) t
