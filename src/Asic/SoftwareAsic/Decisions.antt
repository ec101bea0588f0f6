-- ===== src/Asic/SoftwareAsic/Decisions.antt =====
-- process_packet at the pipeline: the decision, and what it needs to be carried out.
use hzl_silicon_switch_lab.Base.{
  ℕ, ◌≡◌, refl, true, List, Option, none, some, has_value, nat_order, ◌∙◌, sym, ap, ℤ, some_inj,
}
use mathlib.Core.Path.{subst}
use hzl_silicon_switch_lab.Base.Map.{find}
use hzl_silicon_switch_lab.Network.Vlan.{VlanId, vlan_order}
use hzl_silicon_switch_lab.Network.EthernetFrame.{EthernetFrame}
use hzl_silicon_switch_lab.Switching.VlanPort.{VlanPortConfig, IsConfig, allows}
use hzl_silicon_switch_lab.Switching.VlanPort.Ingress.{
  VlanIngressResult, accepted_ingress, dropped_ingress, undefined_ingress, classify_vlan_ingress,
}
use hzl_silicon_switch_lab.Switching.MacTable.{MacTable, MacTableUpdate, learn}
use hzl_silicon_switch_lab.Switching.Forwarding.Outputs.{AreOutputs}
use hzl_silicon_switch_lab.Switching.Pipeline.{
  PipelineAction, PipelineDropReason, PipelineDecision, process_l2_l3_ingress, drop_decision,
  RouterInterfaces,
}
use hzl_silicon_switch_lab.Switching.Pipeline.Decision.{ActionSpec, DropReasonSpec}
use hzl_silicon_switch_lab.Switching.Pipeline.Processing.{
  Processed, process_l2_l3_ingress_lem, process_l2_l3_ingress-AreOutputs,
}
use hzl_silicon_switch_lab.Asic.SoftwareAsic.{SoftwareAsic}
use hzl_silicon_switch_lab.Asic.SoftwareAsic.PacketPath.{members_vlan, first_vlan}
use hzl_silicon_switch_lab.Asic.SoftwareAsic.Ingress.{decided}
use hzl_silicon_switch_lab.Asic.SoftwareAsic.Members.{members_of}
use hzl_silicon_switch_lab.Asic.SoftwareAsic.Invariant.{IsAsic, port_allows}
use hzl_silicon_switch_lab.Asic.SoftwareAsic.Movement.{Moved}
use hzl_silicon_switch_lab.Asic.SoftwareAsic.Isolation.{
  IsProcessed, IsIsolated, members_vlan-accepted,
}
use hzl_silicon_switch_lab.Asic.SoftwareAsic.Actions.{ActionFits, act-IsProcessed}

-- A drop names its reason.
drop_named :
    (frame : EthernetFrame) (ingress : ℕ) (vlan_ports : List ℕ) (learned : MacTable)
    (learning : MacTableUpdate) (interfaces : RouterInterfaces) (vlan : VlanId)
    (why : Option PipelineDropReason)
    → DropReasonSpec frame ingress vlan_ports learned learning interfaces vlan why
    → has_value why ≡ true
drop_named frame ingress vlan_ports learned learning interfaces vlan none s = elim s [ ]
drop_named frame ingress vlan_ports learned learning interfaces vlan (some why) s = refl

action-ActionFits :
    (asic : SoftwareAsic) (frame : EthernetFrame) (ingress : ℕ) (vlan_ports : List ℕ)
    (learned : MacTable) (learning : MacTableUpdate) (interfaces : RouterInterfaces) (vlan : VlanId)
    (action : PipelineAction) (outputs : List ℕ) (why : Option PipelineDropReason)
    → ActionSpec frame ingress vlan_ports learned learning interfaces vlan action outputs why
    → IsIsolated asic ingress outputs
    → ActionFits asic ingress action outputs why
action-ActionFits asic frame ingress vlan_ports learned learning interfaces vlan PipelineAction.drop
      outputs why s i =
    drop_named frame ingress vlan_ports learned learning interfaces vlan why s.1
action-ActionFits asic frame ingress vlan_ports learned learning interfaces vlan
      PipelineAction.deliver_to_control_plane outputs why s i =
    tt
action-ActionFits asic frame ingress vlan_ports learned learning interfaces vlan
      PipelineAction.route_ipv4 outputs why s i =
    tt
action-ActionFits asic frame ingress vlan_ports learned learning interfaces vlan
      PipelineAction.flood outputs why s i =
    i
action-ActionFits asic frame ingress vlan_ports learned learning interfaces vlan
      PipelineAction.switch_known_unicast outputs why s i =
    i

module _ (asic : SoftwareAsic) (v : IsAsic asic) (ingress now : ℕ) (frame : EthernetFrame)
    (config : VlanPortConfig)
    (here : (vlan : VlanId)
      → allows config vlan ≡ true
      → port_allows vlan (find ingress asic.ports) ≡ true)
    (lookup_vlan : VlanId) (looked_up : members_vlan config frame ≡ some lookup_vlan)
    (fits : IsConfig config) (some_vlan : has_value (first_vlan config.allowed_vlans) ≡ true)
    (mac_table : MacTable) (interfaces : RouterInterfaces) where
  abbrev vlan_ports : List ℕ
  vlan_ports = members_of asic.vlan_members lookup_vlan

  outputs-IsIsolated :
      (vlan : VlanId) (outputs : List ℕ)
      → classify_vlan_ingress frame config ≡ accepted_ingress vlan
      → AreOutputs ingress vlan_ports outputs
      → IsIsolated asic ingress outputs
  outputs-IsIsolated vlan outputs e (once, away, inside) =
      let (found, allowed) = members_vlan-accepted frame config vlan e fits some_vlan in
      let same : vlan ≡ lookup_vlan = some_inj (sym found ∙ looked_up) in
      (
        lookup_vlan,
        here lookup_vlan (subst (λ x. allows config x ≡ true) same allowed),
        away,
        λ p c. (inside p c, v.members_allowed lookup_vlan p (inside p c)),
      )

  decision-ActionFits :
      (c : VlanIngressResult) (table : MacTable) (d : PipelineDecision)
      → classify_vlan_ingress frame config ≡ c
      → Processed frame ingress config vlan_ports mac_table interfaces now c (table, some d)
      → AreOutputs ingress vlan_ports d.output_ports
      → ActionFits asic ingress d.action d.output_ports d.drop_reason
  unfolding drop_decision
  decision-ActionFits undefined_ingress table d e p o = elim p [ ]
  decision-ActionFits (dropped_ingress why) table d e p o =
      subst (λ d. ActionFits asic ingress d.action d.output_ports d.drop_reason)
        (sym (some_inj (ap (λ r. r.1) p))) refl
  decision-ActionFits (accepted_ingress vlan) table d e p o =
      let (learned, learning) = learn mac_table vlan frame.source ingress now in
      action-ActionFits asic frame ingress vlan_ports learned learning interfaces vlan d.action
        d.output_ports d.drop_reason p.1.1 (outputs-IsIsolated vlan d.output_ports e o)

  pub decided-IsProcessed :
      (after : SoftwareAsic) (latency : ℤ) (result : MacTable × Option PipelineDecision)
      → process_l2_l3_ingress frame ingress config vlan_ports mac_table interfaces now ≡ result
      → IsAsic after
      → Moved asic after
      → IsProcessed asic ingress (decided after now latency frame result.1)
  unfolding decided
  decided-IsProcessed after latency (table, none) e w m =
      elim (undecided (classify_vlan_ingress frame config) (
        subst
          (Processed frame ingress config vlan_ports mac_table interfaces now
            (classify_vlan_ingress frame config))
          e
          (process_l2_l3_ingress_lem frame ingress config vlan_ports mac_table interfaces now
            fits))) [ ]
    where
      undecided :
          (c : VlanIngressResult)
          → Processed frame ingress config vlan_ports mac_table interfaces now c (table, none)
          → ⊥
      undecided undefined_ingress p = p
      undecided (dropped_ingress why) p = cc (ap (λ r. r.1) p)
      undecided (accepted_ingress vlan) p = p.1
  decided-IsProcessed after latency (table, some d) e w m =
      act-IsProcessed asic ingress now latency after w m frame d.action d (
        decision-ActionFits (classify_vlan_ingress frame config) table d refl
          (subst
            (Processed frame ingress config vlan_ports mac_table interfaces now
              (classify_vlan_ingress frame config))
            e
            (process_l2_l3_ingress_lem frame ingress config vlan_ports mac_table interfaces now
              fits))
          (process_l2_l3_ingress-AreOutputs frame ingress config vlan_ports mac_table interfaces now
            d fits (ap (λ r. r.1) e)))
