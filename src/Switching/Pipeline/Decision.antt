-- ===== src/Switching/Pipeline/Decision.antt =====
-- What each decision of the pipeline says of the frame, the VLAN configuration and the MAC table.
use mathlib.Core.Path.{subst}
use hzl_silicon_switch_lab.Base.{
  ℕ, ◌≡◌, ◌≢◌, inl, inr, refl, ap, true, false, List, [], Option, none, some, ◌==◌, Bool-cases, sym,
  arith, some_inj,
}
use hzl_silicon_switch_lab.Base.Map.{find}
use hzl_silicon_switch_lab.Network.Vlan.{VlanId, vlan_order}
use hzl_silicon_switch_lab.Network.MacAddress.{MacAddress, mac_eq_iff}
use hzl_silicon_switch_lab.Network.EthernetFrame.{EthernetFrame, ether_type_ipv4, ether_type_arp}
use hzl_silicon_switch_lab.Switching.MacTable.{
  MacTable, MacTableUpdate, inserted, refreshed, moved, table_full, rejected, static_conflict,
  lookup,
}
use hzl_silicon_switch_lab.Switching.Forwarding.{
  L2ForwardingAction, known_unicast, unknown_unicast_flood, broadcast_flood, multicast_flood,
  L2ForwardingDropReason, decide_l2_forwarding, contains_port,
}
use hzl_silicon_switch_lab.Switching.Forwarding.Outputs.{
  AreOutputs, DecisionSpec, decide_l2_forwarding_lem, Decided-AreOutputs,
}
use hzl_silicon_switch_lab.Switching.Pipeline.{
  PipelineAction, switch_known_unicast, flood, route_ipv4, deliver_to_control_plane, drop,
  PipelineDropReason, tagged_frame_on_access_port, untagged_frame_without_native_vlan,
  vlan_not_allowed, invalid_source_mac, static_mac_conflict, same_ingress_port,
  destination_not_in_vlan, no_eligible_egress_port, unsupported_router_protocol, PipelineDecision,
  accept, drop_decision, map_l2_drop, RouterInterfaces, learning_drop, is_router_address, switched,
  process_destination, process_learned,
}

-- A frame is for the router when its destination is the address of the VLAN's router interface.
abbrev pub IsForRouter : EthernetFrame → RouterInterfaces → VlanId → Type 0
IsForRouter frame router_interfaces vlan = find vlan router_interfaces ≡ some frame.destination

pub no-AreOutputs : (ingress_port : ℕ) (vlan_ports : List ℕ) → AreOutputs ingress_port vlan_ports []
unfolding contains_port
no-AreOutputs ingress_port vlan_ports = (tt, refl, λ p h. grind arith)

module _ (frame : EthernetFrame) (ingress_port : ℕ) (vlan_ports : List ℕ) (learned : MacTable)
    (learning : MacTableUpdate) (router_interfaces : RouterInterfaces) (vlan : VlanId) where
  -- The forwarding decision for the frame, with the table as it stands after learning: what it is,
  -- and what it says.
  abbrev pub Switches : L2ForwardingAction → List ℕ → Option L2ForwardingDropReason → Type 0
  Switches action outputs reason =
      (decide_l2_forwarding frame vlan ingress_port vlan_ports learned
        ≡ record { action = action; output_ports = outputs; drop_reason = reason })
      × DecisionSpec frame.destination ingress_port vlan_ports
          (lookup learned vlan frame.destination) action outputs reason

  -- What each reason to drop a frame of a VLAN says.
  abbrev pub DropReasonSpec : Option PipelineDropReason → Type 0
  DropReasonSpec none = ⊥
  DropReasonSpec (some tagged_frame_on_access_port) = ⊥
  DropReasonSpec (some untagged_frame_without_native_vlan) = ⊥
  DropReasonSpec (some vlan_not_allowed) = ⊥
  DropReasonSpec (some invalid_source_mac) = learning ≡ rejected
  DropReasonSpec (some static_mac_conflict) = learning ≡ static_conflict
  DropReasonSpec (some same_ingress_port) =
      (¬ IsForRouter frame router_interfaces vlan)
      × Switches L2ForwardingAction.drop [] (some L2ForwardingDropReason.same_ingress_port)
  DropReasonSpec (some destination_not_in_vlan) =
      (¬ IsForRouter frame router_interfaces vlan)
      × Switches L2ForwardingAction.drop [] (some L2ForwardingDropReason.destination_not_in_vlan)
  DropReasonSpec (some no_eligible_egress_port) =
      (¬ IsForRouter frame router_interfaces vlan)
      × Switches L2ForwardingAction.drop [] (some L2ForwardingDropReason.no_eligible_egress_port)
  DropReasonSpec (some unsupported_router_protocol) =
      IsForRouter frame router_interfaces vlan
      × (frame.ether_type ≢ ether_type_ipv4)
      × (frame.ether_type ≢ ether_type_arp)

  -- What each action says.
  abbrev pub ActionSpec : PipelineAction → List ℕ → Option PipelineDropReason → Type 0
  ActionSpec switch_known_unicast outputs reason =
      (¬ IsForRouter frame router_interfaces vlan)
      × (reason ≡ none)
      × Switches known_unicast outputs none
  ActionSpec flood outputs reason =
      (¬ IsForRouter frame router_interfaces vlan)
      × (reason ≡ none)
      × ((action : L2ForwardingAction) × (action ≢ known_unicast)
          × (action ≢ L2ForwardingAction.drop)
          × Switches action outputs none)
  ActionSpec route_ipv4 outputs reason =
      IsForRouter frame router_interfaces vlan
      × (frame.ether_type ≡ ether_type_ipv4)
      × (reason ≡ none)
      × (outputs ≡ [])
  ActionSpec deliver_to_control_plane outputs reason =
      IsForRouter frame router_interfaces vlan
      × (frame.ether_type ≡ ether_type_arp)
      × (reason ≡ none)
      × (outputs ≡ [])
  ActionSpec drop outputs reason = (outputs ≡ []) × DropReasonSpec reason

  abbrev pub Handled : Option PipelineDecision → Type 0
  Handled none = ⊥
  Handled (some d) = (d.vlan ≡ some vlan) × ActionSpec d.action d.output_ports d.drop_reason

  switched_drop :
      (reason : L2ForwardingDropReason)
      → ¬ IsForRouter frame router_interfaces vlan
      → Switches L2ForwardingAction.drop [] (some reason)
      → DropReasonSpec (some (map_l2_drop reason))
  unfolding map_l2_drop
  switched_drop L2ForwardingDropReason.same_ingress_port n s = (n, s)
  switched_drop L2ForwardingDropReason.destination_not_in_vlan n s = (n, s)
  switched_drop L2ForwardingDropReason.no_eligible_egress_port n s = (n, s)

  -- A frame that is forwarded has no reason to be dropped.
  no_reason :
      (action : L2ForwardingAction) (outputs : List ℕ) (reason : Option L2ForwardingDropReason)
      → reason ≡ none
      → Switches action outputs reason
      → Switches action outputs none
  no_reason action outputs reason e s = subst (Switches action outputs) e s

  switched_lem :
      (action : L2ForwardingAction) (outputs : List ℕ) (reason : Option L2ForwardingDropReason)
      → ¬ IsForRouter frame router_interfaces vlan
      → Switches action outputs reason
      → Handled (switched vlan action outputs reason)
  unfolding switched accept drop_decision
  switched_lem L2ForwardingAction.drop outputs none n (e, (o, d)) = d
  switched_lem L2ForwardingAction.drop outputs (some reason) n (e, (o, d)) = (
    refl,
    (
      refl,
      switched_drop reason n
          (subst (λ ports. Switches L2ForwardingAction.drop ports (some reason)) o (e, (o, d))),
    ),
  )
  switched_lem known_unicast outputs reason n s =
      (refl, (n, refl, no_reason known_unicast outputs reason s.1.0 s))
  switched_lem unknown_unicast_flood outputs reason n s =
      let forwarded = no_reason unknown_unicast_flood outputs reason s.1.0 s in
      (refl, (n, refl, (unknown_unicast_flood, (λ e. cc), (λ e. cc), forwarded)))
  switched_lem broadcast_flood outputs reason n s =
      let forwarded = no_reason broadcast_flood outputs reason s.1.0 s in
      (refl, (n, refl, (broadcast_flood, (λ e. cc), (λ e. cc), forwarded)))
  switched_lem multicast_flood outputs reason n s =
      let forwarded = no_reason multicast_flood outputs reason s.1.0 s in
      (refl, (n, refl, (multicast_flood, (λ e. cc), (λ e. cc), forwarded)))

  is_router_address-true :
      (router : Option MacAddress)
      → is_router_address frame.destination router ≡ true
      → router ≡ some frame.destination
  unfolding is_router_address
  is_router_address-true none e = cc
  is_router_address-true (some router) e = ap some (sym ((mac_eq_iff frame.destination router).0 e))

  is_router_address-false :
      (router : Option MacAddress)
      → is_router_address frame.destination router ≡ false
      → router ≢ some frame.destination
  unfolding is_router_address
  is_router_address-false none e same = cc
  is_router_address-false (some router) e same =
      ground (arith, e, (mac_eq_iff frame.destination router).1 (sym (some_inj same)))

  process_destination_lem :
      Handled (process_destination frame ingress_port vlan_ports learned router_interfaces vlan)
  unfolding process_destination accept drop_decision
  process_destination_lem =
      elim (Bool-cases (is_router_address frame.destination (find vlan router_interfaces))) [
        | inl r ↦
            let routed = is_router_address-true (find vlan router_interfaces) r in
            rw r (elim (Bool-cases (frame.ether_type == ether_type_ipv4)) [
              | inl i ↦ rw i (refl, (routed, ground (arith, i), refl, refl))
              | inr i ↦ rw i (elim (Bool-cases (frame.ether_type == ether_type_arp)) [
                | inl a ↦ rw a (refl, (routed, ground (arith, a), refl, refl))
                | inr a ↦ rw a (refl, (refl, (routed, ground (arith, i), ground (arith, a))))
              ])
            ])
        | inr n ↦
            let l2 = decide_l2_forwarding frame vlan ingress_port vlan_ports learned in
            rw n (
              switched_lem l2.action l2.output_ports l2.drop_reason
                (is_router_address-false (find vlan router_interfaces) n)
                (refl, decide_l2_forwarding_lem frame vlan ingress_port vlan_ports learned))
      ]

  pub process_learned_lem :
      (r : MacTableUpdate)
      → learning ≡ r
      → Handled (
          process_learned frame ingress_port vlan_ports learned router_interfaces vlan
            (learning_drop r))
  unfolding process_learned learning_drop drop_decision
  process_learned_lem rejected e = (refl, (refl, e))
  process_learned_lem static_conflict e = (refl, (refl, e))
  process_learned_lem inserted e = process_destination_lem
  process_learned_lem refreshed e = process_destination_lem
  process_learned_lem moved e = process_destination_lem
  process_learned_lem table_full e = process_destination_lem

  action-AreOutputs :
      (action : PipelineAction) (outputs : List ℕ) (reason : Option PipelineDropReason)
      → ActionSpec action outputs reason
      → AreOutputs ingress_port vlan_ports outputs
  action-AreOutputs switch_known_unicast outputs reason (n, none_given, (e, s)) =
      Decided-AreOutputs frame.destination ingress_port vlan_ports
        (lookup learned vlan frame.destination) known_unicast outputs none s
  action-AreOutputs flood outputs reason (n, none_given, (action, u, d, (e, s))) =
      Decided-AreOutputs frame.destination ingress_port vlan_ports
        (lookup learned vlan frame.destination) action outputs none s
  action-AreOutputs route_ipv4 outputs reason (r, i, none_given, o) =
      rw o (no-AreOutputs ingress_port vlan_ports)
  action-AreOutputs deliver_to_control_plane outputs reason (r, i, none_given, o) =
      rw o (no-AreOutputs ingress_port vlan_ports)
  action-AreOutputs drop outputs reason (o, d) = rw o (no-AreOutputs ingress_port vlan_ports)

  pub Handled-AreOutputs :
      (d : PipelineDecision) → Handled (some d) → AreOutputs ingress_port vlan_ports d.output_ports
  Handled-AreOutputs d h = action-AreOutputs d.action d.output_ports d.drop_reason h.1

  -- What the learning of the source address forbids.
  abbrev pub Blocked : Option PipelineDecision → Type 0
  Blocked decision =
      (learning ≡ rejected → decision ≡ some (drop_decision (some vlan) invalid_source_mac))
      × (learning ≡ static_conflict
          → decision ≡ some (drop_decision (some vlan) static_mac_conflict))

  pub process_learned-Blocked : Blocked (
      process_learned frame ingress_port vlan_ports learned router_interfaces vlan
        (learning_drop learning))
  unfolding process_learned learning_drop
  process_learned-Blocked = (λ e. rw e refl, λ e. rw e refl)
