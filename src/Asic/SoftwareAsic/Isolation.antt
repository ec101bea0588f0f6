-- ===== src/Asic/SoftwareAsic/Isolation.antt =====
-- What process_packet returns in a well-formed switch, on every path.
use hzl_silicon_switch_lab.Base.{
  ℕ, ◌≡◌, ◌≢◌, refl, true, false, List, [], ◌∷◌, none, some, has_value, Bool-cases, Option-cases,
  inl, inr, nat_order, ap, ℤ,
}
use mathlib.Core.Path.{subst}
use hzl_silicon_switch_lab.Base.Map.{find}
use hzl_silicon_switch_lab.Network.Vlan.{VlanId, vlan_order}
use hzl_silicon_switch_lab.Network.EthernetFrame.{EthernetFrame}
use hzl_silicon_switch_lab.Switching.VlanPort.{
  VlanPortConfig, VlanPortMode, access, trunk, IsConfig, ModeFits, allows, is_access,
}
use hzl_silicon_switch_lab.Switching.VlanPort.Ingress.{
  accepted_ingress, classify_vlan_ingress, classify_vlan_ingress_lem, IngressSpec,
}
use hzl_silicon_switch_lab.Switching.Forwarding.{contains_port}
use hzl_silicon_switch_lab.Asic.SoftwareAsic.{SoftwareAsic}
use hzl_silicon_switch_lab.Asic.SoftwareAsic.PacketPath.{
  PacketDisposition, switched, flooded, routed, delivered_to_control_plane, dropped,
  PacketDropReason, no_reason, Processing, dropped_result, is_operational, members_vlan,
  members_vlan_of_trunk, first_vlan,
}
use hzl_silicon_switch_lab.Asic.SoftwareAsic.Egress.{
  Egress, egress_loop, egress_result, enqueue_outputs,
}
use hzl_silicon_switch_lab.Asic.SoftwareAsic.Members.{members_of}
use hzl_silicon_switch_lab.Asic.SoftwareAsic.Invariant.{IsAsic, port_allows}
use hzl_silicon_switch_lab.Asic.SoftwareAsic.Movement.{Moved}
use hzl_silicon_switch_lab.Asic.SoftwareAsic.Delivery.{AreDelivered, egress_loop-IsEgress}

-- Every output port works.
abbrev pub AreUp : SoftwareAsic → List ℕ → Type 0
AreUp asic outputs =
    (p : ℕ) → contains_port p outputs ≡ true → is_operational (find p asic.ports) ≡ true

-- The frame stayed in one VLAN, which the ingress port allows and of which every output port is a
-- member that allows it, and did not return to the ingress port.
abbrev pub IsIsolated : SoftwareAsic → ℕ → List ℕ → Type 0
IsIsolated asic ingress outputs =
    (vlan : VlanId) × (port_allows vlan (find ingress asic.ports) ≡ true)
    × (contains_port ingress outputs ≡ false)
    × ((p : ℕ)
        → contains_port p outputs ≡ true
        → (contains_port p (members_of asic.vlan_members vlan) ≡ true)
          × (port_allows vlan (find p asic.ports) ≡ true))

abbrev pub ResultSpec : SoftwareAsic → ℕ → PacketDisposition → PacketDropReason → List ℕ → Type 0
ResultSpec asic ingress dropped cause outputs = (outputs ≡ []) × (cause ≢ no_reason)
ResultSpec asic ingress delivered_to_control_plane cause outputs =
    (outputs ≡ []) × (cause ≡ no_reason)
ResultSpec asic ingress routed cause outputs =
    (outputs ≢ []) × (cause ≡ no_reason) × AreUp asic outputs
ResultSpec asic ingress switched cause outputs =
    (outputs ≢ []) × (cause ≡ no_reason) × AreUp asic outputs × IsIsolated asic ingress outputs
ResultSpec asic ingress flooded cause outputs =
    (outputs ≢ []) × (cause ≡ no_reason) × AreUp asic outputs × IsIsolated asic ingress outputs

-- A result, in a switch that is still well-formed, whose ports have the states, the VLANs and the
-- memberships that they had.
abbrev pub IsProcessed : SoftwareAsic → ℕ → Processing → Type 0
IsProcessed asic ingress (after, none) = ⊥
IsProcessed asic ingress (after, some result) =
    IsAsic after
    × Moved asic after
    × ResultSpec asic ingress result.disposition result.drop_reason result.output_ports

-- What the requested ports of a disposition are.
abbrev pub RequestSpec : SoftwareAsic → ℕ → PacketDisposition → List ℕ → Type 0
RequestSpec asic ingress dropped requested = ⊥
RequestSpec asic ingress delivered_to_control_plane requested = ⊥
RequestSpec asic ingress routed requested = Unit {0}
RequestSpec asic ingress switched requested = IsIsolated asic ingress requested
RequestSpec asic ingress flooded requested = IsIsolated asic ingress requested

module _ (asic : SoftwareAsic) (ingress : ℕ) where
  pub dropped-IsProcessed :
      (after : SoftwareAsic) (cause : PacketDropReason) (latency : ℤ)
      → IsAsic after
      → Moved asic after
      → cause ≢ no_reason
      → IsProcessed asic ingress (after, some (dropped_result cause latency))
  unfolding dropped_result
  dropped-IsProcessed after cause latency v m n = (v, m, (refl, n))

  fewer-IsIsolated :
      (requested outputs : List ℕ)
      → ((p : ℕ) → contains_port p outputs ≡ true → contains_port p requested ≡ true)
      → IsIsolated asic ingress requested
      → IsIsolated asic ingress outputs
  fewer-IsIsolated requested outputs asked (vlan, allowed, away, inside) = (
    vlan,
    allowed,
    elim (Bool-cases (contains_port ingress outputs)) [
      | inl back ↦ cc (asked ingress back)
      | inr outside ↦ outside
    ],
    λ p c. inside p (asked p c),
  )

  egress_result-ResultSpec :
      (disposition : PacketDisposition) (requested outputs : List ℕ) (latency : ℤ)
      → RequestSpec asic ingress disposition requested
      → AreDelivered asic requested outputs
      → ResultSpec asic ingress
          (egress_result disposition outputs latency).disposition
          (egress_result disposition outputs latency).drop_reason
          (egress_result disposition outputs latency).output_ports
  unfolding egress_result dropped_result
  egress_result-ResultSpec disposition requested [] latency r d = (refl, λ e. cc)
  egress_result-ResultSpec dropped requested (p ∷ outputs) latency r d = elim r [ ]
  egress_result-ResultSpec delivered_to_control_plane requested (p ∷ outputs) latency r d =
      elim r [ ]
  egress_result-ResultSpec routed requested (p ∷ outputs) latency r d =
      ((λ e. cc), refl, λ q c. (d q c).0)
  egress_result-ResultSpec switched requested (p ∷ outputs) latency r d = (
    (λ e. cc),
    refl,
    (λ q c. (d q c).0),
    fewer-IsIsolated requested (p ∷ outputs) (λ q c. (d q c).1) r,
  )
  egress_result-ResultSpec flooded requested (p ∷ outputs) latency r d = (
    (λ e. cc),
    refl,
    (λ q c. (d q c).0),
    fewer-IsIsolated requested (p ∷ outputs) (λ q c. (d q c).1) r,
  )

  pub enqueue_outputs-IsProcessed :
      (now : SoftwareAsic) (disposition : PacketDisposition) (requested frame : List ℕ)
      (latency : ℤ)
      → IsAsic now
      → Moved asic now
      → RequestSpec asic ingress disposition requested
      → IsProcessed asic ingress (enqueue_outputs now disposition requested frame latency)
  unfolding enqueue_outputs
  enqueue_outputs-IsProcessed now disposition requested frame latency v m r =
      let start : Egress = record { asic = now; outputs = []; latency = latency } in
      let end = egress_loop start requested frame in
      let (w, moved, delivered) =
        egress_loop-IsEgress asic requested start requested frame (λ p c. c)
          (v, m, λ p c. unfold contains_port in cc) in
      (w, moved, egress_result-ResultSpec disposition requested end.outputs end.latency r delivered)

-- The VLAN whose members are looked up is the one that the frame is accepted in.
members_vlan-accepted_at :
    (frame : EthernetFrame) (config : VlanPortConfig) (vlan : VlanId)
    → IngressSpec frame config (accepted_ingress vlan)
    → IsConfig config
    → has_value (first_vlan config.allowed_vlans) ≡ true
    → members_vlan config frame ≡ some vlan
unfolding members_vlan members_vlan_of_trunk is_access
members_vlan-accepted_at frame config vlan (ok, how) v some_vlan = elim how [
  | inl (m, untagged, same) ↦ rw m same
  | inr (inl (m, untagged, native)) ↦ elim (Option-cases (first_vlan config.allowed_vlans)) [
    | inl absent ↦ cc (rw absent at some_vlan)
    | inr (first, e) ↦ rw (m, untagged, e, native) refl
  ]
  | inr (inr (m, (tag, tagged, same))) ↦ rw (m, tagged) (ap some same)
]

pub members_vlan-accepted :
    (frame : EthernetFrame) (config : VlanPortConfig) (vlan : VlanId)
    → classify_vlan_ingress frame config ≡ accepted_ingress vlan
    → IsConfig config
    → has_value (first_vlan config.allowed_vlans) ≡ true
    → (members_vlan config frame ≡ some vlan) × (allows config vlan ≡ true)
members_vlan-accepted frame config vlan e v some_vlan =
    let spec = subst (IngressSpec frame config) e (classify_vlan_ingress_lem frame config v) in
    (members_vlan-accepted_at frame config vlan spec v some_vlan, spec.0)

-- A VLAN is always found for the frame.
members_vlan_of_mode :
    (frame : EthernetFrame) (config : VlanPortConfig) (mode : VlanPortMode)
    → config.mode ≡ mode
    → ModeFits config mode
    → has_value (first_vlan config.allowed_vlans) ≡ true
    → has_value (members_vlan config frame) ≡ true
unfolding members_vlan is_access members_vlan_of_trunk
members_vlan_of_mode frame config access m (vlan, same, ok) some_vlan = rw (m, same) refl
members_vlan_of_mode frame config trunk m v some_vlan = elim (Option-cases frame.vlan_tag) [
  | inr (tag, tagged) ↦ rw (m, tagged) refl
  | inl untagged ↦ elim (Option-cases (first_vlan config.allowed_vlans)) [
    | inl absent ↦ cc (rw absent at some_vlan)
    | inr (first, e) ↦ rw (m, untagged, e) refl
  ]
]

pub has-members_vlan :
    (frame : EthernetFrame) (config : VlanPortConfig)
    → IsConfig config
    → has_value (first_vlan config.allowed_vlans) ≡ true
    → has_value (members_vlan config frame) ≡ true
has-members_vlan frame config v some_vlan =
    members_vlan_of_mode frame config config.mode refl v some_vlan
