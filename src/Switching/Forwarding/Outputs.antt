-- ===== src/Switching/Forwarding/Outputs.antt =====
-- The output ports of a decision, and the case that each action stands for.
use mathlib.Core.Path.{subst}
use hzl_silicon_switch_lab.Base.{
  ℕ, ◌≡◌, ◌≢◌, inl, inr, refl, ap, ◌∙◌, true, false, not, ◌&&◌, ◌||◌, List, [], ◌∷◌, ◌++◌, Option,
  none, some, arith, ◌==◌, if◌then◌else◌, Bool-cases, sym, ==_iff,
}
use hzl_silicon_switch_lab.Network.Vlan.{VlanId}
use hzl_silicon_switch_lab.Network.MacAddress.{MacAddress, is_broadcast, is_multicast}
use hzl_silicon_switch_lab.Network.EthernetFrame.{EthernetFrame}
use hzl_silicon_switch_lab.Switching.MacTable.{MacTable, MacTableEntry, lookup}
use hzl_silicon_switch_lab.Switching.Forwarding.{
  L2ForwardingAction, known_unicast, unknown_unicast_flood, broadcast_flood, multicast_flood, drop,
  L2ForwardingDropReason, same_ingress_port, destination_not_in_vlan, no_eligible_egress_port,
  L2ForwardingDecision, forward, drop_frame, contains_port, flood_loop, forward_or_drop, flood,
  decide_unicast, decide_l2_forwarding,
}

-- No port stands twice.
abbrev pub Distinct : List ℕ → Type 0
Distinct [] = Unit {0}
Distinct (p ∷ ports) = (contains_port p ports ≡ false) × Distinct ports

pub contains_port-append :
    (p : ℕ) (xs ys : List ℕ)
    → contains_port p (xs ++ ys) ≡ (contains_port p xs || contains_port p ys)
unfolding contains_port
contains_port-append p [] ys = refl
contains_port-append p (x ∷ xs) ys = ground (arith, contains_port-append p xs ys)

pub Distinct-append :
    (xs : List ℕ) (p : ℕ) → Distinct xs → contains_port p xs ≡ false → Distinct (xs ++ (p ∷ []))
unfolding contains_port
Distinct-append [] p d h = (refl, tt)
Distinct-append (x ∷ xs) p d h =
    ground (arith, contains_port-append x xs (p ∷ []), Distinct-append xs p d.1)

module _ (ingress_port : ℕ) where
  next : ℕ → List ℕ → List ℕ
  next port outputs =
      if not (port == ingress_port) && not (contains_port port outputs)
      then outputs ++ (port ∷ [])
      else outputs

  contains-next :
      (p port : ℕ) (outputs : List ℕ)
      → contains_port p (next port outputs)
        ≡ (contains_port p outputs || (port == p && not (port == ingress_port)))
  unfolding next contains_port
  contains-next p port outputs = ground (arith, contains_port-append p outputs (port ∷ []))

  next-Distinct : (port : ℕ) (outputs : List ℕ) → Distinct outputs → Distinct (next port outputs)
  unfolding next
  next-Distinct port outputs d = ground (arith, Distinct-append outputs port d)

  regroup :
      (p port : ℕ) (ports outputs : List ℕ)
      → ((contains_port p outputs || (port == p && not (port == ingress_port)))
          || (contains_port p ports && not (p == ingress_port)))
        ≡ (contains_port p outputs || (contains_port p (port ∷ ports) && not (p == ingress_port)))
  unfolding contains_port
  regroup p port ports outputs = ground arith

  flood_loop-cons :
      (port : ℕ) (ports outputs : List ℕ)
      → flood_loop ingress_port (port ∷ ports) outputs
        ≡ flood_loop ingress_port ports (next port outputs)
  unfolding flood_loop next
  flood_loop-cons port ports outputs = refl

  contains-flood_loop :
      (p : ℕ) (ports outputs : List ℕ)
      → contains_port p (flood_loop ingress_port ports outputs)
        ≡ (contains_port p outputs || (contains_port p ports && not (p == ingress_port)))
  contains-flood_loop p [] outputs = unfold flood_loop contains_port in ground arith
  contains-flood_loop p (port ∷ ports) outputs =
      ap (contains_port p) (flood_loop-cons port ports outputs)
      ∙ (contains-flood_loop p ports (next port outputs)
          ∙ rw (contains-next p port outputs) (regroup p port ports outputs))

  flood_loop-Distinct :
      (ports outputs : List ℕ) → Distinct outputs → Distinct (flood_loop ingress_port ports outputs)
  flood_loop-Distinct [] outputs d = unfold flood_loop in d
  flood_loop-Distinct (port ∷ ports) outputs d =
      rw (flood_loop-cons port ports outputs)
        (flood_loop-Distinct ports (next port outputs) (next-Distinct port outputs d))

-- The ports that a flood goes to: all of the VLAN but the ingress port, each once.
abbrev pub IsFlood : ℕ → List ℕ → List ℕ → Type 0
IsFlood ingress_port vlan_ports outputs =
    ((p : ℕ) → contains_port p outputs ≡ (contains_port p vlan_ports && not (p == ingress_port)))
    × Distinct outputs
    × (outputs ≢ [])

-- What each reason to drop says.
abbrev pub DropSpec :
    MacAddress → ℕ → List ℕ → Option MacTableEntry → Option L2ForwardingDropReason → Type 0
DropSpec destination ingress_port vlan_ports found none = ⊥
DropSpec destination ingress_port vlan_ports found (some same_ingress_port) =
    (is_broadcast destination ≡ false)
    × (is_multicast destination ≡ false)
    × ((entry : MacTableEntry) × (found ≡ some entry) × (entry.port ≡ ingress_port))
DropSpec destination ingress_port vlan_ports found (some destination_not_in_vlan) =
    (is_broadcast destination ≡ false)
    × (is_multicast destination ≡ false)
    × ((entry : MacTableEntry) × (found ≡ some entry)
        × (entry.port ≢ ingress_port)
        × (contains_port entry.port vlan_ports ≡ false))
DropSpec destination ingress_port vlan_ports found (some no_eligible_egress_port) =
    (p : ℕ) → (contains_port p vlan_ports && not (p == ingress_port)) ≡ false

-- What each action says of the frame, of the table and of the output ports.
abbrev pub DecisionSpec :
    MacAddress
    → ℕ
    → List ℕ
    → Option MacTableEntry
    → L2ForwardingAction
    → List ℕ
    → Option L2ForwardingDropReason
    → Type 0
DecisionSpec destination ingress_port vlan_ports found known_unicast outputs reason =
    (reason ≡ none)
    × (is_broadcast destination ≡ false)
    × (is_multicast destination ≡ false)
    × ((entry : MacTableEntry) × (found ≡ some entry)
        × (outputs ≡ entry.port ∷ [])
        × (entry.port ≢ ingress_port)
        × (contains_port entry.port vlan_ports ≡ true))
DecisionSpec destination ingress_port vlan_ports found unknown_unicast_flood outputs reason =
    (reason ≡ none)
    × (is_broadcast destination ≡ false)
    × (is_multicast destination ≡ false)
    × (found ≡ none)
    × IsFlood ingress_port vlan_ports outputs
DecisionSpec destination ingress_port vlan_ports found broadcast_flood outputs reason =
    (reason ≡ none) × (is_broadcast destination ≡ true) × IsFlood ingress_port vlan_ports outputs
DecisionSpec destination ingress_port vlan_ports found multicast_flood outputs reason =
    (reason ≡ none)
    × (is_broadcast destination ≡ false)
    × (is_multicast destination ≡ true)
    × IsFlood ingress_port vlan_ports outputs
DecisionSpec destination ingress_port vlan_ports found drop outputs reason =
    (outputs ≡ []) × DropSpec destination ingress_port vlan_ports found reason

module _ (destination : MacAddress) (ingress_port : ℕ) (vlan_ports : List ℕ)
    (found : Option MacTableEntry) where
  abbrev pub Decided : L2ForwardingDecision → Type 0
  Decided d =
      DecisionSpec destination ingress_port vlan_ports found d.action d.output_ports d.drop_reason

  -- A flood is right if its action is, given that some port is eligible.
  Decided-flood :
      (action : L2ForwardingAction)
      → ((outputs : List ℕ)
          → IsFlood ingress_port vlan_ports outputs
          → DecisionSpec destination ingress_port vlan_ports found action outputs none)
      → Decided (flood action ingress_port vlan_ports)
  unfolding flood
  Decided-flood action right =
      by_outputs (flood_loop ingress_port vlan_ports [])
        (λ p. contains-flood_loop ingress_port p vlan_ports [] ∙ unfold contains_port in refl)
        (flood_loop-Distinct ingress_port vlan_ports [] tt)
    where
      by_outputs :
          (outputs : List ℕ)
          → ((p : ℕ)
              → contains_port p outputs ≡ (contains_port p vlan_ports && not (p == ingress_port)))
          → Distinct outputs
          → Decided (forward_or_drop action outputs)
      by_outputs [] c d = (refl, λ p. sym (c p) ∙ unfold contains_port in refl)
      by_outputs (o ∷ outputs) c d = right (o ∷ outputs) (c, d, λ e. cc)

Decided-unicast :
    (destination : MacAddress) (ingress_port : ℕ) (vlan_ports : List ℕ)
    (found : Option MacTableEntry)
    → is_broadcast destination ≡ false
    → is_multicast destination ≡ false
    → Decided destination ingress_port vlan_ports found
        (decide_unicast ingress_port vlan_ports found)
unfolding decide_unicast drop_frame forward
Decided-unicast destination ingress_port vlan_ports none b m =
    Decided-flood destination ingress_port vlan_ports none unknown_unicast_flood
      (λ outputs f. (refl, b, m, refl, f))
Decided-unicast destination ingress_port vlan_ports (some entry) b m =
    elim (Bool-cases (entry.port == ingress_port)) [
      | inl same ↦ rw same (refl, (b, m, (entry, refl, (==_iff entry.port ingress_port).0 same)))
      | inr other ↦ rw other (elim (Bool-cases (contains_port entry.port vlan_ports)) [
        | inl inside ↦ rw inside (refl, b, m, (entry, refl, refl, ground (arith, other), inside))
        | inr outside ↦ rw outside (refl, (b, m, (entry, refl, ground (arith, other), outside)))
      ])
    ]

-- Whatever the frame, the ports and the table, the action is the one that the destination and the
-- entry found for it call for: a broadcast or multicast frame or a frame with no entry is flooded,
-- to every port of the VLAN but the ingress port, each once; a frame with an entry goes to the port
-- of the entry alone, when that is a port of the VLAN and not the ingress port; and a frame is
-- dropped, with no output port, for the reason that is true.
pub decide_l2_forwarding_lem :
    (frame : EthernetFrame) (vlan : VlanId) (ingress_port : ℕ) (vlan_ports : List ℕ)
    (mac_table : MacTable)
    → Decided frame.destination ingress_port vlan_ports
        (lookup mac_table vlan frame.destination)
        (decide_l2_forwarding frame vlan ingress_port vlan_ports mac_table)
unfolding decide_l2_forwarding
decide_l2_forwarding_lem frame vlan ingress_port vlan_ports mac_table =
    let found = lookup mac_table vlan frame.destination in
    elim (Bool-cases (is_broadcast frame.destination)) [
      | inl b ↦ rw b (
          Decided-flood frame.destination ingress_port vlan_ports found broadcast_flood
            (λ outputs f. (refl, b, f)))
      | inr b ↦ rw b (elim (Bool-cases (is_multicast frame.destination)) [
        | inl m ↦ rw m (
            Decided-flood frame.destination ingress_port vlan_ports found multicast_flood
              (λ outputs f. (refl, b, m, f)))
        | inr m ↦ rw m (Decided-unicast frame.destination ingress_port vlan_ports found b m)
      ])
    ]

-- Outputs that are ports of the VLAN, none of them the ingress port and none of them twice.
abbrev pub AreOutputs : ℕ → List ℕ → List ℕ → Type 0
AreOutputs ingress_port vlan_ports outputs =
    Distinct outputs
    × (contains_port ingress_port outputs ≡ false)
    × ((p : ℕ) → contains_port p outputs ≡ true → contains_port p vlan_ports ≡ true)

flood-AreOutputs :
    (ingress_port : ℕ) (vlan_ports outputs : List ℕ)
    → IsFlood ingress_port vlan_ports outputs
    → AreOutputs ingress_port vlan_ports outputs
flood-AreOutputs ingress_port vlan_ports outputs (c, d, n) =
    (d, ground (arith, c ingress_port), λ p h. ground (arith, c p, h))

pub Decided-AreOutputs :
    (destination : MacAddress) (ingress_port : ℕ) (vlan_ports : List ℕ)
    (found : Option MacTableEntry) (action : L2ForwardingAction) (outputs : List ℕ)
    (reason : Option L2ForwardingDropReason)
    → DecisionSpec destination ingress_port vlan_ports found action outputs reason
    → AreOutputs ingress_port vlan_ports outputs
Decided-AreOutputs destination ingress_port vlan_ports found known_unicast outputs reason
      (r, b, m, (entry, e, o, other, inside)) =
    rw o (
      unfold contains_port in
      (
        (refl, tt),
        ground (arith, other),
        λ p h. (elim (Bool-cases (entry.port == p)) [
          | inl q ↦
              subst (λ x. contains_port x vlan_ports ≡ true) ((==_iff entry.port p).0 q) inside
          | inr q ↦ ground (arith, q, h)
        ]),
      ))
Decided-AreOutputs destination ingress_port vlan_ports found unknown_unicast_flood outputs reason
      (r, b, m, e, f) =
    flood-AreOutputs ingress_port vlan_ports outputs f
Decided-AreOutputs destination ingress_port vlan_ports found broadcast_flood outputs reason
      (r, b, f) =
    flood-AreOutputs ingress_port vlan_ports outputs f
Decided-AreOutputs destination ingress_port vlan_ports found multicast_flood outputs reason
      (r, b, m, f) =
    flood-AreOutputs ingress_port vlan_ports outputs f
Decided-AreOutputs destination ingress_port vlan_ports found drop outputs reason (o, d) =
    rw o (unfold contains_port in (tt, refl, λ p h. grind arith))

-- A frame is never sent back to its ingress port, never sent twice to one port and never sent
-- outside the ports of its VLAN.
pub decide_l2_forwarding-AreOutputs :
    (frame : EthernetFrame) (vlan : VlanId) (ingress_port : ℕ) (vlan_ports : List ℕ)
    (mac_table : MacTable)
    → AreOutputs ingress_port vlan_ports
        (decide_l2_forwarding frame vlan ingress_port vlan_ports mac_table).output_ports
decide_l2_forwarding-AreOutputs frame vlan ingress_port vlan_ports mac_table =
    let decision = decide_l2_forwarding frame vlan ingress_port vlan_ports mac_table in
    Decided-AreOutputs frame.destination ingress_port vlan_ports
      (lookup mac_table vlan frame.destination) decision.action decision.output_ports
      decision.drop_reason (decide_l2_forwarding_lem frame vlan ingress_port vlan_ports mac_table)
