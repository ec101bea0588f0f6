-- ===== src/Asic/SoftwareAsic/Movement.antt =====
-- What the packet path leaves as it was: the state of every port, its VLANs, and the members.
use hzl_silicon_switch_lab.Base.{
  ℕ, ◌≡◌, refl, Bool, List, [], ◌∷◌, Option, some, arith, length, Bool-cases, inl, inr, equiv,
  equiv_iff, nat_order, ◌∙◌, ap, ltb, leb, length-append,
}
use hzl_silicon_switch_lab.Base.Map.{Map, find, assign, find-assign}
use hzl_silicon_switch_lab.Network.Vlan.{VlanId}
use hzl_silicon_switch_lab.Switching.VirtualPort.{
  VirtualPort, PortCounters, operational, receive, transmit,
}
use hzl_silicon_switch_lab.Asic.BoundedQueue.{try_enqueue, is_full}
use hzl_silicon_switch_lab.Asic.SoftwareAsic.{SoftwareAsic, PacketQueue}
use hzl_silicon_switch_lab.Asic.SoftwareAsic.PacketPath.{is_operational}
use hzl_silicon_switch_lab.Asic.SoftwareAsic.Invariant.{Keeps, QueueFits, port_allows}

-- Ports whose states and VLANs are the same.
abbrev pub SamePorts : Map ℕ VirtualPort → Map ℕ VirtualPort → Type 0
SamePorts old new =
    ((p : ℕ) → is_operational (find p new) ≡ is_operational (find p old))
    × ((vlan : VlanId) (p : ℕ) → port_allows vlan (find p new) ≡ port_allows vlan (find p old))

abbrev pub Moved : SoftwareAsic → SoftwareAsic → Type 0
Moved old new = SamePorts old.ports new.ports × (new.vlan_members ≡ old.vlan_members)

pub Moved-refl : (asic : SoftwareAsic) → Moved asic asic
Moved-refl asic = ((λ p. refl, λ vlan p. refl), refl)

pub Moved-trans : (a b c : SoftwareAsic) → Moved a b → Moved b c → Moved a c
Moved-trans a b c h k = ((λ p. k.0.0 p ∙ h.0.0 p, λ vlan p. k.0.1 vlan p ∙ h.0.1 vlan p), k.1 ∙ h.1)

same_at :
    (f : Option VirtualPort → Bool) (ports : Map ℕ VirtualPort) (p q : ℕ) (old new : VirtualPort)
    → find p ports ≡ some old
    → f (some new) ≡ f (some old)
    → f (find q (assign p new ports)) ≡ f (find q ports)
same_at f ports p q old new e same = elim (Bool-cases (equiv q p)) [
  | inl at_p ↦
      let there : find q ports ≡ some old = ap (λ x. find x ports) ((equiv_iff q p).0 at_p) ∙ e in
      rw (find-assign p q new ports, at_p, e, there) same
  | inr other ↦ rw (find-assign p q new ports, other) refl
]

pub assign-SamePorts :
    (ports : Map ℕ VirtualPort) (p : ℕ) (old new : VirtualPort)
    → find p ports ≡ some old
    → Keeps old new
    → operational new ≡ operational old
    → SamePorts ports (assign p new ports)
unfolding is_operational port_allows
assign-SamePorts ports p old new e k up = (
  λ q. same_at is_operational ports p q old new e up,
  λ vlan q. same_at (port_allows vlan) ports p q old new e (rw k.config refl),
)

-- Only the counters of a port move.
abbrev IsCounted : VirtualPort → VirtualPort → Type 0
IsCounted port new = (c : PortCounters) × (new ≡ record port { counters = c })

counted-Keeps :
    (port new : VirtualPort)
    → IsCounted port new
    → Keeps port new × (operational new ≡ operational port)
counted-Keeps port new (c, e) =
    rw e (record { id = refl; config = refl; mtu = refl }, unfold operational in refl)

transmit-IsCounted : (port : VirtualPort) (size : ℕ) → IsCounted port (transmit port size).0
unfolding transmit
transmit-IsCounted port size = elim (Bool-cases (operational port)) [
  | inr down ↦ rw down (_, refl)
  | inl up ↦ elim (Bool-cases (ltb port.mtu size)) [
    | inl large ↦ rw (up, large) (_, refl)
    | inr fits ↦ rw (up, fits) (_, refl)
  ]
]

receive-IsCounted : (port : VirtualPort) (size : ℕ) → IsCounted port (receive port size).0
unfolding receive
receive-IsCounted port size = elim (Bool-cases (operational port)) [
  | inr down ↦ rw down (_, refl)
  | inl up ↦ elim (Bool-cases (ltb port.mtu size)) [
    | inl large ↦ rw (up, large) (_, refl)
    | inr fits ↦ rw (up, fits) (_, refl)
  ]
]

pub transmit-Keeps :
    (port : VirtualPort) (size : ℕ)
    → Keeps port (transmit port size).0 × (operational (transmit port size).0 ≡ operational port)
transmit-Keeps port size = counted-Keeps port (transmit port size).0 (transmit-IsCounted port size)

pub receive-Keeps :
    (port : VirtualPort) (size : ℕ)
    → Keeps port (receive port size).0 × (operational (receive port size).0 ≡ operational port)
receive-Keeps port size = counted-Keeps port (receive port size).0 (receive-IsCounted port size)

pub try_enqueue-QueueFits :
    (p : ℕ) (queue : PacketQueue) (packet : List ℕ)
    → QueueFits p (some queue)
    → QueueFits p (some (try_enqueue queue packet).0)
unfolding try_enqueue is_full
try_enqueue-QueueFits p queue packet (room, not_closed) =
    elim (Bool-cases (leb queue.capacity (length queue.values))) [
      | inl full ↦ simp (not_closed, full) (room, refl)
      | inr free ↦
          simp (not_closed, free)
            (ground (arith, length-append queue.values (packet ∷ []), free), refl)
    ]
