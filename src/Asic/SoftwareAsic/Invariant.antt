-- ===== src/Asic/SoftwareAsic/Invariant.antt =====
-- What holds of the ASIC's state between two calls, and the changes of one part that keep it.
use hzl_silicon_switch_lab.Base.{
  ℕ, ◌≡◌, ◌≤◌, refl, Bool, true, false, List, Option, none, some, arith, length, has_value,
  Bool-cases, inl, inr, equiv, equiv_iff, nat_order, ◌∙◌, ap,
}
use hzl_silicon_switch_lab.Base.Map.{Map, find, assign, find-assign}
use hzl_silicon_switch_lab.Base.Map.Pointwise.{assign-fits}
use hzl_silicon_switch_lab.Network.Vlan.{VlanId, vlan_order}
use hzl_silicon_switch_lab.Network.MacAddress.{MacAddress, is_usable_mac}
use hzl_silicon_switch_lab.Switching.VlanPort.{VlanSet, IsConfig, allows}
use hzl_silicon_switch_lab.Switching.MacTable.{MacTable}
use hzl_silicon_switch_lab.Switching.MacTable.Expiry.{IsTable}
use hzl_silicon_switch_lab.Switching.Forwarding.{contains_port}
use hzl_silicon_switch_lab.Switching.Forwarding.Outputs.{Distinct}
use hzl_silicon_switch_lab.Switching.Pipeline.{RouterInterfaces}
use hzl_silicon_switch_lab.Switching.VirtualPort.{VirtualPort, minimum_mtu, maximum_mtu}
use hzl_silicon_switch_lab.Asic.SoftwareAsic.{SoftwareAsic, PacketQueue}
use hzl_silicon_switch_lab.Asic.SoftwareAsic.PacketPath.{first_vlan}
use hzl_silicon_switch_lab.Asic.SoftwareAsic.Members.{members_of}

-- What the factories of a port and of its VLAN configuration ensure.
pub record IsPort (port : VirtualPort) : Type 0 where
  pub config : IsConfig port.vlan_config
  pub some_vlan : has_value (first_vlan port.vlan_config.allowed_vlans) ≡ true
  pub mtu_low : minimum_mtu ≤ port.mtu
  pub mtu_high : port.mtu ≤ maximum_mtu

abbrev pub PortFits : ℕ → Option VirtualPort → Type 0
PortFits p none = Unit {0}
PortFits p (some port) = (port.id ≡ p) × IsPort port

-- The queue of a port, which it has just when it is there.
abbrev pub QueueFits : ℕ → Option PacketQueue → Type 0
QueueFits p none = Unit {0}
QueueFits p (some queue) = (length queue.values ≤ queue.capacity) × (queue.closed ≡ false)

abbrev pub InterfaceFits : VlanSet → VlanId → Option MacAddress → Type 0
InterfaceFits vlans vlan none = Unit {0}
InterfaceFits vlans vlan (some mac) =
    (has_value (find vlan vlans) ≡ true) × (is_usable_mac mac ≡ true)

-- A port that is there and allows the VLAN.
unfoldable pub port_allows : VlanId → Option VirtualPort → Bool
port_allows vlan none = false
port_allows vlan (some port) = allows port.vlan_config vlan

pub record IsSwitch (ports : Map ℕ VirtualPort) (queues : Map ℕ PacketQueue) (vlans : VlanSet)
    (members : Map VlanId (List ℕ)) (interfaces : RouterInterfaces) (mac_table : MacTable)
    : Type 0 where
  pub same_keys : (p : ℕ) → has_value (find p ports) ≡ has_value (find p queues)
  pub ports_fit : (p : ℕ) → PortFits p (find p ports)
  pub queues_fit : (p : ℕ) → QueueFits p (find p queues)
  pub members_allowed :
      (vlan : VlanId) (p : ℕ)
      → contains_port p (members_of members vlan) ≡ true
      → port_allows vlan (find p ports) ≡ true
  pub members_exist :
      (vlan : VlanId) (p : ℕ)
      → contains_port p (members_of members vlan) ≡ true
      → has_value (find vlan vlans) ≡ true
  pub members_once : (vlan : VlanId) → Distinct (members_of members vlan)
  pub interfaces_fit : (vlan : VlanId) → InterfaceFits vlans vlan (find vlan interfaces)
  pub is_table : IsTable mac_table

abbrev pub IsAsic : SoftwareAsic → Type 0
IsAsic asic =
    IsSwitch asic.ports asic.queues asic.vlans asic.vlan_members asic.router_interfaces
      asic.mac_table

-- The VLAN configuration and the bounds of a port, which no counter and no state moves.
pub record Keeps (old new : VirtualPort) : Type 0 where
  pub id : new.id ≡ old.id
  pub config : new.vlan_config ≡ old.vlan_config
  pub mtu : new.mtu ≡ old.mtu

pub Keeps-IsPort : (old new : VirtualPort) → Keeps old new → IsPort old → IsPort new
Keeps-IsPort old new k v = record {
  config = rw k.config v.config;
  some_vlan = rw k.config v.some_vlan;
  mtu_low = rw k.mtu v.mtu_low;
  mtu_high = rw k.mtu v.mtu_high;
}

module _ (asic : SoftwareAsic) (v : IsAsic asic) where
  pub port_at :
      (p : ℕ) (port : VirtualPort) → find p asic.ports ≡ some port → PortFits p (some port)
  port_at p port e = rw e at (v.ports_fit p)

  allows_assigned :
      (p q : ℕ) (vlan : VlanId) (old new : VirtualPort)
      → find p asic.ports ≡ some old
      → Keeps old new
      → port_allows vlan (find q asic.ports) ≡ true
      → port_allows vlan (find q (assign p new asic.ports)) ≡ true
  unfolding port_allows
  allows_assigned p q vlan old new e k h = elim (Bool-cases (equiv q p)) [
    | inl same ↦
        let at_p : find q asic.ports ≡ some old =
          ap (λ x. find x asic.ports) ((equiv_iff q p).0 same) ∙ e in
        rw (find-assign p q new asic.ports, same, e, k.config) (rw at_p at h)
    | inr other ↦ rw (find-assign p q new asic.ports, other) h
  ]

  -- A port that moves its counters or its state keeps the switch well-formed.
  pub assign_port-IsAsic :
      (p : ℕ) (old new : VirtualPort)
      → find p asic.ports ≡ some old
      → Keeps old new
      → IsAsic (record asic { ports = assign p new asic.ports })
  assign_port-IsAsic p old new e k =
      let there : has_value (find p asic.ports) ≡ true = rw e refl in
      record {
        same_keys = λ q.
            ground (arith, find-assign p q new asic.ports, equiv_iff q p, v.same_keys q, there);
        ports_fit =
            assign-fits PortFits p new asic.ports there
              (k.id ∙ (port_at p old e).0, Keeps-IsPort old new k (port_at p old e).1) v.ports_fit;
        queues_fit = v.queues_fit;
        members_allowed =
            λ vlan q h. allows_assigned p q vlan old new e k (v.members_allowed vlan q h);
        members_exist = v.members_exist;
        members_once = v.members_once;
        interfaces_fit = v.interfaces_fit;
        is_table = v.is_table;
      }

  -- A queue within its capacity that takes the place of another keeps the switch well-formed.
  pub assign_queue-IsAsic :
      (p : ℕ) (queue : PacketQueue)
      → has_value (find p asic.queues) ≡ true
      → QueueFits p (some queue)
      → IsAsic (record asic { queues = assign p queue asic.queues })
  assign_queue-IsAsic p queue there fits = record {
    same_keys =
        λ q. ground (arith, find-assign p q queue asic.queues, equiv_iff q p, v.same_keys q, there);
    ports_fit = v.ports_fit;
    queues_fit = assign-fits QueueFits p queue asic.queues there fits v.queues_fit;
    members_allowed = v.members_allowed;
    members_exist = v.members_exist;
    members_once = v.members_once;
    interfaces_fit = v.interfaces_fit;
    is_table = v.is_table;
  }

  pub with_table-IsAsic :
      (table : MacTable) → IsTable table → IsAsic (record asic { mac_table = table })
  with_table-IsAsic table t = record {
    same_keys = v.same_keys;
    ports_fit = v.ports_fit;
    queues_fit = v.queues_fit;
    members_allowed = v.members_allowed;
    members_exist = v.members_exist;
    members_once = v.members_once;
    interfaces_fit = v.interfaces_fit;
    is_table = t;
  }
