-- ===== src/Asic/SoftwareAsic/VlanChanges.antt =====
-- Changes of the VLANs and of the members that keep the switch well-formed.
use hzl_silicon_switch_lab.Base.{
  ℕ, ◌≡◌, refl, true, List, [], ◌∷◌, Option, none, some, arith, has_value, Bool-cases, Option-cases,
  inl, inr, nat_order,
}
use hzl_silicon_switch_lab.Base.Map.{Map, find, emplace, find-emplace}
use hzl_silicon_switch_lab.Base.Map.Pointwise.{insert_or_assign-fits}
use hzl_silicon_switch_lab.Network.Vlan.{VlanId, vlan_order}
use hzl_silicon_switch_lab.Network.MacAddress.{MacAddress, is_usable_mac}
use hzl_silicon_switch_lab.Switching.VlanPort.{VlanSet}
use hzl_silicon_switch_lab.Switching.Forwarding.{contains_port}
use hzl_silicon_switch_lab.Switching.Forwarding.Outputs.{Distinct}
use hzl_silicon_switch_lab.Asic.SoftwareAsic.{SoftwareAsic}
use hzl_silicon_switch_lab.Asic.SoftwareAsic.Vlans.{
  create_vlan, index_members, valid_router_mac, set_router_interface,
}
use hzl_silicon_switch_lab.Asic.SoftwareAsic.Members.{members_of, members-index_members}
use hzl_silicon_switch_lab.Asic.SoftwareAsic.Invariant.{IsAsic, InterfaceFits, port_allows}

-- An interface of a VLAN that both sets hold.
interface_moved :
    (old new : VlanSet) (vlan : VlanId) (interface : Option MacAddress)
    → (has_value (find vlan old) ≡ true
        → has_value interface ≡ true
        → has_value (find vlan new) ≡ true)
    → InterfaceFits old vlan interface
    → InterfaceFits new vlan interface
interface_moved old new vlan none h f = tt
interface_moved old new vlan (some mac) h f = (h f.0 refl, f.1)

emplaced_again :
    (vlans : VlanSet) (vlan w : VlanId)
    → has_value (find w vlans) ≡ true
    → has_value (find w (emplace vlan tt vlans)) ≡ true
unfolding find emplace
emplaced_again [] vlan w h = cc
emplaced_again ((x, u) ∷ vlans) vlan w h = ground (arith, emplaced_again vlans vlan w)

module _ (asic : SoftwareAsic) (v : IsAsic asic) where
  -- Other members lists that hold no more.
  pub with_members-IsAsic :
      (members : Map VlanId (List ℕ))
      → ((vlan : VlanId) → Distinct (members_of members vlan))
      → ((vlan : VlanId) (p : ℕ)
          → contains_port p (members_of members vlan) ≡ true
          → (port_allows vlan (find p asic.ports) ≡ true)
            × (has_value (find vlan asic.vlans) ≡ true))
      → IsAsic (record asic { vlan_members = members })
  with_members-IsAsic members once h = record {
    same_keys = v.same_keys;
    ports_fit = v.ports_fit;
    queues_fit = v.queues_fit;
    members_allowed = λ vlan p c. (h vlan p c).0;
    members_exist = λ vlan p c. (h vlan p c).1;
    members_once = once;
    interfaces_fit = v.interfaces_fit;
    is_table = v.is_table;
  }

  pub indexed-IsAsic :
      (vlan : VlanId) → IsAsic (record asic { vlan_members = index_members vlan asic.vlan_members })
  indexed-IsAsic vlan =
      with_members-IsAsic (index_members vlan asic.vlan_members)
        (λ w. rw (members-index_members vlan w asic.vlan_members) (v.members_once w))
        (λ w p c.
          let d = rw (members-index_members vlan w asic.vlan_members) at c in
          (v.members_allowed w p d, v.members_exist w p d))

  -- Another set of VLANs that has those that members or an interface need.
  pub with_vlans-IsAsic :
      (vlans : VlanSet)
      → ((vlan : VlanId) (p : ℕ)
          → contains_port p (members_of asic.vlan_members vlan) ≡ true
          → has_value (find vlan vlans) ≡ true)
      → ((vlan : VlanId)
          → has_value (find vlan asic.vlans) ≡ true
          → has_value (find vlan asic.router_interfaces) ≡ true
          → has_value (find vlan vlans) ≡ true)
      → IsAsic (record asic { vlans = vlans })
  with_vlans-IsAsic vlans exist kept = record {
    same_keys = v.same_keys;
    ports_fit = v.ports_fit;
    queues_fit = v.queues_fit;
    members_allowed = v.members_allowed;
    members_exist = exist;
    members_once = v.members_once;
    interfaces_fit = λ vlan.
        interface_moved asic.vlans vlans vlan (find vlan asic.router_interfaces) (kept vlan)
          (v.interfaces_fit vlan);
    is_table = v.is_table;
  }

  emplaced_vlan :
      (vlan w : VlanId)
      → has_value (find w asic.vlans) ≡ true
      → has_value (find w (emplace vlan tt asic.vlans)) ≡ true
  emplaced_vlan vlan w h = elim (Option-cases (find vlan asic.vlans)) [
    | inl absent ↦ ground (arith, find-emplace vlan w tt asic.vlans absent, h)
    | inr (u, there) ↦ emplaced_again asic.vlans vlan w h
  ]

  pub create_vlan-IsAsic : (vlan : VlanId) → IsAsic (create_vlan asic vlan).0
  unfolding create_vlan
  create_vlan-IsAsic vlan =
      with_vlans-IsAsic (emplace vlan tt asic.vlans)
        (λ w p c. emplaced_vlan vlan w (v.members_exist w p c)) (λ w h i. emplaced_vlan vlan w h)

  pub set_router_interface-IsAsic :
      (vlan : VlanId) (mac : MacAddress) → IsAsic (set_router_interface asic vlan mac).0
  unfolding set_router_interface valid_router_mac
  set_router_interface-IsAsic vlan mac = elim (Bool-cases (has_value (find vlan asic.vlans))) [
    | inr missing ↦ rw missing v
    | inl there ↦ rw there (elim (Bool-cases (is_usable_mac mac)) [
      | inr refused ↦ rw refused v
      | inl usable ↦ rw usable (record {
        same_keys = v.same_keys;
        ports_fit = v.ports_fit;
        queues_fit = v.queues_fit;
        members_allowed = v.members_allowed;
        members_exist = v.members_exist;
        members_once = v.members_once;
        interfaces_fit =
            insert_or_assign-fits (InterfaceFits asic.vlans) vlan mac asic.router_interfaces
              (there, usable) v.interfaces_fit;
        is_table = v.is_table;
      })
    ])
  ]
