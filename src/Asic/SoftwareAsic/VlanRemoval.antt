-- ===== src/Asic/SoftwareAsic/VlanRemoval.antt =====
-- Removing a VLAN keeps the switch well-formed.
use hzl_silicon_switch_lab.Base.{
  ℕ, ◌≡◌, refl, true, false, List, [], arith, has_value, value_or, Bool-cases, inl, inr, equiv,
  equiv_iff, nat_order, if◌then◌else◌, ap,
}
use hzl_silicon_switch_lab.Base.Map.{Map, find, erase, find-erase}
use hzl_silicon_switch_lab.Network.Vlan.{VlanId, vlan_order}
use hzl_silicon_switch_lab.Switching.Forwarding.{contains_port}
use hzl_silicon_switch_lab.Asic.SoftwareAsic.{SoftwareAsic}
use hzl_silicon_switch_lab.Asic.SoftwareAsic.Vlans.{index_members, has_no_members, remove_vlan}
use hzl_silicon_switch_lab.Asic.SoftwareAsic.Members.{
  members_of, members-index_members, members-erase,
}
use hzl_silicon_switch_lab.Asic.SoftwareAsic.Invariant.{IsAsic}
use hzl_silicon_switch_lab.Asic.SoftwareAsic.VlanChanges.{
  with_members-IsAsic, indexed-IsAsic, with_vlans-IsAsic,
}

module _ (asic : SoftwareAsic) (v : IsAsic asic) where
  abbrev without_list : VlanId → Map VlanId (List ℕ)
  without_list vlan = erase vlan (index_members vlan asic.vlan_members)

  members-without_list :
      (vlan w : VlanId)
      → members_of (without_list vlan) w
        ≡ (if equiv w vlan then [] else members_of asic.vlan_members w)
  members-without_list vlan w =
      rw
        (
          members-erase vlan w (index_members vlan asic.vlan_members),
          members-index_members vlan w asic.vlan_members,
        )
        refl

  -- The members that are left are those of the other VLANs.
  left_member :
      (vlan w : VlanId) (p : ℕ)
      → contains_port p (members_of (without_list vlan) w) ≡ true
      → (equiv w vlan ≡ false) × (contains_port p (members_of asic.vlan_members w) ≡ true)
  unfolding contains_port
  left_member vlan w p c = ground (arith, rw (members-without_list vlan w) at c)

  without_list-IsAsic : (vlan : VlanId) → IsAsic (record asic { vlan_members = without_list vlan })
  without_list-IsAsic vlan =
      with_members-IsAsic asic v (without_list vlan)
        (λ w. rw (members-without_list vlan w) (elim (Bool-cases (equiv w vlan)) [
          | inl same ↦ rw same tt
          | inr other ↦ rw other (v.members_once w)
        ]))
        (λ w p c.
          let d = (left_member vlan w p c).1 in (v.members_allowed w p d, v.members_exist w p d))

  erased_vlan :
      (vlan w : VlanId)
      → equiv w vlan ≡ false
      → has_value (find w asic.vlans) ≡ true
      → has_value (find w (erase vlan asic.vlans)) ≡ true
  erased_vlan vlan w other h = ground (arith, find-erase vlan w asic.vlans, other, h)

erased-IsAsic :
    (asic : SoftwareAsic) (v : IsAsic asic) (vlan : VlanId)
    → has_value (find vlan asic.router_interfaces) ≡ false
    → IsAsic
        (record asic { vlan_members = without_list asic v vlan; vlans = erase vlan asic.vlans })
erased-IsAsic asic v vlan no_interface =
    with_vlans-IsAsic (record asic { vlan_members = without_list asic v vlan })
      (without_list-IsAsic asic v vlan) (erase vlan asic.vlans)
      (λ w p c.
        let (other, d) = left_member asic v vlan w p c in
        erased_vlan asic v vlan w other (v.members_exist w p d))
      (λ w h i. elim (Bool-cases (equiv w vlan)) [
        | inl same ↦ ground (
          arith,
          ap (λ x. find x asic.router_interfaces) ((equiv_iff w vlan).0 same),
          i,
          no_interface,
        )
        | inr other ↦ erased_vlan asic v vlan w other h
      ])

pub remove_vlan-IsAsic :
    (asic : SoftwareAsic) → IsAsic asic → (vlan : VlanId) → IsAsic (remove_vlan asic vlan).0
unfolding remove_vlan
remove_vlan-IsAsic asic v vlan = elim (Bool-cases (has_value (find vlan asic.vlans))) [
  | inr missing ↦ rw missing v
  | inl there ↦
      elim (Bool-cases
        (has_no_members (value_or (find vlan (index_members vlan asic.vlan_members)) []))) [
          | inr occupied ↦ rw (there, occupied) (indexed-IsAsic asic v vlan)
          | inl empty ↦ elim (Bool-cases (has_value (find vlan asic.router_interfaces))) [
            | inl interface ↦ rw (there, empty, interface) (indexed-IsAsic asic v vlan)
            | inr no_interface ↦
                rw (there, empty, no_interface) (erased-IsAsic asic v vlan no_interface)
          ]
        ]
]
