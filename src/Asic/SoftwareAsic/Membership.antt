-- ===== src/Asic/SoftwareAsic/Membership.antt =====
-- Adding a member to a VLAN keeps the switch well-formed.
use hzl_silicon_switch_lab.Base.{
  ℕ, ◌≡◌, refl, true, false, List, [], ◌∷◌, ◌++◌, some, arith, has_value, value_or, Bool-cases,
  Option-cases, inl, inr, equiv, equiv_iff, nat_order, ◌∙◌, sym, if◌then◌else◌, ap,
}
use hzl_silicon_switch_lab.Base.Map.{Map, find, assign}
use hzl_silicon_switch_lab.Network.Vlan.{VlanId, vlan_order}
use hzl_silicon_switch_lab.Switching.VlanPort.{allows}
use hzl_silicon_switch_lab.Switching.VirtualPort.{VirtualPort}
use hzl_silicon_switch_lab.Switching.Forwarding.{contains_port}
use hzl_silicon_switch_lab.Switching.Forwarding.Outputs.{
  Distinct, contains_port-append, Distinct-append,
}
use hzl_silicon_switch_lab.Asic.SoftwareAsic.{SoftwareAsic}
use hzl_silicon_switch_lab.Asic.SoftwareAsic.Vlans.{
  index_members, add_found_member, add_vlan_member,
}
use hzl_silicon_switch_lab.Asic.SoftwareAsic.Members.{
  members_of, members-index_members, has-index_members, members-assign,
}
use hzl_silicon_switch_lab.Asic.SoftwareAsic.Invariant.{IsAsic, port_allows}
use hzl_silicon_switch_lab.Asic.SoftwareAsic.VlanChanges.{with_members-IsAsic, indexed-IsAsic}

module _ (asic : SoftwareAsic) (v : IsAsic asic) where
  -- A list that a VLAN is given when it is written.
  abbrev with_list : VlanId → List ℕ → Map VlanId (List ℕ)
  with_list vlan list = assign vlan list (index_members vlan asic.vlan_members)

  members-with_list :
      (vlan w : VlanId) (list : List ℕ)
      → members_of (with_list vlan list) w
        ≡ (if equiv w vlan then list else members_of asic.vlan_members w)
  members-with_list vlan w list =
      rw
        (
          members-assign vlan w list (index_members vlan asic.vlan_members)
              (has-index_members vlan asic.vlan_members),
          members-index_members vlan w asic.vlan_members,
        )
        refl

  added_member :
      (vlan : VlanId) (p q : ℕ)
      → has_value (find vlan asic.vlans) ≡ true
      → port_allows vlan (find p asic.ports) ≡ true
      → contains_port p (members_of asic.vlan_members vlan) ≡ false
      → contains_port q (members_of asic.vlan_members vlan ++ (p ∷ [])) ≡ true
      → (port_allows vlan (find q asic.ports) ≡ true) × (has_value (find vlan asic.vlans) ≡ true)
  unfolding contains_port
  added_member vlan p q there ok new c =
      elim (Bool-cases (contains_port q (members_of asic.vlan_members vlan))) [
        | inl before ↦ (v.members_allowed vlan q before, there)
        | inr not_before ↦
            let same : p ≡ q = ground (
              arith,
              contains_port-append q (members_of asic.vlan_members vlan) (p ∷ []),
              c,
              not_before,
            ) in
            (ap (λ x. port_allows vlan (find x asic.ports)) (sym same) ∙ ok, there)
      ]

  joined-IsAsic :
      (vlan : VlanId) (p : ℕ)
      → has_value (find vlan asic.vlans) ≡ true
      → port_allows vlan (find p asic.ports) ≡ true
      → contains_port p (members_of asic.vlan_members vlan) ≡ false
      → IsAsic (record asic {
        vlan_members = with_list vlan (members_of asic.vlan_members vlan ++ (p ∷ []));
      })
  joined-IsAsic vlan p there ok new =
      let list = members_of asic.vlan_members vlan ++ (p ∷ []) in
      with_members-IsAsic asic v (with_list vlan list)
        (λ w. rw (members-with_list vlan w list) (once w))
        (λ w q c. fits w q (rw (members-with_list vlan w list) at c))
    where
      once :
          (w : VlanId)
          → Distinct (
              if equiv w vlan
              then members_of asic.vlan_members vlan ++ (p ∷ [])
              else members_of asic.vlan_members w)
      once w = elim (Bool-cases (equiv w vlan)) [
        | inl same ↦
            rw same
              (Distinct-append (members_of asic.vlan_members vlan) p (v.members_once vlan) new)
        | inr other ↦ rw other (v.members_once w)
      ]

      fits :
          (w : VlanId) (q : ℕ)
          → contains_port q (
              if equiv w vlan
              then members_of asic.vlan_members vlan ++ (p ∷ [])
              else members_of asic.vlan_members w)
            ≡ true
          → (port_allows w (find q asic.ports) ≡ true) × (has_value (find w asic.vlans) ≡ true)
      fits w q c = elim (Bool-cases (equiv w vlan)) [
        | inl same ↦
            rw ((equiv_iff w vlan).0 same) (added_member vlan p q there ok new (rw same at c))
        | inr other ↦ let d = rw other at c in (v.members_allowed w q d, v.members_exist w q d)
      ]

  found-IsAsic :
      (vlan : VlanId) (port : ℕ) (existing : VirtualPort)
      → has_value (find vlan asic.vlans) ≡ true
      → find port asic.ports ≡ some existing
      → IsAsic (add_found_member asic vlan port (some existing)).0
  unfolding add_found_member members_of
  found-IsAsic vlan port existing there e =
      let same : value_or (find vlan (index_members vlan asic.vlan_members)) []
          ≡ members_of asic.vlan_members vlan =
        members-index_members vlan vlan asic.vlan_members in
      rw same (elim (Bool-cases (contains_port port (members_of asic.vlan_members vlan))) [
        | inl inside ↦ rw inside (indexed-IsAsic asic v vlan)
        | inr outside ↦ rw outside (elim (Bool-cases (allows existing.vlan_config vlan)) [
          | inr refused ↦ rw refused (indexed-IsAsic asic v vlan)
          | inl allowed ↦
              rw allowed
                (joined-IsAsic vlan port there (unfold port_allows in rw e allowed) outside)
        ])
      ])

  pub add_vlan_member-IsAsic :
      (vlan : VlanId) (port : ℕ) → IsAsic (add_vlan_member asic vlan port).0
  unfolding add_vlan_member add_found_member
  add_vlan_member-IsAsic vlan port = elim (Bool-cases (has_value (find vlan asic.vlans))) [
    | inr missing ↦ rw missing v
    | inl there ↦ elim (Option-cases (find port asic.ports)) [
      | inl absent ↦ rw (there, absent) v
      | inr (existing, e) ↦ rw (there, e) (found-IsAsic vlan port existing there e)
    ]
  ]
