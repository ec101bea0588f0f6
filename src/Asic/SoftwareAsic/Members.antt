-- ===== src/Asic/SoftwareAsic/Members.antt =====
-- The lists of the VLANs' members: what the operations of the ASIC make of them.
use hzl_silicon_switch_lab.Base.{
  ℕ, ◌≡◌, refl, true, not, ◌&&◌, List, [], ◌∷◌, arith, ◌==◌, if◌then◌else◌, has_value, value_or,
  Bool-cases, inl, inr, equiv, equiv_iff,
}
use hzl_silicon_switch_lab.Base.Map.{
  Map, find, assign, find-emplace, find-assign, erase, find-erase,
}
use hzl_silicon_switch_lab.Network.Vlan.{VlanId, vlan_order}
use hzl_silicon_switch_lab.Switching.Forwarding.{contains_port}
use hzl_silicon_switch_lab.Switching.Forwarding.Outputs.{Distinct}
use hzl_silicon_switch_lab.Asic.SoftwareAsic.{remove_member, remove_from_members}
use hzl_silicon_switch_lab.Asic.SoftwareAsic.Vlans.{index_members}

-- The members of a VLAN, none for a VLAN that has no list.
unfoldable pub members_of : Map VlanId (List ℕ) → VlanId → List ℕ
members_of members vlan = value_or (find vlan members) []

pub contains-remove_member :
    (port q : ℕ) (members : List ℕ)
    → contains_port q (remove_member port members) ≡ (contains_port q members && not (q == port))
unfolding contains_port remove_member
contains-remove_member port q [] = refl
contains-remove_member port q (m ∷ members) = ground (arith, contains-remove_member port q members)

pub remove_member-Distinct :
    (port : ℕ) (members : List ℕ) → Distinct members → Distinct (remove_member port members)
unfolding remove_member
remove_member-Distinct port [] d = tt
remove_member-Distinct port (m ∷ members) d = elim (Bool-cases (m == port)) [
  | inl same ↦ rw same (remove_member-Distinct port members d.1)
  | inr other ↦ rw other (
    ground (arith, contains-remove_member port m members, d.0),
    remove_member-Distinct port members d.1,
  )
]

pub members-remove_from_members :
    (port : ℕ) (vlan : VlanId) (members : Map VlanId (List ℕ))
    → members_of (remove_from_members port members) vlan
      ≡ remove_member port (members_of members vlan)
unfolding members_of remove_from_members remove_member find
members-remove_from_members port vlan [] = refl
members-remove_from_members port vlan ((v, list) ∷ members) = elim (Bool-cases (equiv vlan v)) [
  | inl same ↦ rw same refl
  | inr other ↦ rw other (members-remove_from_members port vlan members)
]

pub members-index_members :
    (vlan v : VlanId) (members : Map VlanId (List ℕ))
    → members_of (index_members vlan members) v ≡ members_of members v
unfolding members_of index_members
members-index_members vlan v members =
    ground (arith, find-emplace vlan v [] members, equiv_iff v vlan)

pub has-index_members :
    (vlan : VlanId) (members : Map VlanId (List ℕ))
    → has_value (find vlan (index_members vlan members)) ≡ true
unfolding index_members
has-index_members vlan members =
    ground (arith, find-emplace vlan vlan [] members, equiv_iff vlan vlan)

-- A list that is written for a VLAN that has one.
pub members-assign :
    (vlan v : VlanId) (list : List ℕ) (members : Map VlanId (List ℕ))
    → has_value (find vlan members) ≡ true
    → members_of (assign vlan list members) v
      ≡ (if equiv v vlan then list else members_of members v)
unfolding members_of
members-assign vlan v list members present =
    ground (arith, find-assign vlan v list members, present)

pub members-erase :
    (vlan v : VlanId) (members : Map VlanId (List ℕ))
    → members_of (erase vlan members) v ≡ (if equiv v vlan then [] else members_of members v)
unfolding members_of
members-erase vlan v members = ground (arith, find-erase vlan v members)
