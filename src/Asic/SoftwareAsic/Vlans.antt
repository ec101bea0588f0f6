-- ===== src/Asic/SoftwareAsic/Vlans.antt =====
-- asic/software_asic.cpp: the VLANs, their members and their router interfaces.
use hzl_silicon_switch_lab.Base.{
  ℕ, Bool, true, false, not, ◌||◌, List, [], ◌∷◌, ◌++◌, Option, none, some, if◌then◌else◌,
  has_value, value_or, nat_order,
}
use hzl_silicon_switch_lab.Base.Map.{Map, find, emplace, assign, insert_or_assign, erase}
use hzl_silicon_switch_lab.Network.Vlan.{VlanId, vlan_order}
use hzl_silicon_switch_lab.Network.MacAddress.{MacAddress, is_usable_mac}
use hzl_silicon_switch_lab.Switching.VlanPort.{allows}
use hzl_silicon_switch_lab.Switching.Forwarding.{contains_port}
use hzl_silicon_switch_lab.Switching.VirtualPort.{VirtualPort}
use hzl_silicon_switch_lab.Asic.SoftwareAsic.{
  SoftwareAsic, AsicStatus, success, already_exists, not_found, invalid_argument,
  dependency_missing,
}

-- `SoftwareAsic::create_vlan`
unfoldable pub create_vlan : SoftwareAsic → VlanId → SoftwareAsic × AsicStatus
create_vlan asic vlan = (
  record asic { vlans = emplace vlan tt asic.vlans },
  if has_value (find vlan asic.vlans) then already_exists else success,
)

-- `vlan_members_[vlan]`, which adds an empty list for a VLAN that is not there.
unfoldable pub index_members : VlanId → Map VlanId (List ℕ) → Map VlanId (List ℕ)
index_members vlan members =
    if has_value (find vlan members) then members else emplace vlan [] members

unfoldable pub has_no_members : List ℕ → Bool
has_no_members [] = true
has_no_members (member ∷ members) = false

-- `SoftwareAsic::remove_vlan`
unfoldable pub remove_vlan : SoftwareAsic → VlanId → SoftwareAsic × AsicStatus
unfolding index_members has_no_members
remove_vlan asic vlan =
    let indexed = index_members vlan asic.vlan_members in
    if not (has_value (find vlan asic.vlans))
    then (asic, not_found)
    else if not (has_no_members (value_or (find vlan indexed) []))
        || has_value (find vlan asic.router_interfaces)
    then (record asic { vlan_members = indexed }, dependency_missing)
    else (record asic { vlan_members = erase vlan indexed; vlans = erase vlan asic.vlans }, success)

-- What is left of `add_vlan_member` once the port has been looked up.
unfoldable pub add_found_member :
    SoftwareAsic → VlanId → ℕ → Option VirtualPort → SoftwareAsic × AsicStatus
add_found_member asic vlan port none = (asic, dependency_missing)
add_found_member asic vlan port (some existing) =
    let indexed = index_members vlan asic.vlan_members in
    let members = value_or (find vlan indexed) [] in
    if contains_port port members
    then (record asic { vlan_members = indexed }, already_exists)
    else if not (allows existing.vlan_config vlan)
    then (record asic { vlan_members = indexed }, invalid_argument)
    else (record asic { vlan_members = assign vlan (members ++ (port ∷ [])) indexed }, success)

-- `SoftwareAsic::add_vlan_member`
unfoldable pub add_vlan_member : SoftwareAsic → VlanId → ℕ → SoftwareAsic × AsicStatus
unfolding add_found_member
add_vlan_member asic vlan port =
    if not (has_value (find vlan asic.vlans))
    then (asic, dependency_missing)
    else add_found_member asic vlan port (find port asic.ports)

-- `valid_router_mac`
unfoldable pub valid_router_mac : MacAddress → Bool
valid_router_mac mac = is_usable_mac mac

-- `SoftwareAsic::set_router_interface`
unfoldable pub set_router_interface : SoftwareAsic → VlanId → MacAddress → SoftwareAsic × AsicStatus
unfolding valid_router_mac
set_router_interface asic vlan mac =
    if not (has_value (find vlan asic.vlans))
    then (asic, dependency_missing)
    else if not (valid_router_mac mac)
    then (asic, invalid_argument)
    else (
      record asic { router_interfaces = insert_or_assign vlan mac asic.router_interfaces },
      success,
    )
