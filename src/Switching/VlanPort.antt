-- ===== src/Switching/VlanPort.antt =====
-- switching/vlan_port_config and vlan_ingress: the VLANs of a port, and what it makes of a frame.
pub mod Ingress
use hzl_silicon_switch_lab.Base.{
  ℕ, ◌≡◌, refl, Bool, true, false, ◌&&◌, ◌||◌, not, Option, none, some, List, [], ◌∷◌,
  if◌then◌else◌, has_value, Order,
}
use hzl_silicon_switch_lab.Base.Map.{Map, find}
use hzl_silicon_switch_lab.Network.Vlan.{VlanId, VlanTag, vlan_order}
use hzl_silicon_switch_lab.Network.EthernetFrame.{EthernetFrame}

pub data VlanPortMode : Type 0 where
  access trunk : VlanPortMode

-- `std::set<VlanId>`
abbrev pub VlanSet : Type 0
VlanSet = Map VlanId (Unit {0})

pub record VlanPortConfig : Type 0 where
  pub mode : VlanPortMode
  pub access_vlan : Option VlanId
  pub allowed_vlans : VlanSet
  pub native_vlan : Option VlanId

-- `VlanPortConfig::access`
unfoldable pub access_config : VlanId → VlanPortConfig
access_config vlan = record {
  mode = access;
  access_vlan = some vlan;
  allowed_vlans = (vlan, tt) ∷ [];
  native_vlan = none;
}

is_empty : VlanSet → Bool
is_empty [] = true
is_empty (v ∷ vs) = false

-- The native VLAN is given and not among the allowed.
native_is_foreign : VlanSet → Option VlanId → Bool
native_is_foreign allowed_vlans none = false
native_is_foreign allowed_vlans (some vlan) = not (has_value (find vlan allowed_vlans))

-- `VlanPortConfig::trunk`
unfoldable pub trunk_config : VlanSet → Option VlanId → Option VlanPortConfig
unfolding is_empty native_is_foreign
trunk_config allowed_vlans native_vlan =
    if is_empty allowed_vlans || native_is_foreign allowed_vlans native_vlan
    then none
    else some (record {
      mode = trunk;
      access_vlan = none;
      allowed_vlans = allowed_vlans;
      native_vlan = native_vlan;
    })

-- `VlanPortConfig::is_access`
unfoldable pub is_access : VlanPortMode → Bool
is_access access = true
is_access trunk = false

-- `VlanPortConfig::allows`
unfoldable pub allows : VlanPortConfig → VlanId → Bool
allows config vlan = has_value (find vlan config.allowed_vlans)

-- What the two factories ensure.
abbrev pub AllowsNative : VlanPortConfig → Option VlanId → Type 0
AllowsNative config none = Unit {0}
AllowsNative config (some vlan) = allows config vlan ≡ true

abbrev pub ModeFits : VlanPortConfig → VlanPortMode → Type 0
ModeFits config access =
    (vlan : VlanId) × (config.access_vlan ≡ some vlan) × (allows config vlan ≡ true)
ModeFits config trunk = AllowsNative config config.native_vlan

abbrev pub IsConfig : VlanPortConfig → Type 0
IsConfig config = ModeFits config config.mode
