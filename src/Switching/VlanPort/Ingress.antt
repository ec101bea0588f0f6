-- ===== src/Switching/VlanPort/Ingress.antt =====
-- switching/vlan_ingress.cpp: the VLAN of a frame that arrives at a port.
use mathlib.Core.Path.{subst}
use hzl_silicon_switch_lab.Base.{
  ◌≡◌, refl, true, false, Option, none, some, has_value, if◌then◌else◌, Bool-cases, some_inj,
  equiv_refl, ◌⊎◌, inl, inr, [], ◌∷◌,
}
use hzl_silicon_switch_lab.Base.Map.{find}
use hzl_silicon_switch_lab.Network.Vlan.{VlanId, VlanTag, vlan_order}
use hzl_silicon_switch_lab.Network.EthernetFrame.{EthernetFrame}
use hzl_silicon_switch_lab.Switching.VlanPort.{
  VlanPortConfig, VlanPortMode, access, trunk, VlanSet, access_config, trunk_config, is_access,
  allows, IsConfig, AllowsNative, ModeFits,
}

pub data VlanIngressDropReason : Type 0 where
  tagged_frame_on_access_port : VlanIngressDropReason
  untagged_frame_without_native_vlan : VlanIngressDropReason
  vlan_not_allowed : VlanIngressDropReason

pub data VlanIngressResult : Type 0 where
  accepted_ingress : VlanId → VlanIngressResult
  dropped_ingress : VlanIngressDropReason → VlanIngressResult
  -- The access VLAN of an access port, or the port's mode, is not as its factories make it.
  undefined_ingress : VlanIngressResult

-- The branch for access ports.
ingress_at_access : Option VlanTag → Option VlanId → VlanIngressResult
ingress_at_access (some tag) access_vlan = dropped_ingress tagged_frame_on_access_port
ingress_at_access none none = undefined_ingress
ingress_at_access none (some vlan) = accepted_ingress vlan

-- The branch for trunk ports.
ingress_at_trunk : VlanPortConfig → Option VlanTag → Option VlanId → VlanIngressResult
ingress_at_trunk config none none = dropped_ingress untagged_frame_without_native_vlan
ingress_at_trunk config none (some vlan) = accepted_ingress vlan
ingress_at_trunk config (some tag) native_vlan =
    if allows config tag.vlan_id
    then accepted_ingress tag.vlan_id
    else dropped_ingress vlan_not_allowed

-- `classify_vlan_ingress`
unfoldable pub classify_vlan_ingress : EthernetFrame → VlanPortConfig → VlanIngressResult
unfolding ingress_at_access ingress_at_trunk
classify_vlan_ingress frame config =
    if is_access config.mode
    then ingress_at_access frame.vlan_tag config.access_vlan
    else ingress_at_trunk config frame.vlan_tag config.native_vlan

-- The factories make configurations that are as described.
pub access_config-IsConfig : (vlan : VlanId) → IsConfig (access_config vlan)
unfolding access_config allows find
access_config-IsConfig vlan = (vlan, refl, rw (equiv_refl vlan))

pub trunk_config-IsConfig :
    (allowed : VlanSet) (native : Option VlanId) (config : VlanPortConfig)
    → trunk_config allowed native ≡ some config
    → IsConfig config
unfolding trunk_config
trunk_config-IsConfig [] native config e = cc
trunk_config-IsConfig (x ∷ allowed) none config e = subst IsConfig (some_inj e) tt
trunk_config-IsConfig (x ∷ allowed) (some vlan) config e =
    elim (Bool-cases (has_value (find vlan (x ∷ allowed)))) [
      | inl found ↦ subst IsConfig (some_inj (rw found at e)) (unfold allows in found)
      | inr missing ↦ cc (rw missing at e)
    ]

-- What each kind of port accepts, and why it drops the rest.
abbrev pub IngressSpec : EthernetFrame → VlanPortConfig → VlanIngressResult → Type 0
IngressSpec frame config (accepted_ingress vlan) =
    (allows config vlan ≡ true)
    × ((config.mode ≡ access) × (frame.vlan_tag ≡ none) × (config.access_vlan ≡ some vlan)
        ⊎ ((config.mode ≡ trunk) × (frame.vlan_tag ≡ none) × (config.native_vlan ≡ some vlan)
            ⊎ (config.mode ≡ trunk)
              × ((tag : VlanTag) × (frame.vlan_tag ≡ some tag) × (tag.vlan_id ≡ vlan))))
IngressSpec frame config (dropped_ingress tagged_frame_on_access_port) =
    (config.mode ≡ access) × (has_value frame.vlan_tag ≡ true)
IngressSpec frame config (dropped_ingress untagged_frame_without_native_vlan) =
    (config.mode ≡ trunk) × (frame.vlan_tag ≡ none) × (config.native_vlan ≡ none)
IngressSpec frame config (dropped_ingress vlan_not_allowed) =
    (config.mode ≡ trunk)
    × ((tag : VlanTag) × (frame.vlan_tag ≡ some tag) × (allows config tag.vlan_id ≡ false))
IngressSpec frame config undefined_ingress = ⊥

module _ (frame : EthernetFrame) (config : VlanPortConfig) where
  at_access :
      (tag : Option VlanTag) (access_vlan : Option VlanId)
      → frame.vlan_tag ≡ tag
      → config.access_vlan ≡ access_vlan
      → config.mode ≡ access
      → (vlan : VlanId) × (access_vlan ≡ some vlan) × (allows config vlan ≡ true)
      → IngressSpec frame config (ingress_at_access tag access_vlan)
  unfolding ingress_at_access
  at_access (some tag) access_vlan e a m v = (m, rw e)
  at_access none none e a m (vlan, absent, ok) = cc
  at_access none (some w) e a m (vlan, same, ok) = (rw (some_inj same) ok, inl (m, e, a))

  at_trunk :
      (tag : Option VlanTag) (native : Option VlanId)
      → frame.vlan_tag ≡ tag
      → config.native_vlan ≡ native
      → config.mode ≡ trunk
      → AllowsNative config native
      → IngressSpec frame config (ingress_at_trunk config tag native)
  unfolding ingress_at_trunk
  at_trunk none none e n m v = (m, e, n)
  at_trunk none (some vlan) e n m v = (v, inr (inl (m, e, n)))
  at_trunk (some tag) native e n m v = elim (Bool-cases (allows config tag.vlan_id)) [
    | inl ok ↦ rw ok (ok, inr (inr (m, (tag, e, refl))))
    | inr refused ↦ rw refused (m, (tag, e, refused))
  ]

  at_mode :
      (mode : VlanPortMode)
      → config.mode ≡ mode
      → ModeFits config mode
      → IngressSpec frame config (
          if is_access mode
          then ingress_at_access frame.vlan_tag config.access_vlan
          else ingress_at_trunk config frame.vlan_tag config.native_vlan)
  unfolding is_access
  at_mode access m v = at_access frame.vlan_tag config.access_vlan refl refl m v
  at_mode trunk m v = at_trunk frame.vlan_tag config.native_vlan refl refl m v

  -- With a configuration that its factories made, an accepted VLAN is one that the port allows, and
  -- is the access VLAN of an untagged frame at an access port, the native VLAN of an untagged frame
  -- at a trunk port, or the VLAN of the tag at a trunk port; each drop reason is given just in its
  -- case, and the access VLAN is never missing.
  pub classify_vlan_ingress_lem :
      IsConfig config → IngressSpec frame config (classify_vlan_ingress frame config)
  unfolding classify_vlan_ingress
  classify_vlan_ingress_lem v = at_mode config.mode refl v
