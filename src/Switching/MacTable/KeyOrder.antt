-- ===== src/Switching/MacTable/KeyOrder.antt =====
-- `MacTable::Key` and `KeyLess`: the order of the table's keys.
use hzl_silicon_switch_lab.Base.{◌≡◌, Bool, true, false, arith, if◌then◌else◌, not, Order, ◌==◌}
use hzl_silicon_switch_lab.Network.Vlan.{VlanId, vlan_less}
use hzl_silicon_switch_lab.Network.MacAddress.{
  MacAddress, mac_less, mac_irrefl, mac_trans, mac_total,
}

pub record Key : Type 0 where
  pub vlan : VlanId
  pub mac_address : MacAddress

-- `MacTable::KeyLess::operator()`
unfoldable pub key_less : Key → Key → Bool
unfolding vlan_less
key_less left right =
    if not (left.vlan.value == right.vlan.value)
    then vlan_less left.vlan right.vlan
    else mac_less left.mac_address right.mac_address

pub key_irrefl : (a : Key) → key_less a a ≡ false
unfolding key_less
key_irrefl a = ground (arith, mac_irrefl a.mac_address)

pub key_trans : (a b c : Key) → key_less a b ≡ true → key_less b c ≡ true → key_less a c ≡ true
unfolding key_less
key_trans a b c h k = ground (arith, mac_trans a.mac_address b.mac_address c.mac_address)

-- Keys that neither precede one another have one VLAN and one address.
pub key_total : (a b : Key) → key_less a b ≡ false → key_less b a ≡ false → a ≡ b
unfolding key_less
key_total a b h k = ground (arith, mac_total a.mac_address b.mac_address)

instance abbrev pub key_order : Order Key
key_order = record {
  less = key_less;
  less_irrefl = key_irrefl;
  less_trans = key_trans;
  less_total = key_total;
}
