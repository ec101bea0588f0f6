-- ===== src/Network/Ipv4Prefix.antt =====
-- network/ipv4_prefix.hpp: a network address with the number of its leading bits.
pub mod Range
pub mod Text
use hzl_silicon_switch_lab.Base.{
  ℕ, ◌+◌, ◌-◌, ◌*◌, ◌/◌, ◌%◌, ◌^◌, ◌≤◌, ◌<◌, ◌≡◌, refl, ap, ◌↔◌, Bool, true, false, ◌&&◌, Option,
  none, some, arith, ltb, ◌==◌, if◌then◌else◌, bit_and, bit_or, &&_iff, ==_iff,
}
use hzl_silicon_switch_lab.Network.Ipv4Address.{Ipv4Address, IsAddress, address_eq, address_eq_iff}

pub record Ipv4Prefix : Type 0 where
  pub network_address : Ipv4Address
  pub length : ℕ

abbrev pub maximum_length : ℕ
maximum_length = 32

-- `Ipv4Prefix::mask_value`; the shift drops what leaves 32 bits.
unfoldable pub mask_value : ℕ → ℕ
mask_value length = if length == 0 then 0 else 0xffffffff * 2 ^ (maximum_length - length) % 2 ^ 32

-- `Ipv4Prefix::create`
unfoldable pub create_prefix : Ipv4Address → ℕ → Option Ipv4Prefix
create_prefix address length =
    if ltb maximum_length length
    then none
    else some (record {
      network_address = record { value = bit_and address.value (mask_value length) };
      length = length;
    })

-- `Ipv4Prefix::last_address`
unfoldable pub last_address : Ipv4Prefix → Ipv4Address
last_address p = record {
  value = bit_or p.network_address.value (0xffffffff - mask_value p.length);
}

-- `Ipv4Prefix::contains`
unfoldable pub contains : Ipv4Prefix → Ipv4Address → Bool
contains p address = bit_and address.value (mask_value p.length) == p.network_address.value

-- `Ipv4Prefix::operator==`
unfoldable pub prefix_eq : Ipv4Prefix → Ipv4Prefix → Bool
prefix_eq a b = address_eq a.network_address b.network_address && a.length == b.length

pub prefix_eq_iff : (a b : Ipv4Prefix) → (prefix_eq a b ≡ true) ↔ (a ≡ b)
unfolding prefix_eq
prefix_eq_iff a b = (
  λ h. ground (arith, address_eq_iff a.network_address b.network_address),
  λ e. rw e (ground (arith, address_eq_iff b.network_address b.network_address)),
)

-- What `create` makes: at most 32 bits, and no bit set past them.
pub record IsPrefix (p : Ipv4Prefix) : Type 0 where
  pub short : p.length ≤ maximum_length
  pub address : IsAddress p.network_address
  pub canonical : p.network_address.value % 2 ^ (maximum_length - p.length) ≡ 0
