-- ===== src/Network/Ipv4Address.antt =====
-- network/ipv4_address.hpp: an address is the 32-bit number of its four octets.
pub mod Text
use hzl_silicon_switch_lab.Base.{
  ℕ, ◌+◌, ◌*◌, ◌/◌, ◌%◌, ◌^◌, ◌≤◌, ◌<◌, ◌≡◌, refl, ap, ◌↔◌, Bool, true, false, arith, ltb, ◌==◌,
  bit_and, bit_or, bit_or_fields, bit_and_low, List, [], ◌∷◌, ltb_irrefl, ltb_trans, ltb_total,
  Order, ==_iff, bit_and_high,
}

pub record Ipv4Address : Type 0 where
  pub value : ℕ

abbrev pub IsAddress : Ipv4Address → Type 0
IsAddress a = a.value < 2 ^ 32

-- `Ipv4Address(Octets)`
unfoldable pub of_octets : ℕ → ℕ → ℕ → ℕ → Ipv4Address
of_octets a b c d = record {
  value = bit_or (bit_or (bit_or (a * 2 ^ 24) (b * 2 ^ 16)) (c * 2 ^ 8)) d;
}

-- `Ipv4Address::octets`
unfoldable pub octets : Ipv4Address → ℕ × ℕ × ℕ × ℕ
octets a = (
  a.value / 2 ^ 24 % 256,
  bit_and (a.value / 2 ^ 16) 0xff,
  bit_and (a.value / 2 ^ 8) 0xff,
  bit_and a.value 0xff,
)

-- `Ipv4Address::is_unspecified`
unfoldable pub is_unspecified : Ipv4Address → Bool
is_unspecified a = a.value == 0

-- `Ipv4Address::is_loopback`
unfoldable pub is_loopback : Ipv4Address → Bool
is_loopback a = bit_and a.value 0xff000000 == 0x7f000000

-- `Ipv4Address::is_multicast`
unfoldable pub is_multicast : Ipv4Address → Bool
is_multicast a = bit_and a.value 0xf0000000 == 0xe0000000

-- `Ipv4Address::is_limited_broadcast`
unfoldable pub is_limited_broadcast : Ipv4Address → Bool
is_limited_broadcast a = a.value == 0xffffffff

-- `Ipv4Address::operator==`
unfoldable pub address_eq : Ipv4Address → Ipv4Address → Bool
address_eq a b = a.value == b.value

-- `Ipv4Address::operator<`
unfoldable pub address_less : Ipv4Address → Ipv4Address → Bool
address_less a b = ltb a.value b.value

pub address_of_value : (a b : Ipv4Address) → a.value ≡ b.value → a ≡ b
address_of_value a b e = ground arith

pub address_eq_iff : (a b : Ipv4Address) → (address_eq a b ≡ true) ↔ (a ≡ b)
unfolding address_eq
address_eq_iff a b = (
  λ h. address_of_value a b ((==_iff a.value b.value).0 h),
  λ e. (==_iff a.value b.value).1 (ap (λ (t : Ipv4Address). t.value) e),
)

pub address_irrefl : (a : Ipv4Address) → address_less a a ≡ false
unfolding address_less
address_irrefl a = ltb_irrefl a.value

pub address_trans :
    (a b c : Ipv4Address)
    → address_less a b ≡ true
    → address_less b c ≡ true
    → address_less a c ≡ true
unfolding address_less
address_trans a b c = ltb_trans a.value b.value c.value

pub address_total :
    (a b : Ipv4Address) → address_less a b ≡ false → address_less b a ≡ false → a ≡ b
unfolding address_less
address_total a b h k = address_of_value a b (ltb_total a.value b.value h k)

instance abbrev pub address_order : Order Ipv4Address
address_order = record {
  less = address_less;
  less_irrefl = address_irrefl;
  less_trans = address_trans;
  less_total = address_total;
}

-- The octets side by side.
pub of_octets_lem :
    (a b c d : ℕ)
    → b < 256
    → c < 256
    → d < 256
    → (of_octets a b c d).value ≡ a * 2 ^ 24 + b * 2 ^ 16 + c * 2 ^ 8 + d
unfolding of_octets
of_octets_lem a b c d hb hc hd = ground (
  arith,
  bit_or_fields 24 a (b * 2 ^ 16),
  bit_or_fields 16 (a * 256 + b) (c * 2 ^ 8),
  bit_or_fields 8 (a * 65536 + b * 256 + c) d,
)

pub octets_lem :
    (a : Ipv4Address)
    → IsAddress a
    → octets a ≡ (a.value / 2 ^ 24, a.value / 2 ^ 16 % 256, a.value / 2 ^ 8 % 256, a.value % 256)
unfolding octets
octets_lem a h = ground (
  arith,
  bit_and_low 8 a.value,
  bit_and_low 8 (a.value / 2 ^ 8),
  bit_and_low 8 (a.value / 2 ^ 16),
)
