-- ===== src/Network/Vlan.antt =====
-- network/vlan_id.hpp and vlan_tag.hpp: VLAN identifiers and the 802.1Q tag control information.
use hzl_silicon_switch_lab.Base.{
  ℕ, ◌+◌, ◌*◌, ◌/◌, ◌%◌, ◌^◌, ◌≤◌, ◌<◌, ◌≡◌, ap, Bool, true, false, not, ◌||◌, Option, some, none,
  arith, ltb, ◌==◌, if◌then◌else◌, ◌>>=◌, bit_and, bit_or, bit_or_fields, bit_and_low, bit_and_high,
  bit_and-one, Order, ltb_irrefl, ltb_trans, ltb_total,
}

pub record VlanId : Type 0 where
  pub value : ℕ

abbrev pub minimum_value : ℕ
minimum_value = 1

abbrev pub maximum_value : ℕ
maximum_value = 4094

abbrev pub IsVlan : VlanId → Type 0
IsVlan v = (minimum_value ≤ v.value) × (v.value ≤ maximum_value)

-- `VlanId::create`
unfoldable pub create_vlan_id : ℕ → Option VlanId
create_vlan_id value =
    if ltb value minimum_value || ltb maximum_value value
    then none
    else some (record { value = value })

-- `VlanId::operator<`, by which sets and maps of VLANs are ordered.
unfoldable pub vlan_less : VlanId → VlanId → Bool
vlan_less a b = ltb a.value b.value

pub vlan_irrefl : (a : VlanId) → vlan_less a a ≡ false
unfolding vlan_less
vlan_irrefl a = ltb_irrefl a.value

pub vlan_trans :
    (a b c : VlanId) → vlan_less a b ≡ true → vlan_less b c ≡ true → vlan_less a c ≡ true
unfolding vlan_less
vlan_trans a b c = ltb_trans a.value b.value c.value

pub vlan_total : (a b : VlanId) → vlan_less a b ≡ false → vlan_less b a ≡ false → a ≡ b
unfolding vlan_less
vlan_total a b h k =
    ap (λ (n : ℕ). let v : VlanId = record { value = n } in v) (ltb_total a.value b.value h k)

instance abbrev pub vlan_order : Order VlanId
vlan_order = record {
  less = vlan_less;
  less_irrefl = vlan_irrefl;
  less_trans = vlan_trans;
  less_total = vlan_total;
}

pub record VlanTag : Type 0 where
  pub vlan_id : VlanId
  pub priority : ℕ
  pub drop_eligible : Bool

abbrev pub maximum_priority : ℕ
maximum_priority = 7

pub record IsTag (t : VlanTag) : Type 0 where
  pub vlan : IsVlan t.vlan_id
  pub priority_fits : t.priority ≤ maximum_priority

-- `VlanTag::create`
unfoldable pub create_vlan_tag : VlanId → ℕ → Bool → Option VlanTag
create_vlan_tag vlan_id priority drop_eligible =
    if ltb maximum_priority priority
    then none
    else some (record { vlan_id = vlan_id; priority = priority; drop_eligible = drop_eligible })

-- `VlanTag::from_tag_control_information`, over a 16-bit value.
unfoldable pub from_tag_control_information : ℕ → Option VlanTag
unfolding create_vlan_id create_vlan_tag
from_tag_control_information value = do
  vlan_id ← create_vlan_id (bit_and value 0x0fff)
  create_vlan_tag vlan_id (value / 2 ^ 13) (not (bit_and value 0x1000 == 0))

abbrev pub from_bool : Bool → ℕ
from_bool true = 1
from_bool false = 0

-- `VlanTag::tag_control_information`
unfoldable pub tag_control_information : VlanTag → ℕ
tag_control_information t =
    bit_or (bit_or (t.priority * 2 ^ 13) (from_bool t.drop_eligible * 2 ^ 12)) t.vlan_id.value
    % 2 ^ 16

-- The three fields side by side.
pub tag_control_information_lem :
    (t : VlanTag)
    → IsTag t
    → tag_control_information t
      ≡ t.priority * 8192 + from_bool t.drop_eligible * 4096 + t.vlan_id.value
unfolding tag_control_information
tag_control_information_lem t v = ground (
  arith,
  bit_or_fields 13 t.priority (from_bool t.drop_eligible * 4096),
  bit_or_fields 12 (t.priority * 2 + from_bool t.drop_eligible) t.vlan_id.value,
)

-- A valid tag is read back from the control information that it is sent as.
pub from-tag_control_information :
    (t : VlanTag) → IsTag t → from_tag_control_information (tag_control_information t) ≡ some t
unfolding from_tag_control_information
from-tag_control_information t v =
    let n = tag_control_information t in
    ground (
      arith,
      tag_control_information_lem t v,
      bit_and_low 12 n,
      bit_and_high 12 n 1,
      bit_and-one (n / 2 ^ 12),
    )

-- Whatever tag is read from a 16-bit value is valid and is sent as that value.
pub tag_control_information-from :
    (value : ℕ) (t : VlanTag)
    → value < 2 ^ 16
    → from_tag_control_information value ≡ some t
    → IsTag t × (tag_control_information t ≡ value)
unfolding from_tag_control_information
tag_control_information-from value t h e = ground (
  arith,
  tag_control_information_lem t,
  bit_and_low 12 value,
  bit_and_high 12 value 1,
  bit_and-one (value / 2 ^ 12),
)
