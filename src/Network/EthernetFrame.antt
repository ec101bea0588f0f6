-- ===== src/Network/EthernetFrame.antt =====
-- network/ethernet_frame.hpp and .cpp: frames with an optional 802.1Q tag, parsed and serialised.
-- An EtherType is its 16-bit number, since a cast makes one from any number.
pub mod Codec
use hzl_silicon_switch_lab.Base.{
  ℕ, ◌+◌, ◌-◌, ◌^◌, ◌≤◌, ◌<◌, ◌≡◌, List, [], Option, none, some, Bool, ltb, ◌==◌, if◌then◌else◌,
  ◌>>=◌, value_or, length, get_or, drop, copy_to, replicate, All, has_value,
}
use hzl_silicon_switch_lab.Wire.{IsByte, read_big_endian, write_big_endian}
use hzl_silicon_switch_lab.Network.Vlan.{
  VlanTag, IsTag, from_tag_control_information, tag_control_information,
}
use hzl_silicon_switch_lab.Network.MacAddress.{MacAddress, IsMac, mac_bytes}

-- network/ether_type.hpp
abbrev pub ether_type_ipv4 : ℕ
ether_type_ipv4 = 0x0800

abbrev pub ether_type_arp : ℕ
ether_type_arp = 0x0806

abbrev pub ether_type_vlan_tagged : ℕ
ether_type_vlan_tagged = 0x8100

pub record EthernetFrame : Type 0 where
  pub destination : MacAddress
  pub source : MacAddress
  pub ether_type : ℕ
  pub payload : List ℕ
  pub vlan_tag : Option VlanTag

abbrev pub header_size : ℕ
header_size = 14

abbrev pub tagged_header_size : ℕ
tagged_header_size = 18

abbrev pub maximum_payload_size : ℕ
maximum_payload_size = 1500

abbrev ether_type_offset : ℕ
ether_type_offset = 12

abbrev vlan_control_information_offset : ℕ
vlan_control_information_offset = 14

abbrev inner_ether_type_offset : ℕ
inner_ether_type_offset = 16

-- `read_mac_address`. Both of its calls follow the guard on the length, so no byte is out of range,
-- where the model would read a zero.
unfoldable pub read_mac : List ℕ → ℕ → MacAddress
read_mac bytes offset = record {
  byte0 = get_or bytes offset 0;
  byte1 = get_or bytes (offset + 1) 0;
  byte2 = get_or bytes (offset + 2) 0;
  byte3 = get_or bytes (offset + 3) 0;
  byte4 = get_or bytes (offset + 4) 0;
  byte5 = get_or bytes (offset + 5) 0;
}

-- `write_mac_address`
unfoldable pub write_mac : MacAddress → List ℕ → ℕ → List ℕ
write_mac address bytes offset = copy_to bytes offset (mac_bytes address)

-- `EthernetFrame::create`
unfoldable pub create_frame :
    MacAddress → MacAddress → ℕ → List ℕ → Option VlanTag → Option EthernetFrame
create_frame destination source ether_type payload vlan_tag =
    if ltb maximum_payload_size (length payload)
    then none
    else some (record {
      destination = destination;
      source = source;
      ether_type = ether_type;
      payload = payload;
      vlan_tag = vlan_tag;
    })

-- The end of `EthernetFrame::parse`, once the type, the tag and the payload's offset are known.
unfoldable pub parse_payload : List ℕ → ℕ → ℕ → Option VlanTag → Option EthernetFrame
parse_payload bytes ether_type payload_offset vlan_tag =
    if ltb maximum_payload_size (length bytes - payload_offset)
    then none
    else create_frame (read_mac bytes 0) (read_mac bytes 6) ether_type (drop payload_offset bytes)
        vlan_tag

-- The branch of `EthernetFrame::parse` for the outer type of a tagged frame.
unfoldable pub parse_tagged : List ℕ → Option EthernetFrame
parse_tagged bytes = if ltb (length bytes) tagged_header_size then none else (do
  control_information ← read_big_endian 2 bytes vlan_control_information_offset
  inner_ether_type ← read_big_endian 2 bytes inner_ether_type_offset
  tag ← from_tag_control_information control_information
  parse_payload bytes inner_ether_type tagged_header_size (some tag))

-- `EthernetFrame::parse`
unfoldable pub parse_frame : List ℕ → Option EthernetFrame
unfolding parse_tagged
parse_frame bytes = if ltb (length bytes) header_size then none else (do
  ether_type ← read_big_endian 2 bytes ether_type_offset
  if ether_type == ether_type_vlan_tagged
      then parse_tagged bytes
      else parse_payload bytes ether_type header_size none)

serialized_header_size : Option VlanTag → ℕ
serialized_header_size none = header_size
serialized_header_size (some tag) = tagged_header_size

outer_ether_type : Option VlanTag → ℕ → ℕ
outer_ether_type none ether_type = ether_type
outer_ether_type (some tag) ether_type = ether_type_vlan_tagged

-- The tag and the inner type, if there is a tag.
write_tag : Option VlanTag → ℕ → List ℕ → Option (List ℕ)
write_tag none ether_type bytes = some bytes
write_tag (some tag) ether_type bytes = do
  tagged ← write_big_endian 2 (tag_control_information tag) bytes vlan_control_information_offset
  write_big_endian 2 ether_type tagged inner_ether_type_offset

-- `EthernetFrame::serialize`
unfoldable pub serialize_frame : EthernetFrame → List ℕ
unfolding serialized_header_size outer_ether_type write_tag
serialize_frame f =
    let size = serialized_header_size f.vlan_tag in
    let bytes = replicate (size + length f.payload) 0 in
    let addressed = write_mac f.source (write_mac f.destination bytes 0) 6 in
    value_or
      (do
        typed ←
            write_big_endian 2 (outer_ether_type f.vlan_tag f.ether_type) addressed
              ether_type_offset
        tagged ← write_tag f.vlan_tag f.ether_type typed
        some (copy_to tagged size f.payload))
      []

abbrev pub IsTagged : Option VlanTag → Type 0
IsTagged none = Unit {0}
IsTagged (some t) = IsTag t

-- What `create` and the types of the fields ensure.
pub record IsFrame (f : EthernetFrame) : Type 0 where
  pub to : IsMac f.destination
  pub from : IsMac f.source
  pub type_fits : f.ether_type < 2 ^ 16
  pub payload_fits : length f.payload ≤ maximum_payload_size
  pub payload_bytes : All IsByte f.payload
  pub tag : IsTagged f.vlan_tag
