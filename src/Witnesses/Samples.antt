-- ===== src/Witnesses/Samples.antt =====
-- Addresses, frames, packets and tables that the examples share.
use hzl_silicon_switch_lab.Base.{ℕ, ◌+◌, true, [], ◌∷◌, none, arith}
use hzl_silicon_switch_lab.Network.Vlan.{VlanId, VlanTag}
use hzl_silicon_switch_lab.Network.MacAddress.{MacAddress, IsMac}
use hzl_silicon_switch_lab.Network.Ipv4Address.{Ipv4Address}
use hzl_silicon_switch_lab.Network.Ipv4Prefix.{Ipv4Prefix, IsPrefix}
use hzl_silicon_switch_lab.Network.EthernetFrame.{EthernetFrame, IsFrame}
use hzl_silicon_switch_lab.Network.Ipv4Packet.{Ipv4Packet, IsPacket}

-- The locally administered address 02:00:00:00:00:n.
abbrev pub host_mac : ℕ → MacAddress
host_mac n = record { byte0 = 2; byte1 = 0; byte2 = 0; byte3 = 0; byte4 = 0; byte5 = n }

-- 10.0.0.n
abbrev pub host_address : ℕ → Ipv4Address
host_address n = record { value = 0x0a000000 + n }

abbrev pub vlan10 : VlanId
vlan10 = record { value = 10 }

abbrev pub tag10 : VlanTag
tag10 = record { vlan_id = vlan10; priority = 3; drop_eligible = true }

-- From host 1 to host 2, untagged.
abbrev pub host_frame : EthernetFrame
host_frame = record {
  destination = host_mac 2;
  source = host_mac 1;
  ether_type = 0x0800;
  payload = 1 ∷ 2 ∷ 3 ∷ [];
  vlan_tag = none;
}

abbrev pub host_packet : Ipv4Packet
host_packet = record {
  source = host_address 1;
  destination = host_address 2;
  protocol = 17;
  payload = 1 ∷ 2 ∷ 3 ∷ [];
  time_to_live = 64;
  identification = 7;
  dont_fragment = true;
}

abbrev pub host_bytes : IsMac (host_mac 1)
host_bytes =
    (omega arith, (omega arith, (omega arith, (omega arith, (omega arith, (omega arith, tt))))))

pub host_frame-IsFrame : IsFrame host_frame
host_frame-IsFrame = record {
  to = (omega arith, (omega arith, (omega arith, (omega arith, (omega arith, (omega arith, tt))))));
  from = host_bytes;
  type_fits = omega arith;
  payload_fits = omega arith;
  payload_bytes = (omega arith, (omega arith, (omega arith, tt)));
  tag = tt;
}

pub host_packet-IsPacket : IsPacket host_packet
host_packet-IsPacket = record {
  source_fits = omega arith;
  destination_fits = omega arith;
  protocol_byte = omega arith;
  payload_fits = omega arith;
  payload_bytes = (omega arith, (omega arith, (omega arith, tt)));
  alive = omega arith;
  time_byte = omega arith;
  identification_fits = omega arith;
}

-- 10.0.0.0/8
abbrev pub ten_slash_eight : Ipv4Prefix
ten_slash_eight = record { network_address = record { value = 0x0a000000 }; length = 8 }

pub ten_slash_eight-IsPrefix : IsPrefix ten_slash_eight
ten_slash_eight-IsPrefix = record {
  short = omega arith;
  address = omega arith;
  canonical = omega arith;
}
