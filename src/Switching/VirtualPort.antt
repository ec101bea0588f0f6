-- ===== src/Switching/VirtualPort.antt =====
-- switching/virtual_port.hpp and .cpp: a port with its link state, its MTU and its 64-bit counters.
pub mod Traffic
use hzl_silicon_switch_lab.Base.{
  ℕ, ◌+◌, ◌*◌, ◌^◌, ◌%◌, ◌≤◌, ◌<◌, ◌≡◌, Bool, true, false, not, ◌&&◌, ◌||◌, Option, none, some, ltb,
  if◌then◌else◌,
}
use hzl_silicon_switch_lab.Network.MacAddress.{MacAddress, is_usable_mac}
use hzl_silicon_switch_lab.Switching.VlanPort.{VlanPortConfig}

pub data PortSpeed : Type 0 where
  mbps_100 gbps_1 gbps_10 gbps_25 gbps_40 gbps_100 : PortSpeed

pub record PortCounters : Type 0 where
  pub received_packets : ℕ
  pub received_bytes : ℕ
  pub transmitted_packets : ℕ
  pub transmitted_bytes : ℕ
  pub receive_errors : ℕ
  pub transmit_errors : ℕ
  pub receive_drops : ℕ
  pub transmit_drops : ℕ

abbrev pub zero_counters : PortCounters
zero_counters = record {
  received_packets = 0;
  received_bytes = 0;
  transmitted_packets = 0;
  transmitted_bytes = 0;
  receive_errors = 0;
  transmit_errors = 0;
  receive_drops = 0;
  transmit_drops = 0;
}

-- The id of a port is the number of its `PortId`.
pub record VirtualPort : Type 0 where
  pub id : ℕ
  pub mac_address : MacAddress
  pub speed : PortSpeed
  pub mtu : ℕ
  pub vlan_config : VlanPortConfig
  pub admin_enabled : Bool
  pub link_up : Bool
  pub counters : PortCounters

abbrev pub minimum_mtu : ℕ
minimum_mtu = 64

abbrev pub maximum_mtu : ℕ
maximum_mtu = 9216

-- Addition on `std::uint64_t`
unfoldable pub add_u64 : ℕ → ℕ → ℕ
add_u64 a b = (a + b) % 2 ^ 64

-- `is_valid_port_mac`
unfoldable pub is_valid_port_mac : MacAddress → Bool
is_valid_port_mac address = is_usable_mac address

-- `VirtualPort::create`
unfoldable pub create_port : ℕ → MacAddress → PortSpeed → ℕ → VlanPortConfig → Option VirtualPort
create_port id mac_address speed mtu vlan_config =
    if not (is_valid_port_mac mac_address) || ltb mtu minimum_mtu || ltb maximum_mtu mtu
    then none
    else some (record {
      id = id;
      mac_address = mac_address;
      speed = speed;
      mtu = mtu;
      vlan_config = vlan_config;
      admin_enabled = false;
      link_up = false;
      counters = zero_counters;
    })

-- `VirtualPort::operational`
unfoldable pub operational : VirtualPort → Bool
operational port = port.admin_enabled && port.link_up

-- The setters of the header
unfoldable pub set_admin_enabled : VirtualPort → Bool → VirtualPort
set_admin_enabled port enabled = record port { admin_enabled = enabled }

unfoldable pub set_link_up : VirtualPort → Bool → VirtualPort
set_link_up port up = record port { link_up = up }

unfoldable pub set_speed : VirtualPort → PortSpeed → VirtualPort
set_speed port speed = record port { speed = speed }

unfoldable pub reset_counters : VirtualPort → VirtualPort
reset_counters port = record port { counters = zero_counters }

unfoldable pub record_receive_error : VirtualPort → VirtualPort
unfolding add_u64
record_receive_error port = record port {
  counters = record port.counters { receive_errors = add_u64 port.counters.receive_errors 1 };
}

unfoldable pub record_transmit_error : VirtualPort → VirtualPort
unfolding add_u64
record_transmit_error port = record port {
  counters = record port.counters { transmit_errors = add_u64 port.counters.transmit_errors 1 };
}

-- `VirtualPort::set_mtu`
unfoldable pub set_mtu : VirtualPort → ℕ → VirtualPort × Bool
set_mtu port mtu =
    if ltb mtu minimum_mtu || ltb maximum_mtu mtu
    then (port, false)
    else (record port { mtu = mtu }, true)

-- `VirtualPort::set_vlan_config`
unfoldable pub set_vlan_config : VirtualPort → VlanPortConfig → VirtualPort
set_vlan_config port config = record port { vlan_config = config }

-- `VirtualPort::receive`
unfoldable pub receive : VirtualPort → ℕ → VirtualPort × Bool
unfolding add_u64
receive port packet_bytes =
    let c = port.counters in
    if not (operational port)
    then (record port { counters = record c { receive_drops = add_u64 c.receive_drops 1 } }, false)
    else if ltb port.mtu packet_bytes
    then (
      record port {
        counters = record c {
          receive_errors = add_u64 c.receive_errors 1;
          receive_drops = add_u64 c.receive_drops 1;
        };
      },
      false,
    )
    else (
      record port {
        counters = record c {
          received_packets = add_u64 c.received_packets 1;
          received_bytes = add_u64 c.received_bytes packet_bytes;
        };
      },
      true,
    )

-- `VirtualPort::transmit`
unfoldable pub transmit : VirtualPort → ℕ → VirtualPort × Bool
unfolding add_u64
transmit port packet_bytes =
    let c = port.counters in
    if not (operational port)
    then (
      record port { counters = record c { transmit_drops = add_u64 c.transmit_drops 1 } },
      false,
    )
    else if ltb port.mtu packet_bytes
    then (
      record port {
        counters = record c {
          transmit_errors = add_u64 c.transmit_errors 1;
          transmit_drops = add_u64 c.transmit_drops 1;
        };
      },
      false,
    )
    else (
      record port {
        counters = record c {
          transmitted_packets = add_u64 c.transmitted_packets 1;
          transmitted_bytes = add_u64 c.transmitted_bytes packet_bytes;
        };
      },
      true,
    )
