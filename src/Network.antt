-- ===== src/Network.antt =====
-- include/silicon_switch/network and src/silicon_switch/network.
pub mod Vlan
pub mod MacAddress
pub mod Ipv4Address
pub mod Ipv4Prefix
pub mod EthernetFrame
pub mod ArpPacket
pub mod Checksum
pub mod Ipv4Packet
