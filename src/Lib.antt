-- ===== src/Lib.antt =====
-- The core of the switch lab: network formats, L2 switching, L3 routing, the software ASIC that joins
-- them, and the protocol by which observers follow the server.
--
-- A frame that arrives at a port is parsed (Network), given a VLAN by the port's configuration, used
-- to learn its source address, and then switched inside its VLAN or handed to the router (Switching);
-- a routed packet has its time to live decremented, is matched against the routes, and is put into a
-- frame for the neighbour that the ARP cache knows (Routing). The ASIC owns the ports, the queues, the
-- tables and the fault injector, and runs the whole path of a packet (Asic). The server numbers the
-- updates that it publishes (Simulation); a client takes what the network leaves of them (Transport).
--
-- Files, and the code that they model (include/ and src/ of the repository, under silicon_switch/):
--   Base           tests, lists, bits, ordered keys; Base/Map is std::map and std::set as sorted lists
--   Wire           network/byte_order.hpp: read_big_endian, write_big_endian
--   Network        network/: Vlan (vlan_id, vlan_tag), MacAddress, Ipv4Address, Ipv4Prefix,
--                  EthernetFrame, ArpPacket, Checksum (internet_checksum), Ipv4Packet; a Text child is
--                  parse and to_string, a Codec child the proofs about parse and serialize
--   Switching      switching/: VlanPort (vlan_port_config) and VlanPort/Ingress (vlan_ingress),
--                  MacTable, Forwarding (l2_forwarding), Pipeline (l2_l3_pipeline), VirtualPort
--   Routing        routing/: RouteTable (port_id, route_entry, ipv4_route_table), ArpCache, Engine
--                  (ipv4_ttl, ipv4_forwarding_engine), Encapsulation (l3_ethernet_encapsulation)
--   Asic           asic/: BoundedQueue, the queues of the ports, as sequences of atomic calls;
--                  TrafficStatistics; FaultInjector; SoftwareAsic (switch_asic, software_asic), with
--                  Vlans and Tables for its management, and PacketPath, Ingress and Egress for
--                  process_packet and enqueue_outputs; its other children are proofs
--   Transport      transport/: StateUpdate (state_update_protocol), ControlMessage
--                  (control_protocol), ClientSynchronizer (client_synchronizer)
--   Simulation     simulation/authoritative_server: the constructor and next_update
--   Discovery      discovery/discovery_protocol: the messages by which machines find one another
--   Witnesses      the properties at concrete inputs
--
-- Each operation is one function: a class is a record, a method that changes the object takes it and
-- returns it, an empty std::optional and a thrown std::invalid_argument are `none`. A dereference of
-- an optional or an end iterator is a result of its own on the path of a packet (`none` in Pipeline
-- and in Ingress, `undefined_ingress`, `undefined_packet`, `undefined_result`), and so is a read that
-- fails in a parser of messages (`unread`). The parsers of frames, ARP and IPv4 packets read behind
-- guards on the length, and their model has no result of its own for a read outside the bytes: a
-- single byte there is zero, and an address that cannot be read, whose optional read_address
-- dereferences, fails the parse.
--
-- Numbers are natural numbers; where the code computes in w bits, the model writes `% 2 ^ w`. Bytes,
-- addresses and fields are bounded by predicates (IsByte, IsMac, IsAddress, IsTag, IsFrame, IsPacket,
-- IsArp, IsPrefix) which say what the types and the factories ensure. Text is a list of character
-- codes. Every loop is structural recursion over the bytes, entries or characters that are left, so
-- nothing runs on fuel. Time points and durations are numbers of ticks, and the overloads that ask
-- the clock are not modelled: the time is always an argument.
--
-- The server's backend is a parameter, the bytes of the snapshot of each step. What a network does to
-- updates (loss, repetition, another order) is a list of received updates, each one that was published.
--
-- Not modelled: the discovery service, the backends of the simulation (floating point and CUDA), the
-- visualization, sockets, the switch wrapper and its test double, and the applications.
pub mod Base
pub mod Wire
pub mod Network
pub mod Switching
pub mod Routing
pub mod Asic
pub mod Transport
pub mod Simulation
pub mod Discovery
pub mod Witnesses
