-- ===== src/Witnesses/SwitchingRuns.antt =====
-- The switching layer at concrete inputs.
use hzl_silicon_switch_lab.Base.Map.{assign, emplace, find}
use hzl_silicon_switch_lab.Switching.MacTable.KeyOrder.{key_less}
use hzl_silicon_switch_lab.Base.{
  equiv, ◌+◌, ◌≡◌, ◌⊎◌, ◌≢◌, ◌%◌, refl, Bool, true, [], ◌∷◌, none, some, length, arith,
}
use hzl_silicon_switch_lab.Network.Vlan.{vlan_less, VlanId}
use hzl_silicon_switch_lab.Network.MacAddress.{
  is_broadcast, is_multicast, is_unicast, is_usable_mac, mac_eq, mac_less, MacAddress,
  unspecified_mac,
}
use hzl_silicon_switch_lab.Switching.VlanPort.{
  allows, is_access, VlanPortConfig, VlanPortMode, access_config, IsConfig,
}
use hzl_silicon_switch_lab.Switching.VlanPort.Ingress.{
  access_config-IsConfig, classify_vlan_ingress, classify_vlan_ingress_lem, IngressSpec,
}
use hzl_silicon_switch_lab.Switching.MacTable.{
  is_static_type, update, update_found, MacTable, MacTableEntry, dynamic, static_entry, learn,
  lookup, expire, rejected, is_learnable, is_static,
}
use hzl_silicon_switch_lab.Switching.MacTable.Expiry.{IsTable, Kept, expire_lem}
use hzl_silicon_switch_lab.Switching.MacTable.Updates.{UpdateSpec, learn_lem}
use hzl_silicon_switch_lab.Switching.Forwarding.{
  contains_port, decide_unicast, drop_frame, flood_loop, forward, forward_or_drop,
  decide_l2_forwarding,
}
use hzl_silicon_switch_lab.Switching.Forwarding.Outputs.{
  Decided, AreOutputs, decide_l2_forwarding_lem,
}
use hzl_silicon_switch_lab.Switching.Pipeline.{
  accept, drop_decision, is_router_address, learning_drop, map_l2_drop, map_vlan_drop,
  process_classified, process_destination, process_learned, switched, PipelineDecision, flood,
  process_l2_l3_ingress,
}
use hzl_silicon_switch_lab.Switching.Pipeline.Processing.{
  Processed, process_l2_l3_ingress_lem, process_l2_l3_ingress-AreOutputs,
}
use hzl_silicon_switch_lab.Switching.VirtualPort.{VirtualPort, gbps_10, zero_counters, operational}
use hzl_silicon_switch_lab.Switching.VirtualPort.Traffic.{
  receive_all, receive_all_up, tally, IsCounters, fitting_packets, fitting_bytes, oversized_packets,
}
use hzl_silicon_switch_lab.Witnesses.Samples.{host_mac, vlan10, host_frame}

-- An access port of VLAN 10.
abbrev access10 : VlanPortConfig
access10 = record {
  mode = VlanPortMode.access;
  access_vlan = some vlan10;
  native_vlan = none;
  allowed_vlans = (vlan10, tt) ∷ [];
}

access10-IsConfig : IsConfig access10
unfolding access_config
access10-IsConfig = access_config-IsConfig vlan10

-- Host 2 at port 2, by configuration.
abbrev static_host : MacTableEntry
static_host = record { port = 2; type = static_entry; learned_at = 0 }

abbrev static_table : MacTable
static_table = record {
  capacity = 4;
  entry_lifetime = 300;
  entries = (record { vlan = vlan10; mac_address = host_mac 2 }, static_host) ∷ [];
}

static_table-IsTable : IsTable static_table
static_table-IsTable = record { bounded = omega arith; sorted = (tt, tt) }

static_known : lookup static_table vlan10 (host_mac 2) ≡ some static_host
unfolding lookup find equiv key_less mac_less
static_known = refl

abbrev empty_table : MacTable
empty_table = record { capacity = 4; entry_lifetime = 300; entries = [] }

abbrev flooded : PipelineDecision
flooded = record {
  action = flood;
  vlan = some vlan10;
  output_ports = 2 ∷ 3 ∷ [];
  drop_reason = none;
}

flooded_run :
    (process_l2_l3_ingress host_frame 1 access10 (1 ∷ 2 ∷ 3 ∷ []) empty_table [] 0).1 ≡ some flooded
unfolding process_l2_l3_ingress classify_vlan_ingress is_access process_learned learning_drop learn
    is_learnable is_usable_mac update find process_destination is_router_address
    decide_l2_forwarding is_broadcast lookup emplace equiv key_less assign is_multicast is_unicast
    mac_eq mac_less vlan_less contains_port decide_unicast drop_frame
    hzl_silicon_switch_lab.Switching.Forwarding.flood flood_loop forward forward_or_drop is_static
    is_static_type update_found accept drop_decision map_l2_drop map_vlan_drop process_classified
    switched allows
flooded_run = refl

process_l2_l3_ingress_lem_example :
    Processed host_frame 1 access10
      (1 ∷ 2 ∷ 3 ∷ [])
      empty_table
      []
      0
      (classify_vlan_ingress host_frame access10)
      (process_l2_l3_ingress host_frame 1 access10 (1 ∷ 2 ∷ 3 ∷ []) empty_table [] 0)
process_l2_l3_ingress_lem_example =
    process_l2_l3_ingress_lem host_frame 1 access10 (1 ∷ 2 ∷ 3 ∷ []) empty_table [] 0
      access10-IsConfig

process_l2_l3_ingress-AreOutputs_example : AreOutputs 1 (1 ∷ 2 ∷ 3 ∷ []) (2 ∷ 3 ∷ [])
process_l2_l3_ingress-AreOutputs_example =
    process_l2_l3_ingress-AreOutputs host_frame 1 access10 (1 ∷ 2 ∷ 3 ∷ []) empty_table [] 0 flooded
      access10-IsConfig flooded_run

decide_l2_forwarding_lem_example :
    Decided
      (host_mac 2)
      1
      (1 ∷ 2 ∷ [])
      (lookup static_table vlan10 (host_mac 2))
      (decide_l2_forwarding host_frame vlan10 1 (1 ∷ 2 ∷ []) static_table)
decide_l2_forwarding_lem_example =
    decide_l2_forwarding_lem host_frame vlan10 1 (1 ∷ 2 ∷ []) static_table

classify_vlan_ingress_lem_example :
    IngressSpec host_frame access10 (classify_vlan_ingress host_frame access10)
classify_vlan_ingress_lem_example = classify_vlan_ingress_lem host_frame access10 access10-IsConfig

-- The address of host 2, which a static entry has, seen at the port of the entry.
learn_lem_example :
    ((host_mac 2 ≡ unspecified_mac) ⊎ ((host_mac 2).byte0 % 2 ≡ 1))
      × (learn static_table vlan10 (host_mac 2) 2 5 ≡ (static_table, rejected))
    ⊎ (host_mac 2 ≢ unspecified_mac)
      × ((host_mac 2).byte0 % 2 ≡ 0)
      × (let (t', r) = learn static_table vlan10 (host_mac 2) 2 5 in
          UpdateSpec static_table
            (record { vlan = vlan10; mac_address = host_mac 2 })
            2
            dynamic
            5
            t'
            r)
learn_lem_example = learn_lem static_table vlan10 (host_mac 2) 2 5

-- Host 1 at port 1, seen at 100.
abbrev aging_table : MacTable
aging_table = record {
  capacity = 4;
  entry_lifetime = 300;
  entries =
      (
        record { vlan = vlan10; mac_address = host_mac 1 },
        record { port = 1; type = dynamic; learned_at = 100 },
      )
      ∷ [];
}

aging_table-IsTable : IsTable aging_table
aging_table-IsTable = record { bounded = omega arith; sorted = (tt, tt) }

expire_lem_example :
    ((vlan : VlanId) (mac : MacAddress)
      → Kept aging_table 400
          (lookup aging_table vlan mac)
          (lookup (expire aging_table 400).0 vlan mac))
    × ((expire aging_table 400).1 + length (expire aging_table 400).0.entries ≡ 1)
    × ((expire aging_table 400).0.capacity ≡ 4)
    × ((expire aging_table 400).0.entry_lifetime ≡ 300)
expire_lem_example = expire_lem aging_table 400 aging_table-IsTable

-- A port that is up, or not.
abbrev port_with : Bool → VirtualPort
port_with up = record {
  id = 1;
  mac_address = host_mac 9;
  speed = gbps_10;
  mtu = 1500;
  vlan_config = access10;
  admin_enabled = true;
  link_up = up;
  counters = zero_counters;
}

zero-IsCounters : IsCounters zero_counters
zero-IsCounters = record {
  packets_bound = omega arith;
  bytes_bound = omega arith;
  errors_bound = omega arith;
  drops_bound = omega arith;
}

receive_all_up_example :
    receive_all (port_with true) (100 ∷ 1501 ∷ [])
    ≡ tally
        (port_with true)
        (fitting_packets 1500 (100 ∷ 1501 ∷ []))
        (fitting_bytes 1500 (100 ∷ 1501 ∷ []))
        (oversized_packets 1500 (100 ∷ 1501 ∷ []))
        (oversized_packets 1500 (100 ∷ 1501 ∷ []))
receive_all_up_example =
    receive_all_up (port_with true) (100 ∷ 1501 ∷ []) (unfold operational in refl) zero-IsCounters
