-- ===== src/Witnesses/DiscoveryRuns.antt =====
-- The discovery messages at a concrete input.
use hzl_silicon_switch_lab.Base.{◌≡◌, refl, [], ◌∷◌, arith}
use hzl_silicon_switch_lab.Discovery.DiscoveryMessage.{
  DiscoveryMessage, advertisement, leader, parsed, IsMessage, create_advertisement, has_valid_ports,
  is_unspecified, is_leader, is_empty, parse_discovery, serialize_discovery,
}
use hzl_silicon_switch_lab.Discovery.DiscoveryMessage.Codec.{parse-serialize_discovery}

-- A leader named "ab", with CUDA and OpenGL.
abbrev some_leader : DiscoveryMessage
some_leader = record {
  type = advertisement;
  role = leader;
  capabilities = 3;
  request_id = 9;
  node_id = 4;
  control_port = 5000;
  state_port = 5001;
  name = 97 ∷ 98 ∷ [];
}

some_leader-IsMessage : IsMessage some_leader
unfolding create_advertisement has_valid_ports is_unspecified is_leader is_empty
some_leader-IsMessage = record {
  made = refl;
  name_fits = omega arith;
  capabilities_fit = omega arith;
  request_fits = omega arith;
  node_fits = omega arith;
  control_fits = omega arith;
  state_fits = omega arith;
}

parse-serialize_discovery_example :
    parse_discovery (serialize_discovery some_leader) ≡ parsed some_leader
parse-serialize_discovery_example = parse-serialize_discovery some_leader some_leader-IsMessage
