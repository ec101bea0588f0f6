-- ===== src/Asic/TrafficStatistics.antt =====
-- asic/traffic_statistics.hpp and .cpp: the counters of the ASIC, 64-bit numbers. The enumerator
-- `count` is the number of counters and none of them.
use hzl_silicon_switch_lab.Base.{ℕ, ◌+◌, ◌%◌, ◌^◌, ◌==◌, if◌then◌else◌}

pub data TrafficCounter : Type 0 where
  ingress_packets ingress_bytes egress_packets egress_bytes : TrafficCounter
  parse_errors route_misses ttl_expirations vlan_drops : TrafficCounter
  neighbor_misses filtered_frames queue_drops fault_drops : TrafficCounter
  corrupted_packets resource_exhaustion : TrafficCounter

-- `index`
unfoldable pub index : TrafficCounter → ℕ
index ingress_packets = 0
index ingress_bytes = 1
index egress_packets = 2
index egress_bytes = 3
index parse_errors = 4
index route_misses = 5
index ttl_expirations = 6
index vlan_drops = 7
index neighbor_misses = 8
index filtered_frames = 9
index queue_drops = 10
index fault_drops = 11
index corrupted_packets = 12
index resource_exhaustion = 13

-- The array of counters; `get` and `snapshot` read it.
abbrev pub TrafficStatistics : Type 0
TrafficStatistics = TrafficCounter → ℕ

abbrev pub no_traffic : TrafficStatistics
no_traffic counter = 0

-- `TrafficStatistics::increment`
unfoldable pub increment : TrafficStatistics → TrafficCounter → ℕ → TrafficStatistics
unfolding index
increment counters counter amount other =
    if index other == index counter then (counters other + amount) % 2 ^ 64 else counters other

-- `TrafficStatistics::get`
unfoldable pub get : TrafficStatistics → TrafficCounter → ℕ
get counters counter = counters counter

-- `TrafficStatistics::snapshot`
unfoldable pub snapshot : TrafficStatistics → TrafficStatistics
snapshot counters counter = counters counter

-- `TrafficStatistics::reset`
unfoldable pub reset : TrafficStatistics → TrafficStatistics
reset counters counter = 0
