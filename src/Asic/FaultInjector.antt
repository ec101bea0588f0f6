-- ===== src/Asic/FaultInjector.antt =====
-- asic/fault_injector.hpp and .cpp: the faults that the ASIC injects, by the number of the packet.
pub mod Losses
use hzl_silicon_switch_lab.Base.{
  ℕ, ◌+◌, ◌%◌, ◌^◌, Bool, true, false, not, ◌&&◌, List, [], ◌∷◌, Option, none, some, ◌==◌,
  if◌then◌else◌, has_value, bit_xor, ℤ, pos, is_negative, nat_order,
}
use hzl_silicon_switch_lab.Base.Map.{Map, find}

-- A set of ports is a map into the unit type; the latency is in nanoseconds.
pub record FaultInjectionConfig : Type 0 where
  pub failed_ports : Map ℕ (Unit {0})
  pub drop_every_nth_packet : ℕ
  pub corrupt_every_nth_packet : ℕ
  pub latency : ℤ
  pub resource_exhausted : Bool

abbrev pub no_faults : FaultInjectionConfig
no_faults = record {
  failed_ports = [];
  drop_every_nth_packet = 0;
  corrupt_every_nth_packet = 0;
  latency = pos 0;
  resource_exhausted = false;
}

pub data FaultDropReason : Type 0 where
  failed_port deterministic_packet_loss resource_exhaustion : FaultDropReason

pub record FaultInjectedPacket : Type 0 where
  pub bytes : List ℕ
  pub latency : ℤ
  pub corrupted : Bool

pub data FaultInjectionResult : Type 0 where
  injected : FaultInjectedPacket → FaultInjectionResult
  lost : FaultDropReason → FaultInjectionResult

pub record FaultInjector : Type 0 where
  pub config : FaultInjectionConfig
  pub processed_packets : ℕ

-- `FaultInjector::FaultInjector`; `none` is the exception that `validate` throws.
unfoldable pub create_injector : FaultInjectionConfig → Option FaultInjector
unfolding is_negative
create_injector config =
    if is_negative config.latency
    then none
    else some (record { config = config; processed_packets = 0 })

-- `packet.front() ^= 0x01U`
unfoldable pub flip_front : List ℕ → List ℕ
flip_front [] = []
flip_front (byte ∷ bytes) = bit_xor byte 0x01 ∷ bytes

unfoldable pub is_empty_packet : List ℕ → Bool
is_empty_packet [] = true
is_empty_packet (byte ∷ bytes) = false

-- `n != 0U && processed_packets_ % n == 0U`
unfoldable pub is_nth : ℕ → ℕ → Bool
is_nth n processed = not (n == 0) && processed % n == 0

-- What `process` returns, by the number of the packet.
unfoldable pub fault_of : FaultInjectionConfig → ℕ → ℕ → List ℕ → FaultInjectionResult
unfolding find is_nth flip_front is_empty_packet
fault_of config processed port packet =
    if has_value (find port config.failed_ports)
    then lost failed_port
    else if config.resource_exhausted
    then lost resource_exhaustion
    else if is_nth config.drop_every_nth_packet processed
    then lost deterministic_packet_loss
    else let corrupted =
        not (is_empty_packet packet) && is_nth config.corrupt_every_nth_packet processed in
      injected (record {
        bytes = if corrupted then flip_front packet else packet;
        latency = config.latency;
        corrupted = corrupted;
      })

-- `FaultInjector::process`
unfoldable pub process : FaultInjector → ℕ → List ℕ → FaultInjector × FaultInjectionResult
unfolding fault_of
process injector port packet =
    let processed = (injector.processed_packets + 1) % 2 ^ 64 in
    (
      record injector { processed_packets = processed },
      fault_of injector.config processed port packet,
    )

-- `FaultInjector::set_config`
unfoldable pub set_config : FaultInjector → FaultInjectionConfig → Option FaultInjector
unfolding is_negative
set_config injector config =
    if is_negative config.latency then none else some (record injector { config = config })

-- `FaultInjector::reset_sequence`
unfoldable pub reset_sequence : FaultInjector → FaultInjector
reset_sequence injector = record injector { processed_packets = 0 }
