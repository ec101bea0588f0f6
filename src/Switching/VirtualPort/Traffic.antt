-- ===== src/Switching/VirtualPort/Traffic.antt =====
-- What a sequence of arriving packets does to a port.
use hzl_silicon_switch_lab.Base.{
  ℕ, ◌+◌, ◌^◌, ◌<◌, ◌≡◌, refl, ap, ◌∙◌, true, false, List, [], ◌∷◌, arith, ltb, if◌then◌else◌,
  length, Bool-cases, inl, inr, sym,
}
use hzl_silicon_switch_lab.Switching.VirtualPort.{
  VirtualPort, PortCounters, add_u64, operational, receive,
}

-- `receive` on each packet of a sequence, given by their sizes.
unfoldable pub receive_all : VirtualPort → List ℕ → VirtualPort
receive_all port [] = port
receive_all port (bytes ∷ packets) = receive_all (receive port bytes).0 packets

-- The packets of at most the MTU, their number and their bytes.
unfoldable pub fitting_packets : ℕ → List ℕ → ℕ
fitting_packets mtu [] = 0
fitting_packets mtu (bytes ∷ packets) =
    (if ltb mtu bytes then 0 else 1) + fitting_packets mtu packets

unfoldable pub fitting_bytes : ℕ → List ℕ → ℕ
fitting_bytes mtu [] = 0
fitting_bytes mtu (bytes ∷ packets) =
    (if ltb mtu bytes then 0 else bytes) + fitting_bytes mtu packets

unfoldable pub oversized_packets : ℕ → List ℕ → ℕ
oversized_packets mtu [] = 0
oversized_packets mtu (bytes ∷ packets) =
    (if ltb mtu bytes then 1 else 0) + oversized_packets mtu packets

-- The receive counters are 64-bit numbers.
pub record IsCounters (c : PortCounters) : Type 0 where
  pub packets_bound : c.received_packets < 2 ^ 64
  pub bytes_bound : c.received_bytes < 2 ^ 64
  pub errors_bound : c.receive_errors < 2 ^ 64
  pub drops_bound : c.receive_drops < 2 ^ 64

-- The port with its receive counters moved on, and nothing else changed.
unfoldable pub tally : VirtualPort → ℕ → ℕ → ℕ → ℕ → VirtualPort
tally port packets bytes errors drops = record port {
  counters = record port.counters {
    received_packets = add_u64 port.counters.received_packets packets;
    received_bytes = add_u64 port.counters.received_bytes bytes;
    receive_errors = add_u64 port.counters.receive_errors errors;
    receive_drops = add_u64 port.counters.receive_drops drops;
  };
}

add_u64-zero : (x : ℕ) → x < 2 ^ 64 → add_u64 x 0 ≡ x
unfolding add_u64
add_u64-zero x h = omega arith

add_u64-add_u64 : (x a b : ℕ) → add_u64 (add_u64 x a) b ≡ add_u64 x (a + b)
unfolding add_u64
add_u64-add_u64 x a b = omega arith

add_u64-bound : (x a : ℕ) → add_u64 x a < 2 ^ 64
unfolding add_u64
add_u64-bound x a = omega arith

tally-zero : (port : VirtualPort) → IsCounters port.counters → tally port 0 0 0 0 ≡ port
unfolding tally
tally-zero port v =
    rw
      (
        add_u64-zero port.counters.received_packets v.packets_bound,
        add_u64-zero port.counters.received_bytes v.bytes_bound,
        add_u64-zero port.counters.receive_errors v.errors_bound,
        add_u64-zero port.counters.receive_drops v.drops_bound,
      )
      refl

tally-tally :
    (port : VirtualPort) (p b e d p' b' e' d' : ℕ)
    → tally (tally port p b e d) p' b' e' d' ≡ tally port (p + p') (b + b') (e + e') (d + d')
unfolding tally
tally-tally port p b e d p' b' e' d' =
    rw
      (
        add_u64-add_u64 port.counters.received_packets p p',
        add_u64-add_u64 port.counters.received_bytes b b',
        add_u64-add_u64 port.counters.receive_errors e e',
        add_u64-add_u64 port.counters.receive_drops d d',
      )
      refl

tally-IsCounters : (port : VirtualPort) (p b e d : ℕ) → IsCounters (tally port p b e d).counters
unfolding tally
tally-IsCounters port p b e d = record {
  packets_bound = add_u64-bound port.counters.received_packets p;
  bytes_bound = add_u64-bound port.counters.received_bytes b;
  errors_bound = add_u64-bound port.counters.receive_errors e;
  drops_bound = add_u64-bound port.counters.receive_drops d;
}

module _ (port : VirtualPort) (bytes : ℕ) where
  receive_down :
      operational port ≡ false
      → IsCounters port.counters
      → (receive port bytes).0 ≡ tally port 0 0 0 1
  unfolding receive tally
  receive_down down v =
      rw
        (
          down,
          add_u64-zero port.counters.received_packets v.packets_bound,
          add_u64-zero port.counters.received_bytes v.bytes_bound,
          add_u64-zero port.counters.receive_errors v.errors_bound,
        )
        refl

  receive_up :
      operational port ≡ true
      → IsCounters port.counters
      → (receive port bytes).0
        ≡ tally port
            (if ltb port.mtu bytes then 0 else 1)
            (if ltb port.mtu bytes then 0 else bytes)
            (if ltb port.mtu bytes then 1 else 0)
            (if ltb port.mtu bytes then 1 else 0)
  unfolding receive tally
  receive_up up v = elim (Bool-cases (ltb port.mtu bytes)) [
    | inl large ↦
        rw
          (
            up,
            large,
            add_u64-zero port.counters.received_packets v.packets_bound,
            add_u64-zero port.counters.received_bytes v.bytes_bound,
          )
          refl
    | inr fits ↦
        rw
          (
            up,
            fits,
            add_u64-zero port.counters.receive_errors v.errors_bound,
            add_u64-zero port.counters.receive_drops v.drops_bound,
          )
          refl
  ]

operational-tally :
    (port : VirtualPort) (p b e d : ℕ) → operational (tally port p b e d) ≡ operational port
unfolding operational tally
operational-tally port p b e d = refl

mtu-tally : (port : VirtualPort) (p b e d : ℕ) → (tally port p b e d).mtu ≡ port.mtu
unfolding tally
mtu-tally port p b e d = refl

receive_all-cons :
    (port : VirtualPort) (bytes : ℕ) (packets : List ℕ)
    → receive_all port (bytes ∷ packets) ≡ receive_all (receive port bytes).0 packets
unfolding receive_all
receive_all-cons port bytes packets = refl

-- A port that is not operational and whose receive counters are 64-bit numbers counts each packet
-- as a drop, modulo 2^64, and changes nothing else.
pub receive_all_down :
    (port : VirtualPort) (packets : List ℕ)
    → operational port ≡ false
    → IsCounters port.counters
    → receive_all port packets ≡ tally port 0 0 0 (length packets)
receive_all_down port [] down v = unfold receive_all in sym (tally-zero port v)
receive_all_down port (bytes ∷ packets) down v =
    rw
      (
        receive_all-cons port bytes packets,
        receive_down port bytes down v,
        receive_all_down (tally port 0 0 0 1) packets (operational-tally port 0 0 0 1 ∙ down)
            (tally-IsCounters port 0 0 0 1),
        tally-tally port 0 0 0 1 0 0 0 (length packets),
      )
      (ap (tally port 0 0 0) (omega arith))

-- An operational port whose receive counters are 64-bit numbers counts the packets of at most its
-- MTU and their bytes as received, counts each larger packet as an error and a drop, all modulo
-- 2^64, and changes nothing else.
pub receive_all_up :
    (port : VirtualPort) (packets : List ℕ)
    → operational port ≡ true
    → IsCounters port.counters
    → receive_all port packets
      ≡ tally port
          (fitting_packets port.mtu packets)
          (fitting_bytes port.mtu packets)
          (oversized_packets port.mtu packets)
          (oversized_packets port.mtu packets)
unfolding tally
receive_all_up port [] up v =
    unfold receive_all fitting_packets fitting_bytes oversized_packets in sym (tally-zero port v)
receive_all_up port (bytes ∷ packets) up v =
    let large = ltb port.mtu bytes in
    let p : ℕ = if large then 0 else 1 in
    let b : ℕ = if large then 0 else bytes in
    let e : ℕ = if large then 1 else 0 in
    rw
      (
        receive_all-cons port bytes packets,
        receive_up port bytes up v,
        receive_all_up (tally port p b e e) packets (operational-tally port p b e e ∙ up)
            (tally-IsCounters port p b e e),
        mtu-tally port p b e e,
        tally-tally port p b e e (fitting_packets port.mtu packets) (fitting_bytes port.mtu packets)
            (oversized_packets port.mtu packets) (oversized_packets port.mtu packets),
      )
      (unfold fitting_packets fitting_bytes oversized_packets in refl)
