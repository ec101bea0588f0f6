-- ===== src/Asic/FaultInjector/Losses.antt =====
-- How many packets a run of the injector loses.
use mathlib.Core.Path.{subst}
use native.Mathlib.Nat.{
  mul-add-div, mul-add-mod_self_left, div_self, mod_self, div-eq_of_lt, mod-eq_of_lt, div-add-mod,
  mod-lt,
}
use hzl_silicon_switch_lab.Base.{
  ℕ, ◌+◌, ◌*◌, ◌/◌, ◌%◌, ◌^◌, ◌<◌, ◌≡◌, refl, ap, Bool, true, false, List, [], ◌∷◌, arith, ◌==◌,
  if◌then◌else◌, length, none, nat_order, Bool-cases, inl, inr,
}
use hzl_silicon_switch_lab.Base.Map.{find}
use hzl_silicon_switch_lab.Asic.FaultInjector.{
  FaultInjectionConfig, FaultInjector, FaultInjectionResult, injected, lost, process, fault_of,
  is_nth,
}

unfoldable pub is_lost : FaultInjectionResult → Bool
is_lost (injected packet) = false
is_lost (lost reason) = true

-- The packets that are lost when each of a sequence is processed for one port.
unfoldable pub losses : FaultInjector → ℕ → List (List ℕ) → ℕ
unfolding is_lost
losses injector port [] = 0
losses injector port (packet ∷ packets) =
    let (after, result) = process injector port packet in
    (if is_lost result then 1 else 0) + losses after port packets

-- Nothing but the deterministic loss.
pub record LosesOnly (config : FaultInjectionConfig) (port : ℕ) : Type 0 where
  pub port_works : find port config.failed_ports ≡ none
  pub has_resources : config.resource_exhausted ≡ false
  pub period : 0 < config.drop_every_nth_packet

is_lost_nth :
    (config : FaultInjectionConfig) (processed port : ℕ) (packet : List ℕ)
    → LosesOnly config port
    → is_lost (fault_of config processed port packet)
      ≡ (processed % config.drop_every_nth_packet == 0)
unfolding is_lost fault_of is_nth
is_lost_nth config processed port packet v = ground (arith, v.port_works, v.has_resources, v.period)

next_remainder :
    (n q r : ℕ) → r < n → (n * q + (r + 1)) / n ≡ q + (if (n * q + (r + 1)) % n == 0 then 1 else 0)
next_remainder n q r h =
    rw (mul-add-div {m = n} (omega arith) q (r + 1), mul-add-mod_self_left n q (r + 1))
      (elim (Bool-cases (r + 1 == n)) [
        | inl full ↦
            let e : r + 1 ≡ n = ground (arith, full) in
            rw (e, div_self {n = n} (omega arith), mod_self n) refl
        | inr short ↦
            let l : r + 1 < n = ground (arith, short) in
            rw (div-eq_of_lt l, mod-eq_of_lt l) (ground arith)
      ])

next_multiple : (p n : ℕ) → 0 < n → (p + 1) / n ≡ p / n + (if (p + 1) % n == 0 then 1 else 0)
next_multiple p n h =
    let e : n * (p / n) + (p % n + 1) ≡ p + 1 = omega (arith, div-add-mod p n) in
    subst (λ t. t / n ≡ p / n + (if t % n == 0 then 1 else 0)) e
      (next_remainder n (p / n) (p % n) (mod-lt p h))

losses-cons :
    (injector : FaultInjector) (port : ℕ) (packet : List ℕ) (packets : List (List ℕ))
    → losses injector port (packet ∷ packets)
      ≡ (if is_lost (process injector port packet).1 then 1 else 0)
        + losses (process injector port packet).0 port packets
unfolding losses
losses-cons injector port packet packets = refl

add_nothing : (p : ℕ) → p + 0 ≡ p
add_nothing p = omega arith

module _ (config : FaultInjectionConfig) (port : ℕ) (v : LosesOnly config port) where
  abbrev period : ℕ
  period = config.drop_every_nth_packet

  abbrev at_packet : ℕ → FaultInjector
  at_packet p = record { config = config; processed_packets = p }

  lost_at :
      (p : ℕ) (packet : List ℕ)
      → p + 1 < 2 ^ 64
      → (process (at_packet p) port packet).0 ≡ at_packet (p + 1)
  unfolding process
  lost_at p packet h = ap at_packet (omega arith)

  is_lost_at :
      (p : ℕ) (packet : List ℕ)
      → p + 1 < 2 ^ 64
      → is_lost (process (at_packet p) port packet).1 ≡ ((p + 1) % period == 0)
  unfolding process
  is_lost_at p packet h =
      let whole : (p + 1) % 2 ^ 64 ≡ p + 1 = omega arith in
      rw whole (is_lost_nth config (p + 1) port packet v)

  -- With a period set, a port that works and resources at hand, a run of packets loses exactly
  -- those whose number is a multiple of the period, as long as the number does not pass 64 bits.
  pub losses_lem :
      (p : ℕ) (packets : List (List ℕ))
      → p + length packets < 2 ^ 64
      → losses (at_packet p) port packets + p / period ≡ (p + length packets) / period
  losses_lem p [] h = unfold losses in omega (arith, ap (λ (t : ℕ). t / period) (add_nothing p))
  losses_lem p (packet ∷ packets) h =
      let rest = losses_lem (p + 1) packets (omega arith) in
      let shift : p + 1 + length packets ≡ p + length (packet ∷ packets) = omega arith in
      rw
        (
          losses-cons (at_packet p) port packet packets,
          lost_at p packet (omega arith),
          is_lost_at p packet (omega arith),
        )
        (subst
          (λ t.
            (if (p + 1) % period == 0 then 1 else 0)
              + losses (at_packet (p + 1)) port packets
              + p / period
            ≡ t / period)
          shift (omega (arith, rest, next_multiple p period v.period)))
