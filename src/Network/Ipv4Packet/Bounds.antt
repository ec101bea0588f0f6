-- ===== src/Network/Ipv4Packet/Bounds.antt =====
-- What every packet that parse returns has.
use hzl_silicon_switch_lab.Base.{
  ℕ, ◌≡◌, ◌≤◌, ◌<◌, Bool, ◌||◌, not, List, some, arith, ltb, ◌==◌, length, Bool-cases, Option-cases,
  inl, inr, get_or,
}
use hzl_silicon_switch_lab.Wire.{read_big_endian}
use hzl_silicon_switch_lab.Network.Ipv4Address.{Ipv4Address}
use hzl_silicon_switch_lab.Network.Ipv4Packet.{
  Ipv4Packet, create_packet, parse_packet, header_is_refused, header_size, maximum_payload_size,
}

-- A payload that fits, and a time to live that is left.
pub record IsAlive (p : Ipv4Packet) : Type 0 where
  pub payload_fits : length p.payload ≤ maximum_payload_size
  pub alive : 0 < p.time_to_live

create_packet-IsAlive :
    (source destination : Ipv4Address) (protocol : ℕ) (payload : List ℕ)
    (time_to_live identification : ℕ) (dont_fragment : Bool) (p : Ipv4Packet)
    → create_packet source destination protocol payload time_to_live identification dont_fragment
      ≡ some p
    → IsAlive p
unfolding create_packet
create_packet-IsAlive source destination protocol payload time_to_live identification dont_fragment
      p e =
    ground arith

-- After the guards the packet is made by `create`.
pub parse_packet-IsAlive :
    (bytes : List ℕ) (p : Ipv4Packet) → parse_packet bytes ≡ some p → IsAlive p
unfolding parse_packet
parse_packet-IsAlive bytes p e =
    elim (Bool-cases (
      ltb (length bytes) header_size
      || not (get_or bytes 0 0 == 0x45)
      || not (get_or bytes 1 0 == 0))) [
        | inl refused ↦ cc (rw refused at e)
        | inr read ↦ elim (Option-cases (read_big_endian 2 bytes 2)) [
          | inl a ↦ cc (rw (read, a) at e)
          | inr (total, a) ↦ elim (Option-cases (read_big_endian 2 bytes 4)) [
            | inl b ↦ cc (rw (read, a, b) at e)
            | inr (identification, b) ↦ elim (Option-cases (read_big_endian 2 bytes 6)) [
              | inl c ↦ cc (rw (read, a, b, c) at e)
              | inr (flags, c) ↦ elim (Bool-cases (header_is_refused bytes total flags)) [
                | inl refused ↦ cc (rw (read, a, b, c, refused) at e)
                | inr good ↦ elim (Option-cases (read_big_endian 4 bytes 12)) [
                  | inl d ↦ cc (rw (read, a, b, c, good, d) at e)
                  | inr (source, d) ↦ elim (Option-cases (read_big_endian 4 bytes 16)) [
                    | inl f ↦ cc (rw (read, a, b, c, good, d, f) at e)
                    | inr (destination, f) ↦
                        create_packet-IsAlive _ _ _ _ _ _ _ p (rw (read, a, b, c, good, d, f) at e)
                  ]
                ]
              ]
            ]
          ]
        ]
      ]
