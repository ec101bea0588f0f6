-- ===== src/Transport/StateUpdate/Parsing.antt =====
-- What the parser of updates returns for any bytes.
use hzl_silicon_switch_lab.Base.{
  ℕ, ◌+◌, ◌≤◌, ◌≡◌, refl, not, ◌||◌, List, some, arith, ltb, ◌==◌, length, length-drop, drop,
  Bool-cases, Option-cases, inl, inr,
}
use hzl_silicon_switch_lab.Wire.Layout.{read_fits}
use hzl_silicon_switch_lab.Transport.StateUpdate.{
  StateUpdateType, StateUpdateParseResult, parsed, refused, unread, Header, header_size,
  maximum_payload_size, state_update_magic, current_version, known_type, revisions_are_valid,
  read_header, parse_header, parse_type, parse_known, parse_update, create_update,
}

-- An update that is parsed is one that `create` makes, and takes up all the bytes; the reads of the
-- header never fail.
abbrev pub ParseSpec : List ℕ → StateUpdateParseResult → Type 0
ParseSpec bytes (parsed u) =
    (create_update u.type u.session_id u.sequence u.timestamp_microseconds u.base_revision
        u.revision u.payload
      ≡ some u)
    × (length bytes ≡ header_size + length u.payload)
ParseSpec bytes (refused why) = Unit {0}
ParseSpec bytes unread = ⊥

read_header-some :
    (bytes : List ℕ) → header_size ≤ length bytes → (h : Header) × (read_header bytes ≡ some h)
unfolding read_header
read_header-some bytes fits =
    rw
      (
        read_fits 4 bytes 0 (omega arith),
        read_fits 2 bytes 4 (omega arith),
        read_fits 2 bytes 6 (omega arith),
        read_fits 8 bytes 8 (omega arith),
        read_fits 8 bytes 16 (omega arith),
        read_fits 8 bytes 24 (omega arith),
        read_fits 8 bytes 32 (omega arith),
        read_fits 8 bytes 40 (omega arith),
        read_fits 4 bytes 48 (omega arith),
      )
      (_, refl)

module _ (bytes : List ℕ) (h : Header) where
  parse_known-ParseSpec : (type : StateUpdateType) → ParseSpec bytes (parse_known bytes h type)
  unfolding parse_known create_update
  parse_known-ParseSpec type = elim (Bool-cases (ltb maximum_payload_size h.length)) [
    | inl large ↦ rw large tt
    | inr fits ↦ rw fits (elim (Bool-cases (length bytes == header_size + h.length)) [
      | inr other ↦ rw other tt
      | inl whole ↦
          let size : length bytes ≡ header_size + h.length = ground (arith, whole) in
          let rest : length (drop header_size bytes) ≡ h.length =
            omega (arith, length-drop header_size bytes, size) in
          rw whole
            (elim (Bool-cases (
              h.session == 0
              || h.sequence == 0
              || not (revisions_are_valid type h.base h.revision))) [
                | inl bad ↦ rw bad tt
                | inr good ↦
                    rw good (rw rest (ground (arith, fits, good)), omega (arith, rest, size))
              ])
    ])
  ]

  parse_header-ParseSpec : ParseSpec bytes (parse_header bytes (some h))
  unfolding parse_header parse_type
  parse_header-ParseSpec = elim (Bool-cases (h.magic == state_update_magic)) [
    | inr other ↦ rw other tt
    | inl ours ↦ rw ours (elim (Bool-cases (h.version == current_version)) [
      | inr old ↦ rw old tt
      | inl current ↦ rw current (elim (Option-cases (known_type h.type)) [
        | inl unknown ↦ rw unknown tt
        | inr (type, found) ↦ rw found (parse_known-ParseSpec type)
      ])
    ])
  ]

-- Whatever the bytes, the reads of the header never fail, and what is parsed as an update is one
-- that create accepts with the same fields, and takes up all the bytes.
pub parse_update_lem : (bytes : List ℕ) → ParseSpec bytes (parse_update bytes)
unfolding parse_update
parse_update_lem bytes = elim (Bool-cases (ltb (length bytes) header_size)) [
  | inl short ↦ rw short tt
  | inr enough ↦
      let (h, read) = read_header-some bytes (ground (arith, enough)) in
      rw (enough, read) (parse_header-ParseSpec bytes h)
]
