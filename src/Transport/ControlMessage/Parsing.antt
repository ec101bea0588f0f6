-- ===== src/Transport/ControlMessage/Parsing.antt =====
-- What the parser of messages returns for any bytes.
use hzl_silicon_switch_lab.Base.{
  ℕ, ◌+◌, ◌≤◌, ◌≡◌, refl, List, Option, none, some, arith, ltb, ◌==◌, length, length-drop, drop,
  Bool-cases, inl, inr,
}
use hzl_silicon_switch_lab.Wire.Layout.{read_fits}
use hzl_silicon_switch_lab.Transport.ControlMessage.{
  ControlMessageType, ControlParseResult, parsed, refused, unread, Header, header_size,
  maximum_payload_size, control_magic, current_version, known, read_header, parse_header,
  parse_type, parse_message, create_message,
}

-- A message that is parsed is one that `create` makes, and takes up all the bytes; the reads of the
-- header never fail.
abbrev pub ParseSpec : List ℕ → ControlParseResult → Type 0
ParseSpec bytes (parsed m) =
    (create_message m.type m.request_id m.payload ≡ some m)
    × (length bytes ≡ header_size + length m.payload)
ParseSpec bytes (refused why) = Unit {0}
ParseSpec bytes unread = ⊥

read_header-some :
    (bytes : List ℕ) → header_size ≤ length bytes → (h : Header) × (read_header bytes ≡ some h)
unfolding read_header
read_header-some bytes fits =
    rw
      (
        read_fits 4 bytes 0 (omega arith),
        read_fits 2 bytes 4 (omega arith),
        read_fits 2 bytes 6 (omega arith),
        read_fits 4 bytes 8 (omega arith),
        read_fits 4 bytes 12 (omega arith),
      )
      (_, refl)

module _ (bytes : List ℕ) (h : Header) where
  parse_type-ParseSpec :
      (type : Option ControlMessageType) → ParseSpec bytes (parse_type bytes h type)
  unfolding parse_type create_message
  parse_type-ParseSpec none = tt
  parse_type-ParseSpec (some type) = elim (Bool-cases (ltb maximum_payload_size h.length)) [
    | inl large ↦ rw large tt
    | inr fits ↦ rw fits (elim (Bool-cases (length bytes == header_size + h.length)) [
      | inr other ↦ rw other tt
      | inl whole ↦
          let size : length bytes ≡ header_size + h.length = ground (arith, whole) in
          let rest : length (drop header_size bytes) ≡ h.length =
            omega (arith, length-drop header_size bytes, size) in
          rw whole (rw (rest, fits) refl, omega (arith, rest, size))
    ])
  ]

  parse_header-ParseSpec : ParseSpec bytes (parse_header bytes (some h))
  unfolding parse_header
  parse_header-ParseSpec = elim (Bool-cases (h.magic == control_magic)) [
    | inr other ↦ rw other tt
    | inl ours ↦ rw ours (elim (Bool-cases (h.version == current_version)) [
      | inr old ↦ rw old tt
      | inl current ↦ rw current (parse_type-ParseSpec (known h.type))
    ])
  ]

-- Whatever the bytes, the reads of the header never fail, and what is parsed as a message is one
-- that create makes of the same fields, and takes up all the bytes.
pub parse_message_lem : (bytes : List ℕ) → ParseSpec bytes (parse_message bytes)
unfolding parse_message
parse_message_lem bytes = elim (Bool-cases (ltb (length bytes) header_size)) [
  | inl short ↦ rw short tt
  | inr enough ↦
      let (h, read) = read_header-some bytes (ground (arith, enough)) in
      rw (enough, read) (parse_header-ParseSpec bytes h)
]
