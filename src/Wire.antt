-- ===== src/Wire.antt =====
-- network/byte_order.hpp and byte_span.hpp: big-endian integers in a run of bytes. A span is the
-- list of its bytes; a write that the code refuses, which leaves the bytes alone, is `none`.
pub mod Layout
pub mod RoundTrip
pub mod Fields
use hzl_silicon_switch_lab.Base.{
  ℕ, zero, suc, ◌+◌, ◌-◌, ◌*◌, ◌/◌, ◌%◌, ◌^◌, ◌<◌, bit_or, List, Option, some, none, ltb, ◌||◌,
  if◌then◌else◌, length, get_or, set, value_or,
}

abbrev pub IsByte : ℕ → Type 0
IsByte b = b < 256

-- The loop of `read_big_endian`: `position` is `offset + index`, `remaining` the rounds left.
unfoldable pub read_loop : (size : ℕ) → List ℕ → (remaining position value : ℕ) → ℕ
read_loop size bytes zero position value = value
read_loop size bytes (suc remaining) position value =
    read_loop size bytes remaining (position + 1)
      (bit_or (value * 2 ^ 8) (get_or bytes position 0) % 256 ^ size)

-- `read_big_endian<Integer>(bytes, offset)`, for an `Integer` of `size` bytes.
unfoldable pub read_big_endian : (size : ℕ) → List ℕ → (offset : ℕ) → Option ℕ
read_big_endian size bytes offset =
    if ltb (length bytes) offset || ltb (length bytes - offset) size
    then none
    else some (read_loop size bytes size offset 0)

-- The loop of `write_big_endian`: the byte written last in `remaining` rounds is the lowest.
unfoldable pub write_loop : (value : ℕ) → List ℕ → (remaining position : ℕ) → List ℕ
write_loop value bytes zero position = bytes
write_loop value bytes (suc remaining) position =
    write_loop value (set bytes position (value / 256 ^ remaining % 256)) remaining (position + 1)

-- `write_big_endian<Integer>(value, bytes, offset)`
unfoldable pub write_big_endian : (size value : ℕ) → List ℕ → (offset : ℕ) → Option (List ℕ)
write_big_endian size value bytes offset =
    if ltb (length bytes) offset || ltb (length bytes - offset) size
    then none
    else some (write_loop value bytes size offset)

-- A write whose result the code discards: bytes that it refuses stay as they are.
unfoldable pub write_field : (size value : ℕ) → List ℕ → (offset : ℕ) → List ℕ
unfolding write_big_endian
write_field size value bytes offset = value_or (write_big_endian size value bytes offset) bytes
