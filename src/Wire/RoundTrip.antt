-- ===== src/Wire/RoundTrip.antt =====
-- What a client of the wire functions relies on, at any width, offset and run of bytes.
use hzl_silicon_switch_lab.Base.{
  ℕ, ◌+◌, ◌^◌, ◌≤◌, ◌<◌, ◌≡◌, sym, ap, ◌∙◌, ◌↔◌, List, ◌++◌, some, none, arith, length,
  length-append, length-drop, take, drop, take-append-drop, length-take, drop-append_at,
  take-append_at,
}
use hzl_silicon_switch_lab.Wire.{read_big_endian, write_big_endian}
use hzl_silicon_switch_lab.Wire.Layout.{
  be_bytes, length-be_bytes, be_bytes-IsByte, read-be_value, write-be_bytes, be_value-of_fit,
}

module _ (size value offset : ℕ) (bytes : List ℕ) where
  cells : List ℕ
  cells = take size (drop offset bytes)

  rest : List ℕ
  rest = drop size (drop offset bytes)

  written : List ℕ
  written = take offset bytes ++ (be_bytes size value ++ rest)

  bytes_split : bytes ≡ take offset bytes ++ (cells ++ rest)
  unfolding cells rest
  bytes_split = sym (
      ap (λ t. take offset bytes ++ t) (take-append-drop size (drop offset bytes))
      ∙ take-append-drop offset bytes)

  -- A write of an integer that fits its size, at an offset that leaves room for it, is made, keeps
  -- every byte outside its cells, and is read back.
  pub read-write :
      0 < size
      → value < 256 ^ size
      → offset + size ≤ length bytes
      → (out : List ℕ) × (write_big_endian size value bytes offset ≡ some out)
        × (read_big_endian size out offset ≡ some value)
        × (length out ≡ length bytes)
        × (take offset out ≡ take offset bytes)
        × (drop size (drop offset out) ≡ drop size (drop offset bytes))
  unfolding written cells rest
  read-write pos fit room = (
    written,
    ap (λ t. write_big_endian size value t offset) bytes_split
        ∙ write-be_bytes size value (take offset bytes) cells rest offset at len,
    read-be_value size written (be_bytes size value) rest offset after (length-be_bytes size value)
          pos (be_bytes-IsByte size value)
        ∙ ap some (be_value-of_fit size value fit),
    SameLength,
    take-append_at offset (take offset bytes) _ at,
    ap (drop size) after ∙ drop-append_at size (be_bytes size value) _ (length-be_bytes size value),
  )
    where
      at : length (take offset bytes) ≡ offset
      at = length-take offset bytes (omega arith)

      len : length (take size (drop offset bytes)) ≡ size
      len = length-take size (drop offset bytes) (omega (arith, length-drop offset bytes))

      after :
          drop offset (take offset bytes ++ (be_bytes size value ++ drop size (drop offset bytes)))
          ≡ be_bytes size value ++ drop size (drop offset bytes)
      after = drop-append_at offset (take offset bytes) _ at

      SameLength :
          length (take offset bytes ++ (be_bytes size value ++ drop size (drop offset bytes)))
          ≡ length bytes
      SameLength = omega (
        arith,
        length-append (take offset bytes) (be_bytes size value ++ drop size (drop offset bytes)),
        length-append (be_bytes size value) (drop size (drop offset bytes)),
        length-be_bytes size value,
        length-drop size (drop offset bytes),
        length-drop offset bytes,
        at,
      )

  -- For a positive size, reading and writing are refused just when the integer does not lie inside
  -- the bytes.
  pub refused_iff :
      0 < size
      → ((read_big_endian size bytes offset ≡ none) ↔ (length bytes < offset + size))
        × ((write_big_endian size value bytes offset ≡ none) ↔ (length bytes < offset + size))
  unfolding read_big_endian write_big_endian
  refused_iff pos = ground arith
