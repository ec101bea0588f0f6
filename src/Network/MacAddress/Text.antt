-- ===== src/Network/MacAddress/Text.antt =====
-- network/mac_address.cpp: the text form, six pairs of hexadecimal digits joined by colons. A text
-- is the list of its character codes.
use hzl_silicon_switch_lab.Base.{
  ℕ, ◌+◌, ◌-◌, ◌*◌, ◌/◌, ◌%◌, ◌^◌, ◌<◌, ◌≡◌, refl, Bool, true, false, not, ◌&&◌, List, [], ◌∷◌,
  Option, none, some, arith, ltb, leb, ◌==◌, if◌then◌else◌, ◌>>=◌, bit_and, bit_or, length, get_or,
  set, replicate, all_below, of_all_below, bit_or_fields, bit_and_low,
}
use hzl_silicon_switch_lab.Wire.{IsByte}
use hzl_silicon_switch_lab.Network.MacAddress.{MacAddress, mac_bytes, IsMac}

-- `hex_digit_value`
unfoldable pub hex_digit_value : ℕ → Option ℕ
hex_digit_value character =
    if leb b'0' character && leb character b'9'
    then some (character - b'0')
    else if leb b'a' character && leb character b'f'
    then some (character - b'a' + 10)
    else if leb b'A' character && leb character b'F'
    then some (character - b'A' + 10)
    else none

-- One round of the loop of `MacAddress::parse`.
unfoldable pub parse_byte : List ℕ → (index : ℕ) → Option ℕ
parse_byte text index = do
  high_nibble ← hex_digit_value (get_or text (index * 3) 0)
  low_nibble ← hex_digit_value (get_or text (index * 3 + 1) 0)
  if ltb (index + 1) 6 && not (get_or text (index * 3 + 2) 0 == b':')
      then none
      else some (bit_or (high_nibble * 2 ^ 4) low_nibble % 256)

-- `MacAddress::parse`
unfoldable pub parse_mac : List ℕ → Option MacAddress
parse_mac text =
    if length text == 17
    then (do
      byte0 ← parse_byte text 0
      byte1 ← parse_byte text 1
      byte2 ← parse_byte text 2
      byte3 ← parse_byte text 3
      byte4 ← parse_byte text 4
      byte5 ← parse_byte text 5
      some (record {
        byte0 = byte0;
        byte1 = byte1;
        byte2 = byte2;
        byte3 = byte3;
        byte4 = byte4;
        byte5 = byte5;
      }))
    else none

abbrev hexadecimal_digits : List ℕ
hexadecimal_digits =
    b'0' ∷ b'1' ∷ b'2' ∷ b'3' ∷ b'4' ∷ b'5' ∷ b'6' ∷ b'7' ∷ b'8' ∷ b'9' ∷ b'A' ∷ b'B' ∷ b'C' ∷ b'D'
    ∷ b'E' ∷ b'F' ∷ []

unfoldable pub hex_digit : ℕ → ℕ
hex_digit n = get_or hexadecimal_digits n 0

-- The loop of `MacAddress::to_string`, from `index` on.
format_loop : List ℕ → (index : ℕ) → List ℕ → List ℕ
format_loop result index [] = result
format_loop result index (byte ∷ bytes) =
    format_loop
      (set (set result (index * 3) (hex_digit (byte / 2 ^ 4))) (index * 3 + 1)
        (hex_digit (bit_and byte 0x0f)))
      (index + 1) bytes

-- `MacAddress::to_string`
unfoldable pub mac_to_string : MacAddress → List ℕ
unfolding format_loop
mac_to_string m = format_loop (replicate 17 b':') 0 (mac_bytes m)

is_value : Option ℕ → ℕ → Bool
is_value none n = false
is_value (some v) n = v == n

is_value_sound : (o : Option ℕ) (n : ℕ) → is_value o n ≡ true → o ≡ some n
unfolding is_value
is_value_sound o n h = ground arith

hex_table : all_below 16 (λ n. is_value (hex_digit_value (hex_digit n)) n) ≡ true
unfolding all_below is_value hex_digit_value hex_digit
hex_table = refl

hex_digit_value-hex_digit : (n : ℕ) → n < 16 → hex_digit_value (hex_digit n) ≡ some n
hex_digit_value-hex_digit n h = is_value_sound _ n (of_all_below 16 _ n hex_table h)

-- A pair of digits is read back as the byte that it was written for.
parse_byte-digits :
    (text : List ℕ) (index byte : ℕ)
    → IsByte byte
    → get_or text (index * 3) 0 ≡ hex_digit (byte / 2 ^ 4)
    → get_or text (index * 3 + 1) 0 ≡ hex_digit (bit_and byte 0x0f)
    → (ltb (index + 1) 6 && not (get_or text (index * 3 + 2) 0 == b':')) ≡ false
    → parse_byte text index ≡ some byte
unfolding parse_byte
parse_byte-digits text index byte h high low separator =
    rw
      (
        high,
        low,
        separator,
        hex_digit_value-hex_digit (byte / 2 ^ 4) (omega arith),
        hex_digit_value-hex_digit (bit_and byte 0x0f) (omega (arith, bit_and_low 4 byte)),
        bit_and_low 4 byte,
        bit_or_fields 4 (byte / 2 ^ 4) (byte % 2 ^ 4) (omega arith),
      )
      (ground arith)

-- The text of a MAC address of six bytes is read back as that address.
pub parse-mac_to_string : (m : MacAddress) → IsMac m → parse_mac (mac_to_string m) ≡ some m
unfolding parse_mac mac_to_string
parse-mac_to_string m (h0, (h1, (h2, (h3, (h4, (h5, end)))))) =
    let text = mac_to_string m in
    rw (
      parse_byte-digits text 0 m.byte0 h0 refl refl refl,
      parse_byte-digits text 1 m.byte1 h1 refl refl refl,
      parse_byte-digits text 2 m.byte2 h2 refl refl refl,
      parse_byte-digits text 3 m.byte3 h3 refl refl refl,
      parse_byte-digits text 4 m.byte4 h4 refl refl refl,
      parse_byte-digits text 5 m.byte5 h5 refl refl refl,
    )
