-- ===== src/Network/Ipv4Address/Text.antt =====
-- network/ipv4_address.cpp: dotted decimal text, as a list of character codes.
use hzl_silicon_switch_lab.Base.{
  ℕ, ◌+◌, ◌-◌, ◌*◌, ◌/◌, ◌%◌, ◌^◌, ◌≤◌, ◌<◌, ◌≡◌, refl, Bool, true, false, ◌&&◌, ◌||◌, List, [],
  ◌∷◌, ◌++◌, Option, none, some, arith, ltb, ◌==◌, if◌then◌else◌, ◌>>=◌, ltb-true, ltb-false, ◌≢◌,
  ap, ◌∙◌,
}
use native.Mathlib.Decide.{dec_lt}
use mathlib.Core.List.{append-nil}
use hzl_silicon_switch_lab.Network.Ipv4Address.{
  Ipv4Address, IsAddress, of_octets, octets, of_octets_lem, octets_lem, address_of_value,
}

-- The digits of one octet: the `while` loop of `Ipv4Address::parse`. `rest` is the text from
-- `position` on; the result is the value, the number of digits and the text that is left.
unfoldable pub digits_loop : (rest : List ℕ) (octet_value digit_count : ℕ) → Option (ℕ × ℕ × List ℕ)
digits_loop [] octet_value digit_count = some (octet_value, digit_count, [])
digits_loop (character ∷ rest) octet_value digit_count =
    let value = octet_value * 10 + (character - b'0') in
    let more = digits_loop rest value (digit_count + 1) in
    if character == b'.'
    then some (octet_value, digit_count, character ∷ rest)
    else if ltb character b'0' || ltb b'9' character
    then none
    else if digit_count == 3
    then none
    else if ltb 255 value
    then none
    else more

-- `text[octet_start] == '0'`
starts_with_zero : List ℕ → Bool
starts_with_zero [] = false
starts_with_zero (c ∷ cs) = c == b'0'

-- What follows an octet: nothing after the last, a dot after the others.
separator : Bool → List ℕ → Option (List ℕ)
separator true [] = some []
separator true (c ∷ rest) = none
separator false [] = none
separator false (c ∷ rest) = if c == b'.' then some rest else none

-- One round of the `for` loop: the octet and the text after its separator.
unfoldable pub parse_octet : (is_last : Bool) → List ℕ → Option (ℕ × List ℕ)
unfolding separator starts_with_zero
parse_octet is_last [] = none
parse_octet is_last (c ∷ text) = do
  (octet_value, digit_count, rest) ← digits_loop (c ∷ text) 0 0
  if digit_count == 0
      then none
      else if ltb 1 digit_count && starts_with_zero (c ∷ text)
      then none
      else (do after ← separator is_last rest; some (octet_value, after))

-- `Ipv4Address::parse`
unfoldable pub parse_address : List ℕ → Option Ipv4Address
parse_address text = do
  (a, text1) ← parse_octet false text
  (b, text2) ← parse_octet false text1
  (c, text3) ← parse_octet false text2
  (d, text4) ← parse_octet true text3
  some (of_octets a b c d)

-- `std::to_chars` of a number below 1000: its decimal digits with no leading zero.
unfoldable pub decimal : ℕ → List ℕ
decimal n =
    if ltb n 10
    then (b'0' + n) ∷ []
    else if ltb n 100
    then (b'0' + n / 10) ∷ (b'0' + n % 10) ∷ []
    else (b'0' + n / 100) ∷ (b'0' + n / 10 % 10) ∷ (b'0' + n % 10) ∷ []

-- `Ipv4Address::to_string`
unfoldable pub address_to_string : Ipv4Address → List ℕ
address_to_string address =
    let (a, b, c, d) = octets address in
    decimal a ++ (b'.' ∷ decimal b ++ (b'.' ∷ decimal c ++ (b'.' ∷ decimal d)))

-- The text that stops the digit loop: its end, or a dot.
abbrev Stops : List ℕ → Type 0
Stops [] = Unit {0}
Stops (c ∷ rest) = c ≡ b'.'

digits_loop_stop :
    (rest : List ℕ) (value count : ℕ)
    → Stops rest
    → digits_loop rest value count ≡ some (value, count, rest)
unfolding digits_loop
digits_loop_stop [] value count s = refl
digits_loop_stop (c ∷ rest) value count s = ground arith

digits_loop_digit :
    (d value count : ℕ) (rest : List ℕ)
    → d < 10
    → count < 3
    → value * 10 + d ≤ 255
    → digits_loop ((b'0' + d) ∷ rest) value count ≡ digits_loop rest (value * 10 + d) (count + 1)
unfolding digits_loop
digits_loop_digit d value count rest hd hc hv = ground arith

two_digits :
    (a b : ℕ) (rest : List ℕ)
    → a < 10
    → b < 10
    → Stops rest
    → digits_loop ((b'0' + a) ∷ (b'0' + b) ∷ rest) 0 0 ≡ some (a * 10 + b, 2, rest)
two_digits a b rest ha hb s =
    digits_loop_digit a 0 0 ((b'0' + b) ∷ rest) ha (omega arith) (omega arith)
    ∙ (digits_loop_digit b (0 * 10 + a) 1 rest hb (omega arith) (omega arith)
        ∙ digits_loop_stop rest ((0 * 10 + a) * 10 + b) 2 s
        ∙ ground arith)

three_digits :
    (a b c : ℕ) (rest : List ℕ)
    → a < 10
    → b < 10
    → c < 10
    → a * 100 + b * 10 + c ≤ 255
    → Stops rest
    → digits_loop ((b'0' + a) ∷ (b'0' + b) ∷ (b'0' + c) ∷ rest) 0 0
      ≡ some (a * 100 + b * 10 + c, 3, rest)
three_digits a b c rest ha hb hc small s =
    digits_loop_digit a 0 0 ((b'0' + b) ∷ (b'0' + c) ∷ rest) ha (omega arith) (omega arith)
    ∙ (digits_loop_digit b (0 * 10 + a) 1 ((b'0' + c) ∷ rest) hb (omega arith) (omega arith)
        ∙ (digits_loop_digit c ((0 * 10 + a) * 10 + b) 2 rest hc (omega arith) (omega arith)
            ∙ digits_loop_stop rest (((0 * 10 + a) * 10 + b) * 10 + c) 3 s
            ∙ ground arith))

-- An octet's text has no leading zero, unless it is the digit zero alone.
parse_octet_of_digits :
    (is_last : Bool) (c : ℕ) (text : List ℕ) (n count : ℕ) (rest after : List ℕ)
    → digits_loop (c ∷ text) 0 0 ≡ some (n, count, rest)
    → 0 < count
    → (1 < count → c ≢ b'0')
    → separator is_last rest ≡ some after
    → parse_octet is_last (c ∷ text) ≡ some (n, after)
unfolding parse_octet
parse_octet_of_digits is_last c text n count rest after e pos lead sep =
    rw (e, sep) (ground (arith, lead))

-- The decimal text of an octet is read back, whatever it is that stops the loop.
parse_octet-decimal :
    (is_last : Bool) (n : ℕ) (rest after : List ℕ)
    → n < 256
    → Stops rest
    → separator is_last rest ≡ some after
    → parse_octet is_last (decimal n ++ rest) ≡ some (n, after)
unfolding decimal
parse_octet-decimal is_last n rest after h s e = elim (dec_lt n 10) [
  | yes small ↦ rw (ltb-true n 10 small) (
      parse_octet_of_digits is_last (b'0' + n) rest n 1 rest after
        (digits_loop_digit n 0 0 rest small (omega arith) (omega arith)
          ∙ digits_loop_stop rest (0 * 10 + n) 1 s
          ∙ ground arith)
        (omega arith) (λ k. absurd (omega arith)) e)
  | no large ↦ rw (ltb-false n 10 (omega arith)) (elim (dec_lt n 100) [
    | yes small ↦ rw (ltb-true n 100 small) (
        parse_octet_of_digits is_last _ _ n 2 rest after
          (two_digits (n / 10) (n % 10) rest (omega arith) (omega arith) s ∙ ground arith)
          (omega arith) (λ k. omega arith) e)
    | no huge ↦ rw (ltb-false n 100 (omega arith)) (
        parse_octet_of_digits is_last _ _ n 3 rest after
          (three_digits (n / 100) (n / 10 % 10) (n % 10) rest (omega arith) (omega arith)
              (omega arith) (omega arith) s
            ∙ ground arith)
          (omega arith) (λ k. omega arith) e)
  ])
]

middle_octet :
    (n : ℕ) (rest : List ℕ)
    → n < 256
    → parse_octet false (decimal n ++ (b'.' ∷ rest)) ≡ some (n, rest)
unfolding separator
middle_octet n rest h = parse_octet-decimal false n (b'.' ∷ rest) rest h refl refl

last_octet : (n : ℕ) → n < 256 → parse_octet true (decimal n) ≡ some (n, [])
unfolding separator
last_octet n h = rw append-nil at (parse_octet-decimal true n [] [] h tt refl)

of_octets-octets :
    (v : ℕ)
    → v < 2 ^ 32
    → of_octets (v / 2 ^ 24) (v / 2 ^ 16 % 256) (v / 2 ^ 8 % 256) (v % 256) ≡ record { value = v }
of_octets-octets v h = address_of_value _ _ (
    of_octets_lem (v / 2 ^ 24) (v / 2 ^ 16 % 256) (v / 2 ^ 8 % 256) (v % 256) (omega arith)
      (omega arith) (omega arith)
    ∙ omega arith)

-- The text of a 32-bit address is read back as that address.
pub parse-address_to_string :
    (address : Ipv4Address)
    → IsAddress address
    → parse_address (address_to_string address) ≡ some address
unfolding parse_address address_to_string
parse-address_to_string address h =
    let v = address.value in
    rw
      (
        octets_lem address h,
        middle_octet (v / 2 ^ 24) _ (omega arith),
        middle_octet (v / 2 ^ 16 % 256) _ (omega arith),
        middle_octet (v / 2 ^ 8 % 256) _ (omega arith),
        last_octet (v % 256) (omega arith),
      )
      (ap some (of_octets-octets v h))
