-- ===== src/Network/Ipv4Prefix/Text.antt =====
-- network/ipv4_prefix.cpp: the text of a prefix, an address and a length joined by a slash.
use native.Mathlib.Nat.{div-add-mod'}
use native.Mathlib.Numerals.{add-one}
use hzl_silicon_switch_lab.Base.{
  ℕ, ◌+◌, ◌-◌, ◌*◌, ◌^◌, ◌≤◌, ◌≡◌, ◌≢◌, refl, Bool, true, false, not, ◌&&◌, ◌||◌, List, [], ◌∷◌,
  ◌++◌, Option, none, some, arith, ltb, leb, ◌==◌, if◌then◌else◌, ◌>>=◌, has_value, length, take,
  drop, All, All-append, all_below, of_all_below, take-append_at,
}
use hzl_silicon_switch_lab.Network.Ipv4Address.{Ipv4Address, octets}
use hzl_silicon_switch_lab.Network.Ipv4Address.Text.{
  decimal, address_to_string, parse_address, parse-address_to_string,
}
use hzl_silicon_switch_lab.Network.Ipv4Prefix.{Ipv4Prefix, IsPrefix, maximum_length, create_prefix}
use hzl_silicon_switch_lab.Network.Ipv4Prefix.Range.{bit_and-mask_value, free_bits}

-- `text.find(c)`
unfoldable pub find_char : ℕ → List ℕ → Option ℕ
find_char c [] = none
find_char c (x ∷ xs) = if x == c then some 0 else (do i ← find_char c xs; some (i + 1))

is_digit : ℕ → Bool
is_digit c = leb b'0' c && leb c b'9'

-- The digits that `std::from_chars` consumes, with the value that they have.
digits_value : List ℕ → (value : ℕ) → ℕ × List ℕ
unfolding is_digit
digits_value [] value = (value, [])
digits_value (c ∷ cs) value =
    if is_digit c then digits_value cs (value * 10 + (c - b'0')) else (value, c ∷ cs)

-- `std::from_chars` into an `unsigned int`: no digit, or a value past 32 bits, is an error.
from_chars : List ℕ → Option (ℕ × List ℕ)
from_chars [] = none
from_chars (c ∷ cs) =
    let (value, rest) = digits_value (c ∷ cs) 0 in
    if is_digit c && ltb value (2 ^ 32) then some (value, rest) else none

is_empty : List ℕ → Bool
is_empty [] = true
is_empty (c ∷ cs) = false

starts_with_zero : List ℕ → Bool
starts_with_zero [] = false
starts_with_zero (c ∷ cs) = c == b'0'

-- The length text of `Ipv4Prefix::parse`, its guards and its conversion.
unfoldable pub parse_length : List ℕ → Option ℕ
unfolding from_chars digits_value is_digit is_empty starts_with_zero
parse_length length_text =
    if is_empty length_text || ltb 1 (length length_text) && starts_with_zero length_text
    then none
    else (do
      (parsed_length, rest) ← from_chars length_text
      if not (is_empty rest) || ltb maximum_length parsed_length then none else some parsed_length)

-- `Ipv4Prefix::parse`
unfoldable pub parse_prefix : List ℕ → Option Ipv4Prefix
parse_prefix text = do
  separator_position ← find_char b'/' text
  if has_value (find_char b'/' (drop (separator_position + 1) text)) then none else (do
    address ← parse_address (take separator_position text)
    parsed_length ← parse_length (drop (separator_position + 1) text)
    create_prefix address parsed_length)

-- `Ipv4Prefix::to_string`
unfoldable pub prefix_to_string : Ipv4Prefix → List ℕ
prefix_to_string p = address_to_string p.network_address ++ (b'/' ∷ decimal p.length)

find_char-append :
    (c : ℕ) (xs ys : List ℕ) → All (λ x. x ≢ c) xs → find_char c (xs ++ (c ∷ ys)) ≡ some (length xs)
unfolding find_char
find_char-append c [] ys h = ground arith
find_char-append c (x ∷ xs) ys h = ground (arith, find_char-append c xs ys h.1)

find_char-absent : (c : ℕ) (xs : List ℕ) → All (λ x. x ≢ c) xs → find_char c xs ≡ none
unfolding find_char
find_char-absent c [] h = refl
find_char-absent c (x ∷ xs) h = ground (arith, find_char-absent c xs h.1)

abbrev NoSlash : List ℕ → Type 0
NoSlash = All (λ x. x ≢ b'/')

decimal-NoSlash : (n : ℕ) → NoSlash (decimal n)
unfolding decimal
decimal-NoSlash n = ground arith

dotted : (n : ℕ) (rest : List ℕ) → NoSlash rest → NoSlash (decimal n ++ (b'.' ∷ rest))
dotted n rest h =
    All-append (λ x. x ≢ b'/') (decimal n) (b'.' ∷ rest) (decimal-NoSlash n) (omega arith, h)

address_to_string-NoSlash : (a : Ipv4Address) → NoSlash (address_to_string a)
unfolding address_to_string
address_to_string-NoSlash a =
    let o = octets a in dotted o.0 _ (dotted o.1 _ (dotted o.2 _ (decimal-NoSlash o.3)))

is_value : Option ℕ → ℕ → Bool
is_value none n = false
is_value (some v) n = v == n

is_value_sound : (o : Option ℕ) (n : ℕ) → is_value o n ≡ true → o ≡ some n
unfolding is_value
is_value_sound o n h = ground arith

length_table : all_below 33 (λ n. is_value (parse_length (decimal n)) n) ≡ true
unfolding all_below is_value parse_length decimal
length_table = refl

parse_length-decimal : (n : ℕ) → n ≤ maximum_length → parse_length (decimal n) ≡ some n
parse_length-decimal n h =
    is_value_sound _ n
      (of_all_below 33 (λ n. is_value (parse_length (decimal n)) n) n length_table (omega arith))

-- A canonical network address is made again by `create`.
create_prefix-of : (p : Ipv4Prefix) → IsPrefix p → create_prefix p.network_address p.length ≡ some p
unfolding create_prefix
create_prefix-of p v = ground (
  arith,
  bit_and-mask_value p.length p.network_address.value,
  div-add-mod' p.network_address.value (2 ^ free_bits p.length),
)

after_slash : (a rest : List ℕ) → drop (length a + 1) (a ++ (b'/' ∷ rest)) ≡ rest
after_slash [] rest = refl
after_slash (x ∷ a) rest = rw add-one (rw add-one at (after_slash a rest))

-- The text of a valid prefix is read back as that prefix.
pub parse-prefix_to_string :
    (p : Ipv4Prefix) → IsPrefix p → parse_prefix (prefix_to_string p) ≡ some p
unfolding parse_prefix prefix_to_string
parse-prefix_to_string p v =
    let a = address_to_string p.network_address in
    rw
      (
        find_char-append b'/' a (decimal p.length) (address_to_string-NoSlash p.network_address),
        after_slash a (decimal p.length),
        find_char-absent b'/' (decimal p.length) (decimal-NoSlash p.length),
        take-append_at (length a) a (b'/' ∷ decimal p.length) refl,
        parse-address_to_string p.network_address v.address,
        parse_length-decimal p.length v.short,
      )
      (create_prefix-of p v)
