-- ===== src/Network/Ipv4Prefix/Range.antt =====
-- The addresses of a prefix are those with its leading bits, a range of numbers.
use native.Mathlib.Nat.{
  div-add-mod', mul-div_cancel, div-eq_of_lt-le, mod-lt, one-le-pow, mod-eq_of_lt,
  div-lt_iff_lt-mul, mul-mod_left,
}
use hzl_silicon_switch_lab.Base.{
  ℕ, ◌+◌, ◌-◌, ◌*◌, ◌/◌, ◌%◌, ◌^◌, ◌≤◌, ◌<◌, ◌≡◌, refl, sym, ap, ◌∙◌, ◌↔◌, true, some, arith, ◌==◌,
  bit_and, bit_and_high, bit_and_low, bit_or_fields, all_below, of_all_below, ◌&&◌,
}
use hzl_silicon_switch_lab.Network.Ipv4Address.{Ipv4Address, IsAddress}
use hzl_silicon_switch_lab.Network.Ipv4Prefix.{
  Ipv4Prefix, IsPrefix, maximum_length, mask_value, create_prefix, contains, last_address,
}

-- The bits that a prefix of this length leaves free.
abbrev pub free_bits : ℕ → ℕ
free_bits length = maximum_length - length

pow_pos : (k : ℕ) → 0 < 2 ^ k
pow_pos k = one-le-pow k 2 (omega arith)

-- The multiple of `p` at or below a number, as a quotient and as a range.
module _ (a n p : ℕ) (pos : 0 < p) (multiple : n % p ≡ 0) where
  multiple_lem : n / p * p ≡ n
  multiple_lem = omega (arith, div-add-mod' n p)

  same_block : (a / p * p ≡ n) ↔ (a / p ≡ n / p)
  same_block = (
    λ e. sym (mul-div_cancel (a / p) pos) ∙ ap (λ (t : ℕ). t / p) e,
    λ e. ap (λ (t : ℕ). t * p) e ∙ multiple_lem,
  )

  block_range : (a / p * p ≡ n) ↔ ((n ≤ a) × (a ≤ n + (p - 1)))
  block_range = (
    λ e. omega (arith, div-add-mod' a p, mod-lt a pos),
    λ (lo, hi).
        same_block.1
          (div-eq_of_lt-le p (omega (arith, multiple_lem)) (omega (arith, multiple_lem))),
  )

mask_table :
    all_below 33 (λ len.
      mask_value len == (2 ^ len - 1) * 2 ^ free_bits len
      && 2 ^ len * 2 ^ free_bits len == 2 ^ 32
      && 0xffffffff - mask_value len == 2 ^ free_bits len - 1)
    ≡ true
unfolding all_below mask_value
mask_table = refl

mask_facts :
    (len : ℕ)
    → len ≤ maximum_length
    → (mask_value len ≡ (2 ^ len - 1) * 2 ^ free_bits len)
      × (2 ^ len * 2 ^ free_bits len ≡ 2 ^ 32)
      × (0xffffffff - mask_value len ≡ 2 ^ free_bits len - 1)
mask_facts len h = ground (
  arith,
  of_all_below 33
      (λ len.
        mask_value len == (2 ^ len - 1) * 2 ^ free_bits len
        && 2 ^ len * 2 ^ free_bits len == 2 ^ 32
        && 0xffffffff - mask_value len == 2 ^ free_bits len - 1)
      len mask_table,
)

-- Masking clears the free bits and keeps the others.
pub bit_and-mask_value :
    (len v : ℕ)
    → len ≤ maximum_length
    → v < 2 ^ 32
    → bit_and v (mask_value len) ≡ v / 2 ^ free_bits len * 2 ^ free_bits len
bit_and-mask_value len v short h =
    let (mask, whole, _) = mask_facts len short in
    rw (mask, bit_and_high (free_bits len) v (2 ^ len - 1), bit_and_low len (v / 2 ^ free_bits len))
      (ap (λ (t : ℕ). t * 2 ^ free_bits len)
        (mod-eq_of_lt ((div-lt_iff_lt-mul (pow_pos (free_bits len))).1 (rw whole h))))

-- What the factory of prefixes makes has at most 32 bits, no bit set past them, the length asked
-- for, and contains the address that it was made from.
pub create_prefix-IsPrefix :
    (address : Ipv4Address) (length : ℕ) (p : Ipv4Prefix)
    → IsAddress address
    → create_prefix address length ≡ some p
    → IsPrefix p × (p.length ≡ length) × (contains p address ≡ true)
unfolding create_prefix contains
create_prefix-IsPrefix address length p h e = ground (
  arith,
  bit_and-mask_value length address.value,
  mul-mod_left (address.value / 2 ^ free_bits length) (2 ^ free_bits length),
  div-add-mod' address.value (2 ^ free_bits length),
)

module _ (p : Ipv4Prefix) (address : Ipv4Address) (v : IsPrefix p) (h : IsAddress address) where
  last_address_lem : (last_address p).value ≡ p.network_address.value + (2 ^ free_bits p.length - 1)
  unfolding last_address
  last_address_lem = ground (
    arith,
    mask_facts p.length v.short,
    pow_pos (free_bits p.length),
    bit_or_fields (free_bits p.length) (p.network_address.value / 2 ^ free_bits p.length)
        (2 ^ free_bits p.length - 1),
    multiple_lem address.value p.network_address.value (2 ^ free_bits p.length)
        (pow_pos (free_bits p.length)) v.canonical,
  )

  -- An address lies in a prefix just when it agrees with the network on the leading bits.
  pub contains_iff_same_bits :
      (contains p address ≡ true)
      ↔ (address.value / 2 ^ free_bits p.length ≡ p.network_address.value / 2 ^ free_bits p.length)
  unfolding contains
  contains_iff_same_bits = rw (bit_and-mask_value p.length address.value v.short h) (
      ground (
        arith,
        same_block address.value p.network_address.value (2 ^ free_bits p.length)
            (pow_pos (free_bits p.length)) v.canonical,
      ))

  -- For a valid prefix, an address lies in it just when it lies between the network address and the
  -- last address.
  pub contains_iff_range :
      (contains p address ≡ true)
      ↔ ((p.network_address.value ≤ address.value) × (address.value ≤ (last_address p).value))
  unfolding contains
  contains_iff_range =
      rw (bit_and-mask_value p.length address.value v.short h, last_address_lem)
        (ground (
          arith,
          block_range address.value p.network_address.value (2 ^ free_bits p.length)
              (pow_pos (free_bits p.length)) v.canonical,
        ))
