-- ===== src/Network/Checksum.antt =====
-- network/internet_checksum.cpp, the 16-bit one's complement checksum.
pub mod Sum
use hzl_silicon_switch_lab.Base.{
  ℕ, ◌+◌, ◌-◌, ◌*◌, ◌/◌, ◌%◌, ◌^◌, List, [], ◌∷◌, Bool, true, false, not, ◌&&◌, ◌==◌, bit_and,
  bit_or,
}

-- `fold_carry`
unfoldable pub fold_carry : ℕ → ℕ
fold_carry value = bit_and value 0xffff + value / 2 ^ 16

-- The loop of `compute_internet_checksum` and the odd byte after it, in 32-bit arithmetic.
unfoldable pub sum_loop : List ℕ → (sum : ℕ) → ℕ
unfolding fold_carry
sum_loop [] sum = sum
sum_loop (high ∷ []) sum = fold_carry ((sum + high * 2 ^ 8 % 2 ^ 16) % 2 ^ 32)
sum_loop (high ∷ low ∷ bytes) sum =
    sum_loop bytes (fold_carry ((sum + bit_or (high * 2 ^ 8) low % 2 ^ 16) % 2 ^ 32))

-- `compute_internet_checksum`; `~sum` of 32 bits is `0xffffffff - sum`.
unfoldable pub compute_internet_checksum : List ℕ → ℕ
unfolding sum_loop
compute_internet_checksum bytes = bit_and (0xffffffff - fold_carry (sum_loop bytes 0)) 0xffff

is_empty : List ℕ → Bool
is_empty [] = true
is_empty (b ∷ bs) = false

-- `has_valid_internet_checksum`
unfoldable pub has_valid_internet_checksum : List ℕ → Bool
unfolding is_empty
has_valid_internet_checksum bytes = not (is_empty bytes) && compute_internet_checksum bytes == 0
