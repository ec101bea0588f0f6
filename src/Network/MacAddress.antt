-- ===== src/Network/MacAddress.antt =====
-- network/mac_address.hpp: the six bytes of a MAC address and their comparisons.
pub mod Text
use hzl_silicon_switch_lab.Base.{
  ℕ, ◌+◌, ◌^◌, ◌≤◌, ◌<◌, ◌≡◌, refl, ◌↔◌, ap, Bool, true, false, not, ◌&&◌, List, [], ◌∷◌, arith,
  ltb, ◌==◌, if◌then◌else◌, bit_and, All, Order, ltb_irrefl,
}
use hzl_silicon_switch_lab.Wire.{IsByte}

pub record MacAddress : Type 0 where
  pub byte0 : ℕ
  pub byte1 : ℕ
  pub byte2 : ℕ
  pub byte3 : ℕ
  pub byte4 : ℕ
  pub byte5 : ℕ

-- `MacAddress::bytes`, the array in its order.
abbrev pub mac_bytes : MacAddress → List ℕ
mac_bytes m = m.byte0 ∷ m.byte1 ∷ m.byte2 ∷ m.byte3 ∷ m.byte4 ∷ m.byte5 ∷ []

abbrev pub IsMac : MacAddress → Type 0
IsMac m = All IsByte (mac_bytes m)

abbrev pub unspecified_mac : MacAddress
unspecified_mac = record { byte0 = 0; byte1 = 0; byte2 = 0; byte3 = 0; byte4 = 0; byte5 = 0 }

all_ones : List ℕ → Bool
all_ones [] = true
all_ones (b ∷ bs) = b == 0xff && all_ones bs

-- `MacAddress::is_broadcast`
unfoldable pub is_broadcast : MacAddress → Bool
unfolding all_ones
is_broadcast m = all_ones (mac_bytes m)

-- `MacAddress::is_multicast`
unfoldable pub is_multicast : MacAddress → Bool
is_multicast m = not (bit_and m.byte0 0x01 == 0)

-- `MacAddress::is_unicast`
unfoldable pub is_unicast : MacAddress → Bool
unfolding is_multicast
is_unicast m = not (is_multicast m)

same_bytes : List ℕ → List ℕ → Bool
same_bytes [] ys = true
same_bytes (x ∷ xs) [] = false
same_bytes (x ∷ xs) (y ∷ ys) = if x == y then same_bytes xs ys else false

less_bytes : List ℕ → List ℕ → Bool
less_bytes [] ys = false
less_bytes (x ∷ xs) [] = false
less_bytes (x ∷ xs) (y ∷ ys) = if x == y then less_bytes xs ys else ltb x y

-- `MacAddress::operator==`
unfoldable pub mac_eq : MacAddress → MacAddress → Bool
unfolding same_bytes
mac_eq a b = same_bytes (mac_bytes a) (mac_bytes b)

-- `MacAddress::operator<`
unfoldable pub mac_less : MacAddress → MacAddress → Bool
unfolding less_bytes
mac_less a b = less_bytes (mac_bytes a) (mac_bytes b)

-- Neither the address of zeros nor a group address; five files of the program test this.
unfoldable pub is_usable_mac : MacAddress → Bool
unfolding mac_eq is_unicast
is_usable_mac m = not (mac_eq m unspecified_mac) && is_unicast m

abbrev SameLength : List ℕ → List ℕ → Type 0
SameLength [] [] = Unit {0}
SameLength [] (y ∷ ys) = ⊥
SameLength (x ∷ xs) [] = ⊥
SameLength (x ∷ xs) (y ∷ ys) = SameLength xs ys

same_bytes_sound : (xs ys : List ℕ) → SameLength xs ys → same_bytes xs ys ≡ true → xs ≡ ys
unfolding same_bytes
same_bytes_sound [] [] s h = refl
same_bytes_sound [] (y ∷ ys) s h = absurd s
same_bytes_sound (x ∷ xs) [] s h = absurd s
same_bytes_sound (x ∷ xs) (y ∷ ys) s h = ground (arith, same_bytes_sound xs ys s)

same_bytes_refl : (xs : List ℕ) → same_bytes xs xs ≡ true
unfolding same_bytes
same_bytes_refl [] = refl
same_bytes_refl (x ∷ xs) = ground (arith, same_bytes_refl xs)

pub mac_eq_iff : (a b : MacAddress) → (mac_eq a b ≡ true) ↔ (a ≡ b)
unfolding mac_eq
mac_eq_iff a b = (
  λ h. of_bytes (same_bytes_sound (mac_bytes a) (mac_bytes b) tt h),
  λ e. rw e (same_bytes_refl (mac_bytes b)),
)
  where
    of_bytes : mac_bytes a ≡ mac_bytes b → a ≡ b
    of_bytes e = ground arith

less_bytes_irrefl : (xs : List ℕ) → less_bytes xs xs ≡ false
unfolding less_bytes
less_bytes_irrefl [] = refl
less_bytes_irrefl (x ∷ xs) = ground (arith, less_bytes_irrefl xs)

less_bytes_trans :
    (xs ys zs : List ℕ)
    → SameLength xs ys
    → SameLength ys zs
    → less_bytes xs ys ≡ true
    → less_bytes ys zs ≡ true
    → less_bytes xs zs ≡ true
unfolding less_bytes
less_bytes_trans [] ys zs s t h k = cc
less_bytes_trans (x ∷ xs) [] zs s t h k = absurd s
less_bytes_trans (x ∷ xs) (y ∷ ys) [] s t h k = absurd t
less_bytes_trans (x ∷ xs) (y ∷ ys) (z ∷ zs) s t h k = ground (arith, less_bytes_trans xs ys zs s t)

less_bytes_total :
    (xs ys : List ℕ)
    → SameLength xs ys
    → less_bytes xs ys ≡ false
    → less_bytes ys xs ≡ false
    → same_bytes xs ys ≡ true
unfolding less_bytes same_bytes
less_bytes_total [] ys s h k = refl
less_bytes_total (x ∷ xs) [] s h k = absurd s
less_bytes_total (x ∷ xs) (y ∷ ys) s h k = ground (arith, less_bytes_total xs ys s)

pub mac_irrefl : (a : MacAddress) → mac_less a a ≡ false
unfolding mac_less
mac_irrefl a = less_bytes_irrefl (mac_bytes a)

pub mac_trans :
    (a b c : MacAddress) → mac_less a b ≡ true → mac_less b c ≡ true → mac_less a c ≡ true
unfolding mac_less
mac_trans a b c = less_bytes_trans (mac_bytes a) (mac_bytes b) (mac_bytes c) tt tt

pub mac_total : (a b : MacAddress) → mac_less a b ≡ false → mac_less b a ≡ false → a ≡ b
unfolding mac_less mac_eq
mac_total a b h k = (mac_eq_iff a b).0 (less_bytes_total (mac_bytes a) (mac_bytes b) tt h k)
