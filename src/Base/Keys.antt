-- ===== src/Base/Keys.antt =====
-- Keys of the ordered containers: a strict order, as `std::less` or a comparison class gives one.
use Prim.Native.Nat.{ℕ}
use mathlib.Core.Path.{◌≡◌, refl}
use mathlib.Core.Logic.{◌↔◌}
use mathlib.Core.Bool.{Bool, true, false, ◌&&◌, not}
use native.Mathlib.Omega.{arith}
use hzl_silicon_switch_lab.Base.Tests.{ltb}

-- Keys that neither precede one another are one key.
pub record Order {ℓ} (K : Type ℓ) : Type ℓ where
  pub less : K → K → Bool
  pub less_irrefl : (a : K) → less a a ≡ false
  pub less_trans : (a b c : K) → less a b ≡ true → less b c ≡ true → less a c ≡ true
  pub less_total : (a b : K) → less a b ≡ false → less b a ≡ false → a ≡ b

module _ {ℓ} {K : Type ℓ} ⦃o : Order K⦄ where
  -- The equivalence by which `std::map` and `std::set` compare keys.
  unfoldable pub equiv : K → K → Bool
  equiv a b = not (o.less a b) && not (o.less b a)

  pub equiv_iff : (a b : K) → (equiv a b ≡ true) ↔ (a ≡ b)
  unfolding equiv
  equiv_iff a b =
      (λ h. ground (arith, o.less_total a b), λ e. rw e (ground (arith, o.less_irrefl b)))

  pub equiv_refl : (a : K) → equiv a a ≡ true
  equiv_refl a = (equiv_iff a a).1 refl

  pub equiv_symm : (a b : K) → equiv a b ≡ equiv b a
  unfolding equiv
  equiv_symm a b = ground arith

pub ltb_irrefl : (a : ℕ) → ltb a a ≡ false
ltb_irrefl a = ground arith

pub ltb_trans : (a b c : ℕ) → ltb a b ≡ true → ltb b c ≡ true → ltb a c ≡ true
ltb_trans a b c h k = ground arith

pub ltb_total : (a b : ℕ) → ltb a b ≡ false → ltb b a ≡ false → a ≡ b
ltb_total a b h k = ground arith

instance abbrev pub nat_order : Order ℕ
nat_order = record {
  less = ltb;
  less_irrefl = ltb_irrefl;
  less_trans = ltb_trans;
  less_total = ltb_total;
}
