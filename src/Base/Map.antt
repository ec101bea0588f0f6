-- ===== src/Base/Map.antt =====
-- `std::map` and `std::set` as lists of entries in the order of their keys. Iterators that `find`
-- returns are read, written and erased through the key; a set is a map into the unit type.
pub mod Sorted
pub mod Pointwise
use Prim.Native.Nat.{ℕ, suc, ◌+◌, ◌≤◌, ◌<◌}
use mathlib.Core.Path.{◌≡◌, refl}
use mathlib.Core.Bool.{Bool, true, false, not, ◌&&◌}
use mathlib.Core.Option.{Option, none, some}
use mathlib.Core.List.{List, [], ◌∷◌}
use native.Mathlib.Omega.{arith}
use hzl_silicon_switch_lab.Base.Tests.{if◌then◌else◌, has_value, Bool-cases}
use hzl_silicon_switch_lab.Base.Lists.{length, All}
use hzl_silicon_switch_lab.Base.Keys.{Order, equiv, equiv_iff}

abbrev pub Map {ℓ κ} : Type ℓ → Type κ → Type (ℓ ⊔ κ)
Map K V = List (K × V)

-- The loop `if (p(it->second)) { it = m.erase(it); ++removed; } else { ++it; }` from the first entry:
-- the entries that stay, and the count.
unfoldable pub erase_if {ℓ κ} :
    {K : Type ℓ} {V : Type κ} → (V → Bool) → Map K V → (removed : ℕ) → Map K V × ℕ
erase_if p [] removed = ([], removed)
erase_if p ((k, v) ∷ m) removed =
    let (rest, total) = erase_if p m (if p v then removed + 1 else removed) in
    (if p v then rest else (k, v) ∷ rest, total)

module _ {ℓ κ} {K : Type ℓ} {V : Type κ} ⦃o : Order K⦄ where
  unfoldable pub find : K → Map K V → Option V
  find k [] = none
  find k ((j, v) ∷ m) = if equiv k j then some v else find k m

  -- `m.emplace(k, v)`: an entry that is there already stays.
  unfoldable pub emplace : K → V → Map K V → Map K V
  emplace k v [] = (k, v) ∷ []
  emplace k v ((j, w) ∷ m) =
      let rest = emplace k v m in
      if o.less k j then (k, v) ∷ (j, w) ∷ m else if o.less j k then (j, w) ∷ rest else (j, w) ∷ m

  -- `it->second = v`
  unfoldable pub assign : K → V → Map K V → Map K V
  assign k v [] = []
  assign k v ((j, w) ∷ m) = if equiv k j then (j, v) ∷ m else (j, w) ∷ assign k v m

  unfoldable pub insert_or_assign : K → V → Map K V → Map K V
  unfolding find emplace assign
  insert_or_assign k v m = if has_value (find k m) then assign k v m else emplace k v m

  -- `m.erase(k)`
  unfoldable pub erase : K → Map K V → Map K V
  erase k [] = []
  erase k ((j, v) ∷ m) = if equiv k j then erase k m else (j, v) ∷ erase k m

  pub find-emplace :
      (k q : K) (v : V) (m : Map K V)
      → find k m ≡ none
      → find q (emplace k v m) ≡ (if equiv q k then some v else find q m)
  unfolding find emplace
  find-emplace k q v [] h = refl
  find-emplace k q v ((j, w) ∷ m) h =
      ground
        (arith, find-emplace k q v m, equiv_iff q j, equiv_iff k j, equiv_iff q k, o.less_total k j)

  pub find-assign :
      (k q : K) (v : V) (m : Map K V)
      → find q (assign k v m)
        ≡ (if equiv q k then (if has_value (find k m) then some v else none) else find q m)
  unfolding find assign
  find-assign k q v [] = ground arith
  find-assign k q v ((j, w) ∷ m) =
      ground (arith, find-assign k q v m, equiv_iff q j, equiv_iff k j, equiv_iff q k)

  pub find-insert_or_assign :
      (k q : K) (v : V) (m : Map K V)
      → find q (insert_or_assign k v m) ≡ (if equiv q k then some v else find q m)
  unfolding insert_or_assign
  find-insert_or_assign k q v m = ground (arith, find-assign k q v m, find-emplace k q v m)

  pub find-erase :
      (k q : K) (m : Map K V) → find q (erase k m) ≡ (if equiv q k then none else find q m)
  unfolding find erase
  find-erase k q [] = ground arith
  find-erase k q ((j, w) ∷ m) =
      ground (arith, find-erase k q m, equiv_iff q j, equiv_iff k j, equiv_iff q k)

  pub length-emplace :
      (k : K) (v : V) (m : Map K V) → find k m ≡ none → length (emplace k v m) ≡ suc (length m)
  unfolding find emplace
  length-emplace k v [] h = refl
  length-emplace k v ((j, w) ∷ m) h =
      ground (arith, length-emplace k v m, equiv_iff k j, o.less_total k j)

  pub length-assign : (k : K) (v : V) (m : Map K V) → length (assign k v m) ≡ length m
  unfolding assign
  length-assign k v [] = refl
  length-assign k v ((j, w) ∷ m) = ground (arith, length-assign k v m)

  pub length-erase-le : (k : K) (m : Map K V) → length (erase k m) ≤ length m
  unfolding erase
  length-erase-le k [] = omega arith
  length-erase-le k ((j, w) ∷ m) = ground (arith, length-erase-le k m)
