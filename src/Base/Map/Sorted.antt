-- ===== src/Base/Map/Sorted.antt =====
-- Maps whose keys rise: kept by every operation, and so no key stands twice.
use Prim.Native.Nat.{ℕ, ◌+◌}
use mathlib.Core.Path.{◌≡◌, refl}
use mathlib.Core.Bool.{Bool, true}
use mathlib.Core.Option.{Option, none, some}
use mathlib.Core.List.{[], ◌∷◌}
use native.Mathlib.Omega.{arith}
use hzl_silicon_switch_lab.Base.Tests.{if◌then◌else◌}
use hzl_silicon_switch_lab.Base.Lists.{length}
use hzl_silicon_switch_lab.Base.Keys.{Order, equiv_iff}
use hzl_silicon_switch_lab.Base.Map.{Map, find, emplace, assign, insert_or_assign, erase, erase_if}

-- The map without the entries that meet the test.
unfoldable pub without {ℓ κ} : {K : Type ℓ} {V : Type κ} → (V → Bool) → Map K V → Map K V
without p [] = []
without p ((k, v) ∷ m) = if p v then without p m else (k, v) ∷ without p m

-- An entry that meets the test reads as absent.
abbrev pub drop_if {κ} : {V : Type κ} → (V → Bool) → Option V → Option V
drop_if p none = none
drop_if p (some v) = if p v then none else some v

module _ {ℓ κ} {K : Type ℓ} {V : Type κ} ⦃o : Order K⦄ where
  -- Every key of the map comes after `k`.
  abbrev pub After : K → Map K V → Type 0
  After k [] = Unit {0}
  After k ((j, v) ∷ m) = (o.less k j ≡ true) × After k m

  abbrev pub Sorted : Map K V → Type 0
  Sorted [] = Unit {0}
  Sorted ((k, v) ∷ m) = After k m × Sorted m

  After-trans : (j k : K) (m : Map K V) → o.less j k ≡ true → After k m → After j m
  After-trans j k [] h a = tt
  After-trans j k ((i, v) ∷ m) h a = (o.less_trans j k i h a.0, After-trans j k m h a.1)

  After-emplace :
      (j k : K) (v : V) (m : Map K V) → o.less j k ≡ true → After j m → After j (emplace k v m)
  unfolding emplace
  After-emplace j k v [] h a = (h, tt)
  After-emplace j k v ((i, w) ∷ m) h a = ground (arith, After-emplace j k v m h a.1)

  pub emplace-Sorted : (k : K) (v : V) (m : Map K V) → Sorted m → Sorted (emplace k v m)
  unfolding emplace
  emplace-Sorted k v [] s = (tt, tt)
  emplace-Sorted k v ((i, w) ∷ m) s =
      ground (arith, emplace-Sorted k v m s.1, After-emplace i k v m, After-trans k i m)

  After-assign : (j k : K) (v : V) (m : Map K V) → After j m → After j (assign k v m)
  unfolding assign
  After-assign j k v [] a = tt
  After-assign j k v ((i, w) ∷ m) a = ground (arith, After-assign j k v m a.1)

  pub assign-Sorted : (k : K) (v : V) (m : Map K V) → Sorted m → Sorted (assign k v m)
  unfolding assign
  assign-Sorted k v [] s = tt
  assign-Sorted k v ((i, w) ∷ m) s =
      ground (arith, assign-Sorted k v m s.1, After-assign i k v m s.0)

  pub insert_or_assign-Sorted :
      (k : K) (v : V) (m : Map K V) → Sorted m → Sorted (insert_or_assign k v m)
  unfolding insert_or_assign
  insert_or_assign-Sorted k v m s = ground (arith, emplace-Sorted k v m s, assign-Sorted k v m s)

  After-erase : (j k : K) (m : Map K V) → After j m → After j (erase k m)
  unfolding erase
  After-erase j k [] a = tt
  After-erase j k ((i, w) ∷ m) a = ground (arith, After-erase j k m a.1)

  pub erase-Sorted : (k : K) (m : Map K V) → Sorted m → Sorted (erase k m)
  unfolding erase
  erase-Sorted k [] s = tt
  erase-Sorted k ((i, w) ∷ m) s = ground (arith, erase-Sorted k m s.1, After-erase i k m s.0)

  find-After : (k : K) (m : Map K V) → After k m → find k m ≡ none
  unfolding find
  find-After k [] a = refl
  find-After k ((i, w) ∷ m) a = ground (arith, find-After k m a.1, equiv_iff k i, o.less_irrefl k)

  pub erase_if-without : (p : V → Bool) (m : Map K V) (n : ℕ) → (erase_if p m n).0 ≡ without p m
  unfolding erase_if without
  erase_if-without p [] n = refl
  erase_if-without p ((k, v) ∷ m) n = rw (erase_if-without p m (if p v then n + 1 else n))

  -- The count says how many entries went.
  pub erase_if-count :
      (p : V → Bool) (m : Map K V) (n : ℕ)
      → (erase_if p m n).1 + length (without p m) ≡ n + length m
  unfolding erase_if without
  erase_if-count p [] n = omega arith
  erase_if-count p ((k, v) ∷ m) n = ground (arith, erase_if-count p m (n + 1), erase_if-count p m n)

  After-without : (j : K) (p : V → Bool) (m : Map K V) → After j m → After j (without p m)
  unfolding without
  After-without j p [] a = tt
  After-without j p ((i, w) ∷ m) a = ground (arith, After-without j p m a.1)

  pub without-Sorted : (p : V → Bool) (m : Map K V) → Sorted m → Sorted (without p m)
  unfolding without
  without-Sorted p [] s = tt
  without-Sorted p ((i, w) ∷ m) s = ground (arith, without-Sorted p m s.1, After-without i p m s.0)

  pub find-without :
      (p : V → Bool) (q : K) (m : Map K V) → Sorted m → find q (without p m) ≡ drop_if p (find q m)
  unfolding find without
  find-without p q [] s = refl
  find-without p q ((i, w) ∷ m) s =
      ground (arith, find-without p q m s.1, find-After i m s.0, equiv_iff q i, equiv_iff i i)
