-- ===== src/Base/Map/Pointwise.antt =====
-- Properties of what every key has in a map, and the updates that keep them.
use hzl_silicon_switch_lab.Base.Tests.{if◌then◌else◌, has_value, Bool-cases}
use hzl_silicon_switch_lab.Base.Keys.{Order, equiv, equiv_iff}
use hzl_silicon_switch_lab.Base.Map.{
  Map, find, emplace, assign, insert_or_assign, erase, find-emplace, find-assign,
  find-insert_or_assign, find-erase,
}
use mathlib.Core.Path.{◌≡◌, sym, subst}
use mathlib.Core.Logic.{inl, inr}
use mathlib.Core.Bool.{true}
use mathlib.Core.Option.{Option, none, some}

module _ {ℓ κ μ} {K : Type ℓ} {V : Type κ} ⦃o : Order K⦄ (P : K → Option V → Type μ) where
  -- A key is the one that was written, or has what it had.
  at_key : (k q : K) (new old : Option V) → P k new → P q old → P q (if equiv q k then new else old)
  at_key k q new old h g = elim (Bool-cases (equiv q k)) [
    | inl same ↦ rw same (subst (λ x. P x new) (sym ((equiv_iff q k).0 same)) h)
    | inr other ↦ rw other g
  ]

  pub emplace-fits :
      (k : K) (v : V) (m : Map K V)
      → find k m ≡ none
      → P k (some v)
      → ((q : K) → P q (find q m))
      → (q : K) → P q (find q (emplace k v m))
  emplace-fits k v m absent h g q =
      rw (find-emplace k q v m absent) (at_key k q (some v) (find q m) h (g q))

  pub assign-fits :
      (k : K) (v : V) (m : Map K V)
      → has_value (find k m) ≡ true
      → P k (some v)
      → ((q : K) → P q (find q m))
      → (q : K) → P q (find q (assign k v m))
  assign-fits k v m present h g q =
      rw (find-assign k q v m, present) (at_key k q (some v) (find q m) h (g q))

  pub insert_or_assign-fits :
      (k : K) (v : V) (m : Map K V)
      → P k (some v)
      → ((q : K) → P q (find q m))
      → (q : K) → P q (find q (insert_or_assign k v m))
  insert_or_assign-fits k v m h g q =
      rw (find-insert_or_assign k q v m) (at_key k q (some v) (find q m) h (g q))

  pub erase-fits :
      (k : K) (m : Map K V)
      → P k none
      → ((q : K) → P q (find q m))
      → (q : K) → P q (find q (erase k m))
  erase-fits k m h g q = rw (find-erase k q m) (at_key k q none (find q m) h (g q))
