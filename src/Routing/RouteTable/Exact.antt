-- ===== src/Routing/RouteTable/Exact.antt =====
-- The table of routes as a map from prefixes.
use hzl_silicon_switch_lab.Base.{
  ◌≡◌, refl, ap, ◌∙◌, true, false, [], ◌∷◌, ◌++◌, Option, none, some, arith, if◌then◌else◌,
  has_value, Bool-cases, inl, inr, sym, some_inj,
}
use hzl_silicon_switch_lab.Network.Ipv4Prefix.{Ipv4Prefix, prefix_eq, prefix_eq_iff}
use hzl_silicon_switch_lab.Routing.RouteTable.{
  RouteEntry, inserted, replaced, Ipv4RouteTable, find_exact, replace_entry, erase_entry,
  add_or_replace, remove,
}

-- No two entries have one prefix.
abbrev pub IsRouteTable : Ipv4RouteTable → Type 0
IsRouteTable [] = Unit {0}
IsRouteTable (entry ∷ entries) = (find_exact entries entry.prefix ≡ none) × IsRouteTable entries

pub find_exact-prefix :
    (entries : Ipv4RouteTable) (q : Ipv4Prefix) (entry : RouteEntry)
    → find_exact entries q ≡ some entry
    → entry.prefix ≡ q
unfolding find_exact
find_exact-prefix [] q entry e = cc
find_exact-prefix (x ∷ entries) q entry e = elim (Bool-cases (prefix_eq x.prefix q)) [
  | inl same ↦
      ap (λ r. r.prefix) (sym (some_inj (rw same at e))) ∙ (prefix_eq_iff x.prefix q).0 same
  | inr other ↦ find_exact-prefix entries q entry (rw other at e)
]

find_exact-replace :
    (entries : Ipv4RouteTable) (entry : RouteEntry) (q : Ipv4Prefix)
    → find_exact (replace_entry entries entry) q ≡ (
        if prefix_eq entry.prefix q
        then (if has_value (find_exact entries q) then some entry else none)
        else find_exact entries q)
unfolding find_exact replace_entry
find_exact-replace [] entry q = ground arith
find_exact-replace (x ∷ entries) entry q = ground (
  arith,
  find_exact-replace entries entry q,
  prefix_eq_iff x.prefix entry.prefix,
  prefix_eq_iff entry.prefix q,
  prefix_eq_iff x.prefix q,
)

find_exact-append :
    (entries : Ipv4RouteTable) (entry : RouteEntry) (q : Ipv4Prefix)
    → find_exact entries entry.prefix ≡ none
    → find_exact (entries ++ (entry ∷ [])) q
      ≡ (if prefix_eq entry.prefix q then some entry else find_exact entries q)
unfolding find_exact
find_exact-append [] entry q h = refl
find_exact-append (x ∷ entries) entry q h = ground (
  arith,
  find_exact-append entries entry q,
  prefix_eq_iff x.prefix entry.prefix,
  prefix_eq_iff entry.prefix q,
  prefix_eq_iff x.prefix q,
)

find_exact-erase :
    (entries : Ipv4RouteTable) (prefix q : Ipv4Prefix)
    → IsRouteTable entries
    → find_exact (erase_entry entries prefix) q
      ≡ (if prefix_eq prefix q then none else find_exact entries q)
unfolding find_exact erase_entry
find_exact-erase [] prefix q v = ground arith
find_exact-erase (x ∷ entries) prefix q v = ground (
  arith,
  v.0,
  find_exact-erase entries prefix q v.1,
  prefix_eq_iff x.prefix prefix,
  prefix_eq_iff prefix q,
  prefix_eq_iff x.prefix q,
)

no_value : {entry : Option RouteEntry} → has_value entry ≡ false → entry ≡ none
no_value {entry = none} h = refl
no_value {entry = some x} h = cc

replace-IsRouteTable :
    (entries : Ipv4RouteTable) (entry : RouteEntry)
    → IsRouteTable entries
    → IsRouteTable (replace_entry entries entry)
unfolding replace_entry
replace-IsRouteTable [] entry v = tt
replace-IsRouteTable (x ∷ entries) entry v = ground (
  arith,
  prefix_eq_iff x.prefix entry.prefix,
  prefix_eq_iff entry.prefix x.prefix,
  find_exact-replace entries entry x.prefix,
  replace-IsRouteTable entries entry v.1,
  v.0,
)

append-IsRouteTable :
    (entries : Ipv4RouteTable) (entry : RouteEntry)
    → find_exact entries entry.prefix ≡ none
    → IsRouteTable entries
    → IsRouteTable (entries ++ (entry ∷ []))
unfolding find_exact
append-IsRouteTable [] entry h v = (refl, tt)
append-IsRouteTable (x ∷ entries) entry h v = ground (
  arith,
  h,
  prefix_eq_iff x.prefix entry.prefix,
  prefix_eq_iff entry.prefix x.prefix,
  find_exact-append entries entry x.prefix,
  append-IsRouteTable entries entry,
  v.0,
  v.1,
)

erase-IsRouteTable :
    (entries : Ipv4RouteTable) (prefix : Ipv4Prefix)
    → IsRouteTable entries
    → IsRouteTable (erase_entry entries prefix)
unfolding erase_entry
erase-IsRouteTable [] prefix v = tt
erase-IsRouteTable (x ∷ entries) prefix v = ground (
  arith,
  find_exact-erase entries prefix x.prefix v.1,
  erase-IsRouteTable entries prefix v.1,
  v.0,
  v.1,
)

replaced_as :
    (entries : Ipv4RouteTable) (entry : RouteEntry) (q : Ipv4Prefix)
    → has_value (find_exact entries entry.prefix) ≡ true
    → (if prefix_eq entry.prefix q
        then (if has_value (find_exact entries q) then some entry else none)
        else find_exact entries q)
      ≡ (if prefix_eq entry.prefix q then some entry else find_exact entries q)
replaced_as entries entry q found = ground (arith, prefix_eq_iff entry.prefix q, found)

-- After an addition the prefix has the new entry and every other prefix what it had; the result
-- says whether the prefix had an entry before.
pub find_exact-add_or_replace :
    (entries : Ipv4RouteTable) (entry : RouteEntry)
    → ((q : Ipv4Prefix)
        → find_exact (add_or_replace entries entry).0 q
          ≡ (if prefix_eq entry.prefix q then some entry else find_exact entries q))
      × ((add_or_replace entries entry).1
          ≡ (if has_value (find_exact entries entry.prefix) then replaced else inserted))
unfolding add_or_replace
find_exact-add_or_replace entries entry =
    elim (Bool-cases (has_value (find_exact entries entry.prefix))) [
      | inl found ↦
          rw found
            (λ q. find_exact-replace entries entry q ∙ replaced_as entries entry q found, refl)
      | inr missing ↦ rw missing (λ q. find_exact-append entries entry q (no_value missing), refl)
    ]

-- With no prefix twice in the table, after a removal the prefix has no entry and every other prefix
-- what it had; the result says whether the prefix had an entry before.
pub find_exact-remove :
    (entries : Ipv4RouteTable) (prefix : Ipv4Prefix)
    → IsRouteTable entries
    → ((q : Ipv4Prefix)
        → find_exact (remove entries prefix).0 q
          ≡ (if prefix_eq prefix q then none else find_exact entries q))
      × ((remove entries prefix).1 ≡ has_value (find_exact entries prefix))
unfolding remove
find_exact-remove entries prefix v = elim (Bool-cases (has_value (find_exact entries prefix))) [
  | inl found ↦ rw found (λ q. find_exact-erase entries prefix q v, refl)
  | inr missing ↦ rw missing (λ q. ground (arith, no_value missing, prefix_eq_iff prefix q), refl)
]

-- An addition keeps the prefixes of the table apart.
pub add_or_replace-IsRouteTable :
    (entries : Ipv4RouteTable) (entry : RouteEntry)
    → IsRouteTable entries
    → IsRouteTable (add_or_replace entries entry).0
add_or_replace-IsRouteTable entries entry v =
    elim (Bool-cases (has_value (find_exact entries entry.prefix))) [
      | inl found ↦ unfold add_or_replace in rw found (replace-IsRouteTable entries entry v)
      | inr missing ↦
          unfold add_or_replace in
          rw missing (append-IsRouteTable entries entry (no_value missing) v)
    ]

-- `remove` keeps the prefixes of the table apart.
pub remove-IsRouteTable :
    (entries : Ipv4RouteTable) (prefix : Ipv4Prefix)
    → IsRouteTable entries
    → IsRouteTable (remove entries prefix).0
remove-IsRouteTable entries prefix v = elim (Bool-cases (has_value (find_exact entries prefix))) [
  | inl found ↦ unfold remove in rw found (erase-IsRouteTable entries prefix v)
  | inr missing ↦ unfold remove in rw missing v
]
