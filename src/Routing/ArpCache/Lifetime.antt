-- ===== src/Routing/ArpCache/Lifetime.antt =====
-- How long the cache answers for a neighbour.
use hzl_silicon_switch_lab.Base.{
  ℕ, ◌+◌, ◌≤◌, ◌<◌, ◌≡◌, refl, ap, ◌∙◌, Bool, true, false, not, ◌&&◌, ◌||◌, Option, none, some,
  arith, leb, if◌then◌else◌, length, equiv, Bool-cases, inl, inr,
}
use hzl_silicon_switch_lab.Base.Map.{find, find-emplace, find-assign, find-erase}
use hzl_silicon_switch_lab.Base.Map.Sorted.{
  Sorted, emplace-Sorted, assign-Sorted, without, without-Sorted, erase_if-without, erase_if-count,
  find-without, drop_if,
}
use hzl_silicon_switch_lab.Network.Ipv4Address.{Ipv4Address, address_order}
use hzl_silicon_switch_lab.Network.MacAddress.{MacAddress}
use hzl_silicon_switch_lab.Routing.ArpCache.{
  ArpCache, Entry, ArpCacheUpdate, inserted, replaced, rejected, is_valid_address,
  is_valid_mac_address, store, add_or_replace, is_expired, live_entry, lookup, remove, expire,
  create_cache,
}

-- A lifetime that is positive, and entries in the order of their addresses.
pub record IsCache (cache : ArpCache) : Type 0 where
  pub lifetime_positive : 0 < cache.entry_lifetime
  pub sorted : Sorted cache.entries

pub create_cache-IsCache :
    (lifetime : ℕ) (cache : ArpCache) → create_cache lifetime ≡ some cache → IsCache cache
unfolding create_cache
create_cache-IsCache lifetime cache e = ground arith

not_both : (a b : Bool) → (not a || not b) ≡ not (a && b)
not_both a b = ground arith

-- The age of an entry reaches the lifetime at one moment.
is_expired_iff :
    (lifetime now : ℕ) (mac : MacAddress) (learned_at : ℕ)
    → 0 < lifetime
    → is_expired lifetime now (record { mac_address = mac; learned_at = learned_at })
      ≡ leb (learned_at + lifetime) now
unfolding is_expired
is_expired_iff lifetime now mac learned_at h = ground arith

is_expired-later :
    (lifetime now later : ℕ) (entry : Entry)
    → now ≤ later
    → is_expired lifetime now entry ≡ true
    → is_expired lifetime later entry ≡ true
unfolding is_expired
is_expired-later lifetime now later entry h e = ground (arith, e)

module _ (cache : ArpCache) (address : Ipv4Address) (mac : MacAddress) (learned_at : ℕ) where
  abbrev new_entry : Entry
  new_entry = record { mac_address = mac; learned_at = learned_at }

  -- Every neighbour after an update, at every moment.
  abbrev pub Learned : ArpCache → Type 0
  Learned cache' =
      (q : Ipv4Address) (now : ℕ)
      → lookup cache' q now ≡ (
          if equiv q address
          then (if leb (learned_at + cache.entry_lifetime) now then none else some mac)
          else lookup cache q now)

  -- What each result says.
  abbrev pub UpdateSpec : ArpCache → ArpCacheUpdate → Type 0
  UpdateSpec cache' rejected =
      ((is_valid_address address && is_valid_mac_address mac) ≡ false) × (cache' ≡ cache)
  UpdateSpec cache' inserted =
      ((is_valid_address address && is_valid_mac_address mac) ≡ true)
      × (find address cache.entries ≡ none)
      × Learned cache'
  UpdateSpec cache' replaced =
      ((is_valid_address address && is_valid_mac_address mac) ≡ true)
      × ((old : Entry) × (find address cache.entries ≡ some old))
      × Learned cache'

  live_new :
      (q : Ipv4Address) (now : ℕ)
      → IsCache cache
      → live_entry cache.entry_lifetime now
          (if equiv q address then some new_entry else find q cache.entries)
        ≡ (if equiv q address
            then (if leb (learned_at + cache.entry_lifetime) now then none else some mac)
            else lookup cache q now)
  unfolding live_entry lookup
  live_new q now v =
      ground (arith, is_expired_iff cache.entry_lifetime now mac learned_at v.lifetime_positive)

  store_lem :
      (found : Option Entry)
      → (is_valid_address address && is_valid_mac_address mac) ≡ true
      → find address cache.entries ≡ found
      → IsCache cache
      → let (cache', r) = store cache address new_entry found in UpdateSpec cache' r
  unfolding store lookup
  store_lem none ok e v = (
    ok,
    e,
    λ q now.
        ap (live_entry cache.entry_lifetime now) (find-emplace address q new_entry cache.entries e)
        ∙ live_new q now v,
  )
  store_lem (some old) ok e v = (
    ok,
    (old, e),
    λ q now.
        ap (live_entry cache.entry_lifetime now)
          (find-assign address q new_entry cache.entries ∙ rw e refl)
        ∙ live_new q now v,
  )

  -- With a well-formed cache, a neighbour is refused, and the cache kept, just when its address is
  -- unspecified, multicast or broadcast or its MAC address unspecified or multicast; otherwise the
  -- cache answers with the new MAC address until the lifetime has passed since it was learned, and
  -- for every other address as before, and the result says whether the address had an entry.
  pub lookup-add_or_replace :
      IsCache cache
      → let (cache', r) = add_or_replace cache address mac learned_at in UpdateSpec cache' r
  unfolding add_or_replace
  lookup-add_or_replace v =
      elim (Bool-cases (is_valid_address address && is_valid_mac_address mac)) [
        | inl ok ↦
            rw (not_both (is_valid_address address) (is_valid_mac_address mac), ok)
              (store_lem (find address cache.entries) ok refl v)
        | inr refused ↦
            rw (not_both (is_valid_address address) (is_valid_mac_address mac), refused)
              (refused, refl)
      ]

  store-IsCache :
      (found : Option Entry) → IsCache cache → IsCache (store cache address new_entry found).0
  unfolding store
  store-IsCache none v = record {
    lifetime_positive = v.lifetime_positive;
    sorted = emplace-Sorted address new_entry cache.entries v.sorted;
  }
  store-IsCache (some old) v = record {
    lifetime_positive = v.lifetime_positive;
    sorted = assign-Sorted address new_entry cache.entries v.sorted;
  }

  pub add_or_replace-IsCache :
      IsCache cache → IsCache (add_or_replace cache address mac learned_at).0
  unfolding add_or_replace
  add_or_replace-IsCache v = ground (arith, store-IsCache (find address cache.entries) v)

module _ (cache : ArpCache) (now : ℕ) where
  expire-entries :
      (expire cache now).0.entries ≡ without (is_expired cache.entry_lifetime now) cache.entries
  unfolding expire
  expire-entries = erase_if-without (is_expired cache.entry_lifetime now) cache.entries 0

  expire-lifetime : (expire cache now).0.entry_lifetime ≡ cache.entry_lifetime
  unfolding expire
  expire-lifetime = refl

  live_kept :
      (later : ℕ) (found : Option Entry)
      → now ≤ later
      → live_entry cache.entry_lifetime later (drop_if (is_expired cache.entry_lifetime now) found)
        ≡ live_entry cache.entry_lifetime later found
  unfolding live_entry
  live_kept later none h = refl
  live_kept later (some entry) h =
      ground (arith, is_expired-later cache.entry_lifetime now later entry h)

  -- With a well-formed cache, from the moment of an expiry on, the cache answers just as it would
  -- have without it; the count returned is the number of entries that went.
  pub lookup-expire :
      IsCache cache
      → ((address : Ipv4Address) (later : ℕ)
          → now ≤ later
          → lookup (expire cache now).0 address later ≡ lookup cache address later)
        × ((expire cache now).1 + length (expire cache now).0.entries ≡ length cache.entries)
  unfolding lookup
  lookup-expire v = (
    λ address later h.
        rw
          (
            expire-lifetime,
            expire-entries,
            find-without (is_expired cache.entry_lifetime now) address cache.entries v.sorted,
          )
          (live_kept later (find address cache.entries) h),
    rw expire-entries (
        unfold expire in
        erase_if-count (is_expired cache.entry_lifetime now) cache.entries 0 ∙ omega arith),
  )

  pub expire-IsCache : IsCache cache → IsCache (expire cache now).0
  expire-IsCache v = record {
    lifetime_positive = rw expire-lifetime v.lifetime_positive;
    sorted =
        rw expire-entries
          (without-Sorted (is_expired cache.entry_lifetime now) cache.entries v.sorted);
  }

-- After `remove` the cache does not know the address, and knows every other as before.
pub lookup-remove :
    (cache : ArpCache) (address q : Ipv4Address) (now : ℕ)
    → lookup (remove cache address).0 q now ≡ (if equiv q address then none else lookup cache q now)
unfolding lookup remove live_entry
lookup-remove cache address q now = rw (find-erase address q cache.entries) (ground arith)
