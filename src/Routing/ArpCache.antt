-- ===== src/Routing/ArpCache.antt =====
-- routing/arp_cache.hpp and .cpp: the neighbours of the router. Time points and durations are
-- numbers of ticks since the clock's epoch.
pub mod Lifetime
use hzl_silicon_switch_lab.Base.{
  ℕ, ◌-◌, ◌<◌, Bool, true, false, not, ◌&&◌, ◌||◌, Option, none, some, [], leb, ◌==◌, if◌then◌else◌,
  has_value,
}
use hzl_silicon_switch_lab.Base.Map.{Map, find, emplace, assign, erase, erase_if}
use hzl_silicon_switch_lab.Network.Ipv4Address.{
  Ipv4Address, address_order, is_unspecified, is_multicast, is_limited_broadcast,
}
use hzl_silicon_switch_lab.Network.MacAddress.{MacAddress, is_usable_mac}

pub data ArpCacheUpdate : Type 0 where
  inserted replaced rejected : ArpCacheUpdate

pub record Entry : Type 0 where
  pub mac_address : MacAddress
  pub learned_at : ℕ

pub record ArpCache : Type 0 where
  pub entry_lifetime : ℕ
  pub entries : Map Ipv4Address Entry

-- `ArpCache::ArpCache`; `none` is the exception of a lifetime that is not positive.
unfoldable pub create_cache : ℕ → Option ArpCache
create_cache entry_lifetime =
    if entry_lifetime == 0
    then none
    else some (record { entry_lifetime = entry_lifetime; entries = [] })

-- `is_valid_address`
unfoldable pub is_valid_address : Ipv4Address → Bool
is_valid_address address =
    not (is_unspecified address) && not (is_multicast address) && not (is_limited_broadcast address)

-- `is_valid_mac_address`
unfoldable pub is_valid_mac_address : MacAddress → Bool
is_valid_mac_address address = is_usable_mac address

unfoldable pub store : ArpCache → Ipv4Address → Entry → Option Entry → ArpCache × ArpCacheUpdate
store cache address entry none =
    (record cache { entries = emplace address entry cache.entries }, inserted)
store cache address entry (some existing) =
    (record cache { entries = assign address entry cache.entries }, replaced)

-- `ArpCache::add_or_replace`
unfoldable pub add_or_replace : ArpCache → Ipv4Address → MacAddress → ℕ → ArpCache × ArpCacheUpdate
unfolding store
add_or_replace cache address mac_address learned_at =
    if not (is_valid_address address) || not (is_valid_mac_address mac_address)
    then (cache, rejected)
    else store cache address (record { mac_address = mac_address; learned_at = learned_at })
        (find address cache.entries)

-- `ArpCache::is_expired`
unfoldable pub is_expired : ℕ → ℕ → Entry → Bool
is_expired entry_lifetime now entry =
    leb entry.learned_at now && leb entry_lifetime (now - entry.learned_at)

unfoldable pub live_entry : ℕ → ℕ → Option Entry → Option MacAddress
live_entry entry_lifetime now none = none
live_entry entry_lifetime now (some entry) =
    if is_expired entry_lifetime now entry then none else some entry.mac_address

-- `ArpCache::lookup`
unfoldable pub lookup : ArpCache → Ipv4Address → ℕ → Option MacAddress
unfolding live_entry
lookup cache address now = live_entry cache.entry_lifetime now (find address cache.entries)

-- `ArpCache::remove`
unfoldable pub remove : ArpCache → Ipv4Address → ArpCache × Bool
remove cache address =
    (record cache { entries = erase address cache.entries }, has_value (find address cache.entries))

-- `ArpCache::expire`
unfoldable pub expire : ArpCache → ℕ → ArpCache × ℕ
unfolding erase_if
expire cache now =
    let (entries, removed) = erase_if (is_expired cache.entry_lifetime now) cache.entries 0 in
    (record cache { entries = entries }, removed)
