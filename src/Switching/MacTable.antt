-- ===== src/Switching/MacTable.antt =====
-- switching/mac_table.hpp and .cpp: which port a MAC address was seen at, for each VLAN. Time
-- points and durations are numbers of ticks since the clock's epoch.
pub mod KeyOrder
pub mod Expiry
pub mod Updates
use hzl_silicon_switch_lab.Base.{
  ℕ, ◌+◌, ◌-◌, ◌≤◌, ◌<◌, ◌≡◌, Bool, true, false, not, ◌&&◌, ◌||◌, List, [], ◌∷◌, Option, none, some,
  ltb, leb, ◌==◌, if◌then◌else◌, length, has_value, Order,
}
use hzl_silicon_switch_lab.Base.Map.{Map, find, emplace, assign, erase, erase_if}
use hzl_silicon_switch_lab.Network.Vlan.{VlanId}
use hzl_silicon_switch_lab.Network.MacAddress.{MacAddress, is_usable_mac}
use KeyOrder.{Key, key_order}

pub data MacEntryType : Type 0 where
  dynamic static_entry : MacEntryType

pub data MacTableUpdate : Type 0 where
  inserted refreshed moved table_full rejected static_conflict : MacTableUpdate

-- A port is the number of its `PortId`.
pub record MacTableEntry : Type 0 where
  pub port : ℕ
  pub type : MacEntryType
  pub learned_at : ℕ

-- `MacTableEntry::is_static`
unfoldable pub is_static_type : MacEntryType → Bool
is_static_type dynamic = false
is_static_type static_entry = true

unfoldable pub is_static : MacTableEntry → Bool
unfolding is_static_type
is_static entry = is_static_type entry.type

pub record MacTable : Type 0 where
  pub capacity : ℕ
  pub entry_lifetime : ℕ
  pub entries : Map Key MacTableEntry

-- `MacTable::MacTable`; `none` is the exception of a zero capacity or lifetime.
unfoldable pub create_table : ℕ → ℕ → Option MacTable
create_table capacity entry_lifetime =
    if capacity == 0
    then none
    else if entry_lifetime == 0
    then none
    else some (record { capacity = capacity; entry_lifetime = entry_lifetime; entries = [] })

-- `is_learnable`
unfoldable pub is_learnable : MacAddress → Bool
is_learnable address = is_usable_mac address

-- `MacTable::update`, once it has looked the key up.
unfoldable pub update_found :
    MacTable → Key → ℕ → MacEntryType → ℕ → Option MacTableEntry → MacTable × MacTableUpdate
update_found t key port type learned_at none =
    if leb t.capacity (length t.entries) then (t, table_full) else (
      record t {
        entries =
            emplace key (record { port = port; type = type; learned_at = learned_at }) t.entries;
      },
      inserted,
    )
update_found t key port type learned_at (some existing) =
    if is_static existing && not (is_static_type type)
    then (t, if not (existing.port == port) then static_conflict else refreshed)
    else (
      record t {
        entries =
            assign key (record { port = port; type = type; learned_at = learned_at }) t.entries;
      },
      if not (existing.port == port) then moved else refreshed,
    )

-- `MacTable::update`
unfoldable pub update : MacTable → Key → ℕ → MacEntryType → ℕ → MacTable × MacTableUpdate
unfolding update_found
update t key port type learned_at = update_found t key port type learned_at (find key t.entries)

-- `MacTable::learn`
unfoldable pub learn : MacTable → VlanId → MacAddress → ℕ → ℕ → MacTable × MacTableUpdate
learn t vlan mac_address ingress_port learned_at =
    if not (is_learnable mac_address)
    then (t, rejected)
    else update t (record { vlan = vlan; mac_address = mac_address }) ingress_port dynamic
        learned_at

-- `MacTable::add_static`
unfoldable pub add_static : MacTable → VlanId → MacAddress → ℕ → MacTable × MacTableUpdate
add_static t vlan mac_address port =
    if not (is_learnable mac_address)
    then (t, rejected)
    else update t (record { vlan = vlan; mac_address = mac_address }) port static_entry 0

-- `MacTable::lookup`
unfoldable pub lookup : MacTable → VlanId → MacAddress → Option MacTableEntry
lookup t vlan mac_address = find (record { vlan = vlan; mac_address = mac_address }) t.entries

-- `MacTable::remove`
unfoldable pub remove : MacTable → VlanId → MacAddress → MacTable × Bool
remove t vlan mac_address =
    let key : Key = record { vlan = vlan; mac_address = mac_address } in
    (record t { entries = erase key t.entries }, has_value (find key t.entries))

-- `MacTable::expire`
unfoldable pub expire : MacTable → ℕ → MacTable × ℕ
unfolding erase_if
expire t now =
    let (entries, removed) =
      erase_if
        (λ entry.
          not (is_static entry)
          && leb entry.learned_at now
          && leb t.entry_lifetime (now - entry.learned_at))
        t.entries 0 in
    (record t { entries = entries }, removed)
