-- ===== src/Routing/RouteTable.antt =====
-- routing/port_id.hpp, routing/route_entry.hpp, routing/ipv4_route_table.hpp and .cpp: the routes of
-- the switch, a vector in the order in which they were added.
pub mod Exact
pub mod LongestPrefix
use hzl_silicon_switch_lab.Base.{
  ℕ, Bool, true, false, not, ◌&&◌, ◌||◌, List, [], ◌∷◌, ◌++◌, Option, none, some, ltb, ◌==◌,
  if◌then◌else◌, has_value,
}
use hzl_silicon_switch_lab.Network.Ipv4Address.{
  Ipv4Address, is_unspecified, is_multicast, is_limited_broadcast,
}
use hzl_silicon_switch_lab.Network.Ipv4Prefix.{Ipv4Prefix, prefix_eq, contains}

-- `PortId::create`; a port is its number.
unfoldable pub create_port_id : ℕ → Option ℕ
create_port_id value = if value == 0 then none else some value

pub record RouteEntry : Type 0 where
  pub prefix : Ipv4Prefix
  pub next_hop : Option Ipv4Address
  pub output_port : ℕ

-- An address that a route cannot have as its next hop.
unfoldable pub is_invalid_next_hop : Option Ipv4Address → Bool
is_invalid_next_hop none = false
is_invalid_next_hop (some hop) = is_unspecified hop || is_multicast hop || is_limited_broadcast hop

-- `RouteEntry::create`
unfoldable pub create_route : Ipv4Prefix → Option Ipv4Address → ℕ → Option RouteEntry
unfolding is_invalid_next_hop
create_route prefix next_hop output_port =
    if is_invalid_next_hop next_hop
    then none
    else some (record { prefix = prefix; next_hop = next_hop; output_port = output_port })

pub data RouteUpdate : Type 0 where
  inserted replaced : RouteUpdate

abbrev pub Ipv4RouteTable : Type 0
Ipv4RouteTable = List RouteEntry

-- `Ipv4RouteTable::find_exact`, the first entry that `std::find_if` meets.
unfoldable pub find_exact : Ipv4RouteTable → Ipv4Prefix → Option RouteEntry
find_exact [] prefix = none
find_exact (entry ∷ entries) prefix =
    if prefix_eq entry.prefix prefix then some entry else find_exact entries prefix

-- `*existing = entry`, at the first entry of the prefix.
unfoldable pub replace_entry : Ipv4RouteTable → RouteEntry → Ipv4RouteTable
replace_entry [] entry = []
replace_entry (candidate ∷ entries) entry =
    if prefix_eq candidate.prefix entry.prefix
    then entry ∷ entries
    else candidate ∷ replace_entry entries entry

-- `entries_.erase(existing)`, at the first entry of the prefix.
unfoldable pub erase_entry : Ipv4RouteTable → Ipv4Prefix → Ipv4RouteTable
erase_entry [] prefix = []
erase_entry (entry ∷ entries) prefix =
    if prefix_eq entry.prefix prefix then entries else entry ∷ erase_entry entries prefix

-- `Ipv4RouteTable::add_or_replace`
unfoldable pub add_or_replace : Ipv4RouteTable → RouteEntry → Ipv4RouteTable × RouteUpdate
add_or_replace entries entry =
    if has_value (find_exact entries entry.prefix)
    then (replace_entry entries entry, replaced)
    else (entries ++ (entry ∷ []), inserted)

-- `Ipv4RouteTable::remove`
unfoldable pub remove : Ipv4RouteTable → Ipv4Prefix → Ipv4RouteTable × Bool
remove entries prefix =
    if has_value (find_exact entries prefix)
    then (erase_entry entries prefix, true)
    else (entries, false)

-- `best_match == nullptr || entry.prefix().length() > best_match->prefix().length()`
unfoldable pub improves : Option RouteEntry → RouteEntry → Bool
improves none entry = true
improves (some best) entry = ltb best.prefix.length entry.prefix.length

-- The loop of `longest_prefix_match` over the entries that are left.
unfoldable pub match_loop :
    Ipv4Address → Ipv4RouteTable → (best_match : Option RouteEntry) → Option RouteEntry
match_loop destination [] best_match = best_match
match_loop destination (entry ∷ entries) best_match = match_loop destination entries (
    if contains entry.prefix destination && improves best_match entry
    then some entry
    else best_match)

-- `Ipv4RouteTable::longest_prefix_match`
unfoldable pub longest_prefix_match : Ipv4RouteTable → Ipv4Address → Option RouteEntry
longest_prefix_match entries destination = match_loop destination entries none
