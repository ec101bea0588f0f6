-- ===== src/Switching/MacTable/Expiry.antt =====
-- The invariant of the table, and what expiry removes.
use hzl_silicon_switch_lab.Base.{
  ℕ, ◌+◌, ◌-◌, not, ◌&&◌, ◌≤◌, ◌≡◌, refl, ◌∙◌, Bool, true, false, ◌<◌, ◌⊎◌, inl, inr, leb,
  Bool-cases, Option, none, some, arith, length,
}
use hzl_silicon_switch_lab.Base.Map.{find, length-emplace, length-assign, length-erase-le}
use hzl_silicon_switch_lab.Base.Map.Sorted.{
  Sorted, emplace-Sorted, assign-Sorted, erase-Sorted, without, without-Sorted, erase_if-without,
  erase_if-count, find-without, drop_if,
}
use hzl_silicon_switch_lab.Network.Vlan.{VlanId}
use hzl_silicon_switch_lab.Network.MacAddress.{MacAddress}
use hzl_silicon_switch_lab.Switching.MacTable.KeyOrder.{Key, key_order}
use hzl_silicon_switch_lab.Switching.MacTable.{
  MacTable, MacTableEntry, MacEntryType, dynamic, static_entry, is_static, is_static_type, update,
  update_found, learn, add_static, lookup, remove, expire, create_table,
}

-- The table never holds more entries than its capacity, and no key twice.
pub record IsTable (t : MacTable) : Type 0 where
  pub bounded : length t.entries ≤ t.capacity
  pub sorted : Sorted t.entries

pub create_table-IsTable :
    (capacity lifetime : ℕ) (t : MacTable) → create_table capacity lifetime ≡ some t → IsTable t
unfolding create_table
create_table-IsTable capacity lifetime t e = ground arith

update_found-IsTable :
    (t : MacTable) (key : Key) (port : ℕ) (type : MacEntryType) (learned_at : ℕ)
    (found : Option MacTableEntry)
    → find key t.entries ≡ found
    → IsTable t
    → IsTable (update_found t key port type learned_at found).0
unfolding update_found
update_found-IsTable t key port type learned_at none e v =
    let new : MacTableEntry = record { port = port; type = type; learned_at = learned_at } in
    ground (arith, length-emplace key new t.entries e, emplace-Sorted key new t.entries v.sorted)
update_found-IsTable t key port type learned_at (some x) e v =
    let new : MacTableEntry = record { port = port; type = type; learned_at = learned_at } in
    ground (arith, length-assign key new t.entries, assign-Sorted key new t.entries v.sorted)

pub update-IsTable :
    (t : MacTable) (key : Key) (port : ℕ) (type : MacEntryType) (learned_at : ℕ)
    → IsTable t
    → IsTable (update t key port type learned_at).0
unfolding update
update-IsTable t key port type learned_at v =
    update_found-IsTable t key port type learned_at (find key t.entries) refl v

pub learn-IsTable :
    (t : MacTable) (vlan : VlanId) (mac : MacAddress) (port now : ℕ)
    → IsTable t
    → IsTable (learn t vlan mac port now).0
unfolding learn
learn-IsTable t vlan mac port now v = ground (
  arith,
  update-IsTable t (record { vlan = vlan; mac_address = mac }) port MacEntryType.dynamic now v,
)

pub add_static-IsTable :
    (t : MacTable) (vlan : VlanId) (mac : MacAddress) (port : ℕ)
    → IsTable t
    → IsTable (add_static t vlan mac port).0
unfolding add_static
add_static-IsTable t vlan mac port v = ground (
  arith,
  update-IsTable t (record { vlan = vlan; mac_address = mac }) port MacEntryType.static_entry 0 v,
)

pub remove-IsTable :
    (t : MacTable) (vlan : VlanId) (mac : MacAddress) → IsTable t → IsTable (remove t vlan mac).0
unfolding remove
remove-IsTable t vlan mac v =
    let key : Key = record { vlan = vlan; mac_address = mac } in
    ground (arith, length-erase-le key t.entries, erase-Sorted key t.entries v.sorted)

-- Whether an entry is static is its type.
pub type_cases :
    (entry : MacTableEntry)
    → (is_static entry ≡ true) × (entry.type ≡ static_entry)
      ⊎ (is_static entry ≡ false) × (entry.type ≡ dynamic)
unfolding is_static is_static_type
type_cases entry = of_type entry.type
  where
    of_type :
        (type : MacEntryType)
        → (is_static_type type ≡ true) × (type ≡ static_entry)
          ⊎ (is_static_type type ≡ false) × (type ≡ dynamic)
    of_type static_entry = inl (unfold is_static_type in refl, refl)
    of_type dynamic = inr (unfold is_static_type in refl, refl)

abbrev key_of : VlanId → MacAddress → Key
key_of vlan mac = record { vlan = vlan; mac_address = mac }

module _ (t : MacTable) (now : ℕ) where
  -- The test that the loop of the expiry makes.
  test : MacTableEntry → Bool
  test entry =
      not (is_static entry)
      && leb entry.learned_at now
      && leb t.entry_lifetime (now - entry.learned_at)

  expire-entries : (expire t now).0.entries ≡ without test t.entries
  unfolding expire test
  expire-entries = erase_if-without test t.entries 0

  expire-count : (expire t now).1 + length (expire t now).0.entries ≡ length t.entries
  unfolding expire test
  expire-count =
      rw (erase_if-without test t.entries 0) (erase_if-count test t.entries 0 ∙ omega arith)

  expire-capacity : (expire t now).0.capacity ≡ t.capacity
  unfolding expire
  expire-capacity = refl

  pub expire-IsTable : IsTable t → IsTable (expire t now).0
  expire-IsTable v = record {
    bounded = omega (arith, expire-count, expire-capacity, v.bounded);
    sorted = rw expire-entries (without-Sorted test t.entries v.sorted);
  }

  -- What is known of an address after an expiry, from what was known of it: a static entry stays,
  -- and a dynamic one stays until it is as old as the lifetime.
  abbrev pub Kept : (before after : Option MacTableEntry) → Type 0
  Kept none after = after ≡ none
  Kept (some entry) after =
      (entry.type ≡ static_entry) × (after ≡ some entry)
      ⊎ (entry.type ≡ dynamic)
        × ((now < entry.learned_at + t.entry_lifetime) × (after ≡ some entry)
            ⊎ (entry.learned_at + t.entry_lifetime ≤ now) × (after ≡ none))

  drop_if-Kept : (before : Option MacTableEntry) → Kept before (drop_if test before)
  unfolding test
  drop_if-Kept none = refl
  drop_if-Kept (some entry) = elim (type_cases entry) [
    | inl (s, type) ↦ inl (type, rw s refl)
    | inr (d, type) ↦ inr (
      type,
      (elim (Bool-cases (leb (entry.learned_at + t.entry_lifetime) now)) [
        | inl old ↦ inr (ground (arith, old), ground (arith, d, old))
        | inr young ↦ inl (ground (arith, young), ground (arith, d, young))
      ]),
    )
  ]

  -- After the expiry of a well-formed table a static entry is known as before, a dynamic entry is
  -- known as before while the moment is before its learning moment plus the lifetime and unknown
  -- from then on, and an unknown address stays unknown; the result counts the entries that went,
  -- and capacity and lifetime stay.
  pub expire_lem :
      IsTable t
      → ((vlan : VlanId) (mac : MacAddress)
          → Kept (lookup t vlan mac) (lookup (expire t now).0 vlan mac))
        × ((expire t now).1 + length (expire t now).0.entries ≡ length t.entries)
        × ((expire t now).0.capacity ≡ t.capacity)
        × ((expire t now).0.entry_lifetime ≡ t.entry_lifetime)
  unfolding lookup test
  expire_lem v = (
    λ vlan mac.
        rw (expire-entries, find-without test (key_of vlan mac) t.entries v.sorted)
          (drop_if-Kept (find (key_of vlan mac) t.entries)),
    expire-count,
    unfold expire in refl,
    unfold expire in refl,
  )
