-- ===== src/Switching/MacTable/Updates.antt =====
-- What learning and static configuration do to the table, for each result that they report.
use hzl_silicon_switch_lab.Base.{
  ℕ, suc, ◌≤◌, ◌<◌, ◌≡◌, ◌≢◌, ◌⊎◌, inl, inr, refl, ap, ◌∙◌, Bool, true, false, not, Option, none,
  some, arith, if◌then◌else◌, length, equiv, equiv_iff, Bool-cases, some_inj, sym, leb, ◌==◌, ◌&&◌,
  ◌%◌, bit_and, bit_and_low,
}
use hzl_silicon_switch_lab.Base.Map.{find, assign, find-emplace, find-assign, length-emplace}
use hzl_silicon_switch_lab.Network.Vlan.{VlanId}
use hzl_silicon_switch_lab.Network.MacAddress.{
  MacAddress, unspecified_mac, mac_eq, mac_eq_iff, is_usable_mac, is_unicast, is_multicast,
}
use hzl_silicon_switch_lab.Switching.MacTable.KeyOrder.{Key, key_order}
use hzl_silicon_switch_lab.Switching.MacTable.Expiry.{type_cases}
use hzl_silicon_switch_lab.Switching.MacTable.{
  MacTable, MacTableEntry, MacEntryType, dynamic, static_entry, MacTableUpdate, inserted, refreshed,
  moved, table_full, rejected, static_conflict, is_static, is_static_type, is_learnable, update,
  update_found, learn, lookup,
}

dynamic_of : {type : MacEntryType} → not (is_static_type type) ≡ true → type ≡ dynamic
unfolding is_static_type
dynamic_of {type = dynamic} h = refl
dynamic_of {type = static_entry} h = cc

static_type_of : {type : MacEntryType} → not (is_static_type type) ≡ false → type ≡ static_entry
unfolding is_static_type
static_type_of {type = static_entry} h = refl
static_type_of {type = dynamic} h = cc

static_of : (entry : MacTableEntry) → is_static entry ≡ true → entry.type ≡ static_entry
static_of entry h = elim (type_cases entry) [ inl (s, type) ↦ type | inr (d, type) ↦ absurd (cc) ]

-- What makes an address unfit to be learned: it is zero, or its group bit is set.
learnable_cases :
    (mac : MacAddress)
    → (is_learnable mac ≡ false) × ((mac ≡ unspecified_mac) ⊎ (mac.byte0 % 2 ≡ 1))
      ⊎ (is_learnable mac ≡ true) × (mac ≢ unspecified_mac) × (mac.byte0 % 2 ≡ 0)
unfolding is_learnable is_usable_mac is_unicast is_multicast
learnable_cases mac = elim (Bool-cases (mac_eq mac unspecified_mac)) [
  | inl zero ↦ rw zero (inl (refl, inl ((mac_eq_iff mac unspecified_mac).0 zero)))
  | inr given ↦ elim (Bool-cases (bit_and mac.byte0 0x01 == 0)) [
    | inl individual ↦
        rw (given, individual)
          (inr (
            refl,
            (λ e. cc ((mac_eq_iff mac unspecified_mac).1 e)),
            ground (arith, bit_and_low 1 mac.byte0, individual),
          ))
    | inr group ↦
        rw (given, group) (inl (refl, inr (ground (arith, bit_and_low 1 mac.byte0, group))))
  ]
]

both : {a b : Bool} → (a && b) ≡ true → (a ≡ true) × (b ≡ true)
both {a} {b} h = ground arith

module _ (t : MacTable) (key : Key) (port : ℕ) (type : MacEntryType) (learned_at : ℕ) where
  abbrev pub new_entry : MacTableEntry
  new_entry = record { port = port; type = type; learned_at = learned_at }

  -- The key has the new entry, and every other key what it had; the bounds of the table stay.
  abbrev pub Stored : MacTable → Type 0
  Stored t' =
      (t'.capacity ≡ t.capacity)
      × (t'.entry_lifetime ≡ t.entry_lifetime)
      × ((q : Key) → find q t'.entries ≡ (if equiv q key then some new_entry else find q t.entries))

  -- An entry that the new one may replace: any but a static one, and any by configuration.
  abbrev pub IsReplaceable : MacTableEntry → Type 0
  IsReplaceable old = (old.type ≡ dynamic) ⊎ (type ≡ static_entry)

  -- What each result says of the table before and after.
  abbrev pub UpdateSpec : MacTable → MacTableUpdate → Type 0
  UpdateSpec t' inserted =
      (find key t.entries ≡ none)
      × (length t.entries < t.capacity)
      × Stored t'
      × (length t'.entries ≡ suc (length t.entries))
  UpdateSpec t' refreshed =
      (old : MacTableEntry) × (find key t.entries ≡ some old)
      × (old.port ≡ port)
      × (IsReplaceable old × Stored t' ⊎ (old.type ≡ static_entry) × (type ≡ dynamic) × (t' ≡ t))
  UpdateSpec t' moved =
      (old : MacTableEntry) × (find key t.entries ≡ some old)
      × (old.port ≢ port)
      × IsReplaceable old
      × Stored t'
  UpdateSpec t' table_full =
      (find key t.entries ≡ none) × (t.capacity ≤ length t.entries) × (t' ≡ t)
  UpdateSpec t' rejected = ⊥
  UpdateSpec t' static_conflict =
      (old : MacTableEntry) × (find key t.entries ≡ some old)
      × (old.type ≡ static_entry)
      × (type ≡ dynamic)
      × (old.port ≢ port)
      × (t' ≡ t)

  stored :
      (old : MacTableEntry)
      → find key t.entries ≡ some old
      → Stored (record t { entries = assign key new_entry t.entries })
  stored old e = (refl, refl, λ q. find-assign key q new_entry t.entries ∙ rw e)

  replaceable :
      (old : MacTableEntry)
      → (is_static old && not (is_static_type type)) ≡ false
      → IsReplaceable old
  replaceable old h = elim (type_cases old) [
    | inl (s, static_old) ↦ inr (static_type_of (rw s at h))
    | inr (d, dynamic_old) ↦ inl dynamic_old
  ]

  update_found_lem :
      (found : Option MacTableEntry)
      → find key t.entries ≡ found
      → let (t', r) = update_found t key port type learned_at found in UpdateSpec t' r
  unfolding update_found
  update_found_lem none e = elim (Bool-cases (leb t.capacity (length t.entries))) [
    | inl full ↦ rw full (e, ground arith, refl)
    | inr room ↦ rw room (
      e,
      ground arith,
      (refl, refl, λ q. find-emplace key q new_entry t.entries e),
      length-emplace key new_entry t.entries e,
    )
  ]
  update_found_lem (some old) e = elim (Bool-cases (is_static old && not (is_static_type type))) [
    | inl kept ↦ elim (Bool-cases (not (old.port == port))) [
      | inl other ↦
          rw (kept, other)
            (old, e, static_of old (both kept).0, dynamic_of (both kept).1, ground arith, refl)
      | inr same ↦
          rw (kept, same)
            (
              old,
              e,
              ground arith,
              inr (static_of old (both kept).0, dynamic_of (both kept).1, refl),
            )
    ]
    | inr replaced ↦ elim (Bool-cases (not (old.port == port))) [
      | inl other ↦
          rw (replaced, other) (old, e, ground arith, replaceable old replaced, stored old e)
      | inr same ↦
          rw (replaced, same) (old, e, ground arith, inl (replaceable old replaced, stored old e))
    ]
  ]

  -- The result of an update says what it found and what it did; it never reports a rejection.
  pub update_lem : let (t', r) = update t key port type learned_at in UpdateSpec t' r
  unfolding update
  update_lem = update_found_lem (find key t.entries) refl

module _ (t : MacTable) (key q : Key) (port now : ℕ) (entry : MacTableEntry) where
  found_keeps_static :
      (found : Option MacTableEntry)
      → find key t.entries ≡ found
      → find q t.entries ≡ some entry
      → is_static entry ≡ true
      → find q (update_found t key port dynamic now found).0.entries ≡ some entry
  unfolding update_found is_static_type
  found_keeps_static none e f s =
      ground
        (arith, find-emplace key q (new_entry t key port dynamic now) t.entries e, equiv_iff q key)
  found_keeps_static (some old) e f s = elim (Bool-cases (equiv q key)) [
    | inl same ↦ static_kept ((equiv_iff q key).0 same)
    | inr other ↦
        ground (arith, find-assign key q (new_entry t key port dynamic now) t.entries, other)
  ]
    where
      static_kept :
          q ≡ key → find q (update_found t key port dynamic now (some old)).0.entries ≡ some entry
      static_kept same =
          let known : old ≡ entry =
            some_inj (sym e ∙ (ap (λ k. find k t.entries) (sym same) ∙ f)) in
          rw (known, s) f

  update_keeps_static :
      find q t.entries ≡ some entry
      → is_static entry ≡ true
      → find q (update t key port dynamic now).0.entries ≡ some entry
  unfolding update
  update_keeps_static = found_keeps_static (find key t.entries) refl

module _ (t : MacTable) (vlan : VlanId) (mac : MacAddress) (port now : ℕ) where
  -- Learning rejects an address that is zero or has the group bit, and keeps the table; any other
  -- address it stores or not, and reports which: a new entry while the table is not full, a dynamic
  -- entry that is renewed at its port or moved to another, a full table that is kept as it is, or a
  -- static entry, with which the table is kept as it is, refreshed at the same port and in conflict
  -- at another.
  pub learn_lem :
      ((mac ≡ unspecified_mac) ⊎ (mac.byte0 % 2 ≡ 1)) × (learn t vlan mac port now ≡ (t, rejected))
      ⊎ (mac ≢ unspecified_mac)
        × (mac.byte0 % 2 ≡ 0)
        × (let (t', r) = learn t vlan mac port now in
            UpdateSpec t (record { vlan = vlan; mac_address = mac }) port dynamic now t' r)
  unfolding learn
  learn_lem = elim (learnable_cases mac) [
    | inl (refused, bad) ↦ rw refused (inl (bad, refl))
    | inr (accepted, given, individual) ↦
        rw accepted (inr (given, individual, update_lem t _ port dynamic now))
  ]

  -- A static entry is never changed by what is learned.
  pub learn_keeps_static :
      (v : VlanId) (m : MacAddress) (entry : MacTableEntry)
      → lookup t v m ≡ some entry
      → is_static entry ≡ true
      → lookup (learn t vlan mac port now).0 v m ≡ some entry
  unfolding lookup learn
  learn_keeps_static v m entry e s = elim (Bool-cases (is_learnable mac)) [
    | inl ok ↦ rw ok (
        update_keeps_static t (record { vlan = vlan; mac_address = mac })
          (record { vlan = v; mac_address = m }) port now entry e s)
    | inr bad ↦ rw bad e
  ]
