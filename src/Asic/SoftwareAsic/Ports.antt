-- ===== src/Asic/SoftwareAsic/Ports.antt =====
-- The operations on ports and queues keep the switch well-formed.
use hzl_silicon_switch_lab.Base.{
  ℕ, ◌≡◌, refl, Bool, true, false, [], none, some, arith, has_value, Bool-cases, Option-cases, inl,
  inr, equiv, equiv_iff, nat_order, ◌∙◌, sym, if◌then◌else◌, ◌==◌, ap, some_inj,
}
use hzl_silicon_switch_lab.Base.Map.{find, emplace, erase, find-emplace, find-erase}
use hzl_silicon_switch_lab.Base.Map.Pointwise.{emplace-fits, erase-fits}
use hzl_silicon_switch_lab.Network.Vlan.{VlanId, vlan_order}
use hzl_silicon_switch_lab.Switching.Forwarding.{contains_port}
use hzl_silicon_switch_lab.Switching.MacTable.{create_table}
use hzl_silicon_switch_lab.Switching.MacTable.Expiry.{create_table-IsTable}
use hzl_silicon_switch_lab.Switching.VirtualPort.{VirtualPort, set_admin_enabled, set_link_up}
use hzl_silicon_switch_lab.Asic.BoundedQueue.{create_queue, try_dequeue, pop_front}
use hzl_silicon_switch_lab.Asic.SoftwareAsic.{
  SoftwareAsic, PacketQueue, success, not_found, create_asic, asic_with, create_port,
  create_port_with, remove_port, drop_port, remove_from_members, set_port_state, set_found_state,
  dequeue_packet, dequeue_found, default_entry_lifetime,
}
use hzl_silicon_switch_lab.Asic.SoftwareAsic.Members.{
  members_of, contains-remove_member, remove_member-Distinct, members-remove_from_members,
}
use hzl_silicon_switch_lab.Asic.SoftwareAsic.Invariant.{
  IsAsic, IsPort, PortFits, QueueFits, port_allows, assign_port-IsAsic, assign_queue-IsAsic,
}

pub create_asic-IsAsic :
    (mac_table_capacity : ℕ) (asic : SoftwareAsic)
    → create_asic mac_table_capacity ≡ some asic
    → IsAsic asic
unfolding create_asic asic_with find members_of contains_port
create_asic-IsAsic capacity asic e =
    elim (Option-cases (create_table capacity default_entry_lifetime)) [
      | inl absent ↦ cc (rw absent at e)
      | inr (table, made) ↦ rw (sym (some_inj (rw made at e))) (record {
        same_keys = λ p. refl;
        ports_fit = λ p. tt;
        queues_fit = λ p. tt;
        members_allowed = λ vlan p h. cc;
        members_exist = λ vlan p h. cc;
        members_once = λ vlan. tt;
        interfaces_fit = λ vlan. tt;
        is_table = create_table-IsTable capacity default_entry_lifetime table made;
      })
    ]

module _ (asic : SoftwareAsic) (v : IsAsic asic) where
  allows_emplaced :
      (port : VirtualPort) (vlan : VlanId) (q : ℕ)
      → find port.id asic.ports ≡ none
      → port_allows vlan (find q asic.ports) ≡ true
      → port_allows vlan (find q (emplace port.id port asic.ports)) ≡ true
  unfolding port_allows
  allows_emplaced port vlan q absent h = elim (Bool-cases (equiv q port.id)) [
    | inl same ↦
        let nothing : find q asic.ports ≡ none =
          ap (λ x. find x asic.ports) ((equiv_iff q port.id).0 same) ∙ absent in
        cc (rw nothing at h)
    | inr other ↦ rw (find-emplace port.id q port asic.ports absent, other) h
  ]

  emplaced-IsAsic :
      (port : VirtualPort) (queue : PacketQueue)
      → IsPort port
      → QueueFits port.id (some queue)
      → find port.id asic.ports ≡ none
      → IsAsic (record asic {
        queues = emplace port.id queue asic.queues;
        ports = emplace port.id port asic.ports;
      })
  emplaced-IsAsic port queue fits room absent =
      let no_queue : find port.id asic.queues ≡ none =
        ground (arith, v.same_keys port.id, absent) in
      record {
        same_keys = λ q. ground (
          arith,
          find-emplace port.id q port asic.ports absent,
          find-emplace port.id q queue asic.queues no_queue,
          v.same_keys q,
        );
        ports_fit = emplace-fits PortFits port.id port asic.ports absent (refl, fits) v.ports_fit;
        queues_fit = emplace-fits QueueFits port.id queue asic.queues no_queue room v.queues_fit;
        members_allowed =
            λ vlan q h. allows_emplaced port vlan q absent (v.members_allowed vlan q h);
        members_exist = v.members_exist;
        members_once = v.members_once;
        interfaces_fit = v.interfaces_fit;
        is_table = v.is_table;
      }

  pub create_port-IsAsic :
      (port : VirtualPort) (queue_capacity : ℕ)
      → IsPort port
      → IsAsic (create_port asic port queue_capacity).0
  unfolding create_port create_port_with create_queue
  create_port-IsAsic port capacity fits = elim (Bool-cases (capacity == 0)) [
    | inl nothing ↦ rw nothing v
    | inr some_room ↦ rw some_room (elim (Option-cases (find port.id asic.ports)) [
      | inl absent ↦ rw absent (
          emplaced-IsAsic port (record { capacity = capacity; values = []; closed = false }) fits
            (omega arith, refl) absent)
      | inr (other, there) ↦ rw there v
    ])
  ]

  removed-IsAsic :
      (port : ℕ)
      → IsAsic (record asic {
        vlan_members = remove_from_members port asic.vlan_members;
        queues = erase port asic.queues;
        ports = erase port asic.ports;
      })
  removed-IsAsic port =
      let contained : (vlan : VlanId) (q : ℕ)
          → contains_port q (members_of (remove_from_members port asic.vlan_members) vlan) ≡ true
          → (contains_port q (members_of asic.vlan_members vlan) ≡ true) × ((q == port) ≡ false) =
        λ vlan q h. ground (
          arith,
          contains-remove_member port q (members_of asic.vlan_members vlan),
          rw (members-remove_from_members port vlan asic.vlan_members) at h,
        ) in
      record {
        same_keys = λ q.
            ground
              (arith, find-erase port q asic.ports, find-erase port q asic.queues, v.same_keys q);
        ports_fit = erase-fits PortFits port asic.ports tt v.ports_fit;
        queues_fit = erase-fits QueueFits port asic.queues tt v.queues_fit;
        members_allowed = λ vlan q h. ground (
          arith,
          find-erase port q asic.ports,
          equiv_iff q port,
          contained vlan q h,
          v.members_allowed vlan q (contained vlan q h).0,
        );
        members_exist = λ vlan q h. v.members_exist vlan q (contained vlan q h).0;
        members_once = λ vlan.
            rw (members-remove_from_members port vlan asic.vlan_members) (
              remove_member-Distinct port (members_of asic.vlan_members vlan)
                (v.members_once vlan));
        interfaces_fit = v.interfaces_fit;
        is_table = v.is_table;
      }

  -- The port and its queue are there together.
  pub queue_of :
      (p : ℕ)
      → has_value (find p asic.ports) ≡ true
      → (queue : PacketQueue) × (find p asic.queues ≡ some queue)
  queue_of p h = elim (Option-cases (find p asic.queues)) [
    | inl absent ↦ ground (arith, v.same_keys p, absent, h)
    | inr there ↦ there
  ]

  -- In a well-formed ASIC, removing a port never throws and keeps the ASIC well-formed; it succeeds
  -- just when the port was there, and afterwards there is no such port, no queue of it, and no VLAN
  -- that has it as a member.
  pub remove_port_lem :
      (port : ℕ)
      → IsAsic (remove_port asic port).0
        × ((remove_port asic port).1
            ≡ some (if has_value (find port asic.ports) then success else not_found))
        × (find port (remove_port asic port).0.ports ≡ none)
        × (find port (remove_port asic port).0.queues ≡ none)
        × ((vlan : VlanId)
            → contains_port port (members_of (remove_port asic port).0.vlan_members vlan) ≡ false)
  unfolding remove_port drop_port
  remove_port_lem port = elim (Bool-cases (has_value (find port asic.ports))) [
    | inl there ↦
        let (queue, e) = queue_of port there in
        rw (there, e)
          (
            removed-IsAsic port,
            refl,
            ground (arith, find-erase port port asic.ports, equiv_iff port port),
            ground (arith, find-erase port port asic.queues, equiv_iff port port),
            λ vlan. rw (members-remove_from_members port vlan asic.vlan_members) (
                ground
                  (arith, contains-remove_member port port (members_of asic.vlan_members vlan))),
          )
    | inr missing ↦
        let nothing : find port asic.ports ≡ none = ground (arith, missing) in
        rw missing (
          v,
          refl,
          nothing,
          ground (arith, v.same_keys port, missing),
          λ vlan. elim (Bool-cases (contains_port port (members_of asic.vlan_members vlan))) [
            | inl member ↦
                unfold port_allows in cc (rw nothing at (v.members_allowed vlan port member))
            | inr outside ↦ outside
          ],
        )
  ]

  pub set_port_state-IsAsic :
      (port : ℕ) (admin_enabled link_up : Bool)
      → IsAsic (set_port_state asic port admin_enabled link_up).0
  unfolding set_port_state set_found_state set_admin_enabled set_link_up
  set_port_state-IsAsic port admin_enabled link_up = elim (Option-cases (find port asic.ports)) [
    | inl absent ↦ rw absent v
    | inr (existing, e) ↦ rw e (
        assign_port-IsAsic asic v port existing
          (set_link_up (set_admin_enabled existing admin_enabled) link_up) e
          (record { id = refl; config = refl; mtu = refl }))
  ]

  pub queue_at :
      (p : ℕ) (queue : PacketQueue) → find p asic.queues ≡ some queue → QueueFits p (some queue)
  queue_at p queue e = rw e at (v.queues_fit p)

  popped-QueueFits :
      (p : ℕ) (queue : PacketQueue)
      → QueueFits p (some queue)
      → QueueFits p (some (try_dequeue queue).0)
  unfolding try_dequeue pop_front
  popped-QueueFits p queue (room, not_closed) = ground (arith, room, not_closed)

  pub dequeue_packet-IsAsic : (port : ℕ) → IsAsic (dequeue_packet asic port).0
  unfolding dequeue_packet dequeue_found
  dequeue_packet-IsAsic port = elim (Option-cases (find port asic.queues)) [
    | inl absent ↦ rw absent v
    | inr (queue, e) ↦ rw e (
        assign_queue-IsAsic asic v port (try_dequeue queue).0 (rw e refl)
          (popped-QueueFits port queue (queue_at port queue e)))
  ]
