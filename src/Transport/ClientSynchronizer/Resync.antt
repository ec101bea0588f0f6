-- ===== src/Transport/ClientSynchronizer/Resync.antt =====
-- A client that is given a snapshot and the updates that follow it is synchronized again.
use hzl_silicon_switch_lab.Base.{
  ℕ, ◌+◌, ◌^◌, ◌≤◌, ◌<◌, ◌≡◌, refl, ap, ◌∙◌, ◌⊎◌, inl, inr, true, ◌||◌, List, [], ◌∷◌, some, arith,
  if◌then◌else◌, Bool-cases,
}
use hzl_silicon_switch_lab.Transport.StateUpdate.{StateUpdate, snapshot}
use hzl_silicon_switch_lab.Transport.ClientSynchronizer.{
  ClientSynchronizer, is_snapshot, is_delta, is_new_session, advance, apply, begin_session,
  consume_received, consume,
}
use hzl_silicon_switch_lab.Transport.ClientSynchronizer.History.{consume_all, same_session}

-- Where a synchronized client stands.
pub record Point : Type 0 where
  pub session : ℕ
  pub sequence : ℕ
  pub revision : ℕ
  pub timestamp : ℕ

pub record IsAt (c : ClientSynchronizer) (p : Point) : Type 0 where
  pub session : c.session_id ≡ some p.session
  pub sequence : c.sequence ≡ p.sequence
  pub revision : c.revision ≡ p.revision
  pub timestamp : c.timestamp_microseconds ≡ p.timestamp
  pub synchronized : c.synchronized ≡ true

-- The point of an update, and the one that an update leads to.
abbrev pub point_of : StateUpdate → Point
point_of u = record {
  session = u.session_id;
  sequence = u.sequence;
  revision = u.revision;
  timestamp = u.timestamp_microseconds;
}

abbrev pub next_point : Point → StateUpdate → Point
next_point p u = record {
  session = p.session;
  sequence = u.sequence;
  revision = if is_snapshot u.type || is_delta u.type then u.revision else p.revision;
  timestamp = u.timestamp_microseconds;
}

abbrev pub final_point : Point → List (StateUpdate × ℕ) → Point
final_point p [] = p
final_point p ((u, received_at) ∷ received) = final_point (next_point p u) received

-- The update that comes next in the session.
pub record IsNext (p : Point) (u : StateUpdate) : Type 0 where
  pub session : u.session_id ≡ p.session
  pub sequence : u.sequence ≡ p.sequence + 1
  pub sequence_fits : u.sequence < 2 ^ 64
  pub timestamp : p.timestamp ≤ u.timestamp_microseconds
  pub base : is_delta u.type ≡ true → u.base_revision ≡ p.revision

abbrev pub AreNext : Point → List (StateUpdate × ℕ) → Type 0
AreNext p [] = Unit {0}
AreNext p ((u, received_at) ∷ received) = IsNext p u × AreNext (next_point p u) received

-- A snapshot that the client does not take for an old one.
abbrev pub IsFresh : ClientSynchronizer → StateUpdate → Type 0
IsFresh c u =
    (is_new_session c.session_id u.session_id ≡ true)
    ⊎ (c.sequence < u.sequence) × (c.timestamp_microseconds ≤ u.timestamp_microseconds)

module _ (u : StateUpdate) (received_at : ℕ) where
  next-IsAt :
      (c : ClientSynchronizer) (p : Point)
      → IsAt c p
      → IsNext p u
      → IsAt (consume c u received_at).0 (next_point p u)
  unfolding consume consume_received apply advance is_new_session
  next-IsAt c p at next = record {
    session = ground arith;
    sequence = ground arith;
    revision = ground arith;
    timestamp = ground arith;
    synchronized = ground arith;
  }

  snapshot-IsAt :
      (c : ClientSynchronizer)
      → u.type ≡ snapshot
      → IsFresh c u
      → IsAt (consume c u received_at).0 (point_of u)
  unfolding consume consume_received apply begin_session
  snapshot-IsAt c e fresh =
      let s : is_snapshot u.type ≡ true = ap is_snapshot e ∙ unfold is_snapshot in refl in
      let same = same_session c.session_id u.session_id in
      elim (Bool-cases (is_new_session c.session_id u.session_id)) [
        | inl new ↦
            rw (new, s)
              (record {
                session = refl;
                sequence = refl;
                revision = refl;
                timestamp = refl;
                synchronized = refl;
              })
        | inr old ↦
            let known = same old in
            record {
              session = ground arith;
              sequence = ground arith;
              revision = ground arith;
              timestamp = ground arith;
              synchronized = ground arith;
            }
      ]

next_all-IsAt :
    (received : List (StateUpdate × ℕ)) (c : ClientSynchronizer) (p : Point)
    → IsAt c p
    → AreNext p received
    → IsAt (consume_all c received) (final_point p received)
next_all-IsAt [] c p at next = at
next_all-IsAt ((u, received_at) ∷ received) c p at next =
    next_all-IsAt received (consume c u received_at).0 (next_point p u)
      (next-IsAt u received_at c p at next.0) next.1

-- p
pub consume_all-IsAt :
    (c : ClientSynchronizer) (u : StateUpdate) (received_at : ℕ) (received : List (StateUpdate × ℕ))
    → u.type ≡ snapshot
    → IsFresh c u
    → AreNext (point_of u) received
    → IsAt (consume_all c ((u, received_at) ∷ received)) (final_point (point_of u) received)
consume_all-IsAt c u received_at received e fresh next =
    next_all-IsAt received (consume c u received_at).0 (point_of u)
      (snapshot-IsAt u received_at c e fresh) next
