-- ===== src/Transport/ClientSynchronizer.antt =====
-- transport/client_synchronizer.hpp and .cpp: what an observer keeps of the server's updates. A moment
-- is the nanoseconds of the steady clock, and a timeout is not negative.
pub mod History
pub mod Refinement
pub mod Resync
use hzl_silicon_switch_lab.Base.{
  ℕ, ◌+◌, ◌*◌, ◌%◌, ◌^◌, Bool, true, false, not, ◌&&◌, ◌||◌, Option, none, some, ltb, ◌==◌,
  if◌then◌else◌,
}
use hzl_silicon_switch_lab.Transport.StateUpdate.{
  StateUpdate, StateUpdateType, snapshot, delta, heartbeat, resync_request,
}

pub data SynchronizationResult : Type 0 where
  applied_snapshot applied_delta accepted_heartbeat : SynchronizationResult
  ignored_duplicate ignored_stale needs_snapshot : SynchronizationResult
  sequence_gap revision_mismatch : SynchronizationResult

pub record ClientSynchronizer : Type 0 where
  pub session_id : Option ℕ
  pub last_received : Option ℕ
  pub sequence : ℕ
  pub revision : ℕ
  pub timestamp_microseconds : ℕ
  pub synchronized : Bool
  pub resync_required : Bool

-- The members' initializers.
abbrev pub create_client : ClientSynchronizer
create_client = record {
  session_id = none;
  last_received = none;
  sequence = 0;
  revision = 0;
  timestamp_microseconds = 0;
  synchronized = false;
  resync_required = true;
}

unfoldable pub is_snapshot : StateUpdateType → Bool
is_snapshot snapshot = true
is_snapshot delta = false
is_snapshot heartbeat = false
is_snapshot resync_request = false

unfoldable pub is_delta : StateUpdateType → Bool
is_delta snapshot = false
is_delta delta = true
is_delta heartbeat = false
is_delta resync_request = false

-- `!session_id_.has_value() || session_id_.value() != update.session_id()`
unfoldable pub is_new_session : Option ℕ → ℕ → Bool
is_new_session none session = true
is_new_session (some current) session = not (current == session)

-- The synchronization is lost.
unfoldable pub lose : ClientSynchronizer → ClientSynchronizer
lose c = record c { synchronized = false; resync_required = true }

-- The end of `consume`, for an update that follows the last one.
unfoldable pub advance :
    ClientSynchronizer → StateUpdate → ClientSynchronizer × SynchronizationResult
unfolding is_delta
advance c u =
    let moved = record c {
      sequence = u.sequence;
      timestamp_microseconds = u.timestamp_microseconds;
    } in
    if is_delta u.type
    then (record moved { revision = u.revision }, applied_delta)
    else (moved, accepted_heartbeat)

-- What follows the tests of the session.
unfoldable pub apply : ClientSynchronizer → StateUpdate → ClientSynchronizer × SynchronizationResult
unfolding is_snapshot is_delta lose advance
apply c u =
    if is_snapshot u.type
    then (
      record c {
        sequence = u.sequence;
        revision = u.revision;
        timestamp_microseconds = u.timestamp_microseconds;
        synchronized = true;
        resync_required = false;
      },
      applied_snapshot,
    )
    else if not c.synchronized
    then (record c { resync_required = true }, needs_snapshot)
    else if not (u.sequence == (c.sequence + 1) % 2 ^ 64)
    then (lose c, sequence_gap)
    else if is_delta u.type && not (u.base_revision == c.revision)
    then (lose c, revision_mismatch)
    else advance c u

-- The state of a client for which a session begins.
unfoldable pub begin_session : ClientSynchronizer → ℕ → ClientSynchronizer
begin_session c session = record c {
  session_id = some session;
  sequence = 0;
  revision = 0;
  timestamp_microseconds = 0;
  synchronized = false;
  resync_required = true;
}

-- The tests of the session, once the moment has been kept.
unfoldable pub consume_received :
    ClientSynchronizer → StateUpdate → ClientSynchronizer × SynchronizationResult
unfolding is_new_session begin_session apply is_snapshot
consume_received c u =
    if is_new_session c.session_id u.session_id
    then (if not (is_snapshot u.type)
        then (begin_session c u.session_id, needs_snapshot)
        else apply (begin_session c u.session_id) u)
    else if u.sequence == c.sequence
    then (c, ignored_duplicate)
    else if ltb u.sequence c.sequence || ltb u.timestamp_microseconds c.timestamp_microseconds
    then (c, ignored_stale)
    else apply c u

-- `ClientSynchronizer::consume`
unfoldable pub consume :
    ClientSynchronizer
    → StateUpdate
    → (received_at : ℕ) → ClientSynchronizer × SynchronizationResult
unfolding consume_received
consume c u received_at = consume_received (record c { last_received = some received_at }) u

-- `now - last_received_.value() > timeout`
unfoldable pub is_silent : Option ℕ → ℕ → ℕ → Bool
is_silent none now timeout = true
is_silent (some last) now timeout = ltb (last + timeout * 1_000_000) now

-- `ClientSynchronizer::disconnected`, with the timeout in milliseconds.
unfoldable pub disconnected : ClientSynchronizer → ℕ → ℕ → Bool
unfolding is_silent
disconnected c now timeout = is_silent c.last_received now timeout

-- `ClientSynchronizer::reset`
unfoldable pub reset : ClientSynchronizer → ClientSynchronizer
reset c = record {
  session_id = none;
  last_received = none;
  sequence = 0;
  revision = 0;
  timestamp_microseconds = 0;
  synchronized = false;
  resync_required = true;
}
